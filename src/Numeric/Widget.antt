-- ===== src/Numeric/Widget.antt =====
-- lib/ui/numeric.go (updateNumericInput, handleNumericInput, numericTyped) and lib/ui/common.go
-- (applyDirty): a Number or Range over a source of the application, whose getter and setter are
-- parameters.
pub mod Settling
use jaws.Base.{
  ℕ, List, [], ◌∷◌, ◌++◌, Option, none, some, Bool, true, false, if◌then◌else◌, length, ◌+◌, ◌≤◌,
  ◌≡◌, ◌≢◌, refl, arith, Bool-cases, Option-cases, inl, inr, ◌⊎◌,
}
use jaws.Strconv.{Text, format_uint}
use jaws.Bytes.{text_eq}
use jaws.Numeric.{ℤ, pos, negsuc, Class, format_numeric, parse_numeric}

-- What JawsSet returns: nil, ErrValueUnchanged, or another error.
pub data Answer : Type 0 where
  changed unchanged : Answer
  failed : ℕ → Answer

-- The source: its getter, and its setter if it has one.
pub record Source (S : Type 0) : Type 0 where
  pub class : Class
  pub jaws_get : S → ℤ
  pub jaws_set : Option (S → ℤ → S × Answer)

-- A selector that is made dirty: the Element, or the tag of the Input.
pub data Selector : Type 0 where
  own_element own_tag : Selector

-- The Input, its source, and what the Element was asked for: selectors, SetValue, and the log.
pub record NumericInput (S : Type 0) : Type 0 where
  -- `none` before the first rendering.
  pub last : Option Text
  pub source : S
  pub dirty : List Selector
  pub values : List Text
  pub logged : ℕ

module _ {S : Type 0} where
  abbrev pub make_dirty : NumericInput S → Selector → NumericInput S
  make_dirty u sel = record u { dirty = u.dirty ++ sel ∷ [] }

  -- updateNumericInput.
  unfoldable pub update_numeric_input : Source S → NumericInput S → NumericInput S
  unfolding text_eq
  update_numeric_input b u = elim u.last [
    | none ↦ record u { logged = u.logged + 1 }
    | some prev ↦
        let text = format_numeric (b.jaws_get u.source) in
        let swapped = record u { last = some text } in
        if text_eq prev text then swapped else record swapped { values = u.values ++ text ∷ [] }
  ]

  -- The end of handleNumericInput, with the answer of the setter: applyDirty, but that an unchanged
  -- value makes the Element itself dirty.
  abbrev pub after_answer : NumericInput S → Answer → NumericInput S × Option ℕ
  after_answer u Answer.changed = (make_dirty u Selector.own_tag, none)
  after_answer u Answer.unchanged = (make_dirty u Selector.own_element, none)
  after_answer u (Answer.failed e) = (make_dirty u Selector.own_tag, some e)

  -- acceptText, and what follows it.
  abbrev pub accept_text :
      (S → ℤ → S × Answer) → NumericInput S → Text → Option ℤ → NumericInput S × Option ℕ
  accept_text set u text none =
      (make_dirty (record u { last = some [] }) Selector.own_element, none)
  accept_text set u text (some value) =
      let (source, answer) = set u.source value in
      after_answer (record u { last = some text; source = source }) answer

  -- handleNumericInput: the Input, and the error.
  unfoldable pub handle_numeric_input : Source S → NumericInput S → Text → NumericInput S × Option ℕ
  handle_numeric_input b u text = elim b.jaws_set [
    | none ↦ (u, none)
    | some set ↦ accept_text set u text (parse_numeric b.class text)
  ]
