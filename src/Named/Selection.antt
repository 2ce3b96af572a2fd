-- ===== src/Named/Selection.antt =====
-- What setting a name does, in both modes.
use jaws.Base.{
  ℕ, ◌+◌, List, [], ◌∷◌, Bool, true, false, not, ◌&&◌, ◌||◌, ltb, ==→eq, ==_refl, if◌then◌else◌,
  length, length-append, ◌≡◌, refl, sym, ap, ◌∙◌, arith, Bool-cases, inl, inr,
}
use jaws.Strconv.{Text}
use jaws.Named.{
  NamedBool, BoolArray, same, set_matching, deselect_loop, deselect_others, set_changed, count,
  is_checked,
}
use jaws.Bytes.{text_eq}

pub text_eq→eq : (s t : Text) → text_eq s t ≡ true → s ≡ t
unfolding text_eq
text_eq→eq [] [] h = refl
text_eq→eq [] (b ∷ t) h = absurd (ground (arith, h))
text_eq→eq (a ∷ s) [] h = absurd (ground (arith, h))
text_eq→eq (a ∷ s) (b ∷ t) h =
    let e = text_eq→eq s t (ground (arith, h)) in
    let f = ==→eq a b (ground (arith, h)) in rw (e, f) refl

pub text_eq_refl : (s : Text) → text_eq s s ≡ true
unfolding text_eq
text_eq_refl [] = refl
text_eq_refl (a ∷ s) = ground (arith, text_eq_refl s, ==_refl a)

text_eq_sym : (s t : Text) → text_eq s t ≡ text_eq t s
unfolding text_eq
text_eq_sym [] [] = refl
text_eq_sym [] (b ∷ t) = refl
text_eq_sym (a ∷ s) [] = refl
text_eq_sym (a ∷ s) (b ∷ t) = ground (arith, text_eq_sym s t)

-- The values that the second list checks differently.
unfoldable pub differences : List NamedBool → List NamedBool → ℕ
differences [] nbs = 0
differences (nb ∷ nbs) [] = 0
differences (nb ∷ nbs) (nb' ∷ nbs') =
    (if same nb.checked nb'.checked then 0 else 1) + differences nbs nbs'

is_checked-deselect_loop :
    (name k : Text) (nbs : List NamedBool)
    → is_checked k (deselect_loop name nbs).0 ≡ (is_checked k nbs && text_eq k name)
unfolding is_checked deselect_loop
is_checked-deselect_loop name k [] = refl
is_checked-deselect_loop name k (nb ∷ nbs) = elim (Bool-cases (text_eq nb.name k)) [
  | inl e ↦ rw (text_eq→eq nb.name k e) (ground (arith, is_checked-deselect_loop name k nbs))
  | inr e ↦ ground (arith, e, is_checked-deselect_loop name k nbs)
]

is_checked-set_matching :
    (name k : Text) (state : Bool) (nbs : List NamedBool)
    → is_checked k (set_matching name state nbs).1
      ≡ (if text_eq k name then state && ltb 0 (count name nbs) else is_checked k nbs)
unfolding is_checked set_matching count
is_checked-set_matching name k state [] = ground arith
is_checked-set_matching name k state (nb ∷ nbs) = elim (Bool-cases (text_eq nb.name k)) [
  | inl e ↦
      rw (text_eq→eq nb.name k e)
        (ground (arith, text_eq_refl k, is_checked-set_matching name k state nbs))
  | inr e ↦ elim (Bool-cases (text_eq nb.name name)) [
    | inr f ↦ ground (arith, e, f, is_checked-set_matching name k state nbs)
    | inl f ↦
        let other : text_eq k name ≡ false =
          text_eq_sym k name ∙ ap (λ n. text_eq n k) (sym (text_eq→eq nb.name name f)) ∙ e in
        ground (arith, e, f, other, is_checked-set_matching name k state nbs)
  ]
]

matched-set_matching :
    (name : Text) (state : Bool) (nbs : List NamedBool)
    → (set_matching name state nbs).0 ≡ ltb 0 (count name nbs)
unfolding set_matching count
matched-set_matching name state [] = refl
matched-set_matching name state (nb ∷ nbs) = ground (arith, matched-set_matching name state nbs)

-- After `Set(name, state)`, in both modes: the name is checked exactly if it was set and some value
-- has it; any other name keeps its state, unless the array is single-select and the name was set or
-- matched nothing, which clears it.
pub is_checked-set_changed :
    (nba : BoolArray) (name k : Text) (state : Bool)
    → is_checked k (set_changed nba name state).0.values ≡ (
        if text_eq k name
        then state && ltb 0 (count name nba.values)
        else is_checked k nba.values
          && not ((state || not (ltb 0 (count name nba.values))) && not nba.multi))
unfolding set_changed deselect_others
is_checked-set_changed nba name k state =
    let found = is_checked-set_matching name k state nba.values in
    let matched = matched-set_matching name state nba.values in
    elim (Bool-cases ((state || not (set_matching name state nba.values).0) && not nba.multi)) [
      | inl d ↦ rw d (
          is_checked-deselect_loop name k (set_matching name state nba.values).1
          ∙ ground (arith, d, matched, found))
      | inr d ↦ rw d (ground (arith, d, matched, found))
    ]

differences-deselect_loop :
    (name : Text) (state : Bool) (nbs : List NamedBool)
    → differences nbs (deselect_loop name (set_matching name state nbs).1).0
      ≡ length (set_matching name state nbs).2
        + length (deselect_loop name (set_matching name state nbs).1).1
unfolding set_matching deselect_loop differences
differences-deselect_loop name state [] = refl
differences-deselect_loop name state (nb ∷ nbs) = elim (Bool-cases (text_eq nb.name name)) [
  | inl e ↦ ground (arith, e, differences-deselect_loop name state nbs)
  | inr e ↦ ground (arith, e, differences-deselect_loop name state nbs)
]

differences-set_matching :
    (name : Text) (state : Bool) (nbs : List NamedBool)
    → differences nbs (set_matching name state nbs).1 ≡ length (set_matching name state nbs).2
unfolding set_matching differences
differences-set_matching name state [] = refl
differences-set_matching name state (nb ∷ nbs) =
    ground (arith, differences-set_matching name state nbs)

-- Set reports every value that it changed, and no other: there are as many reports as values that
-- are checked differently, so that ErrValueUnchanged means that nothing changed.
set_changed-differences :
    (nba : BoolArray) (name : Text) (state : Bool)
    → let (nba', changed) = set_changed nba name state in
      differences nba.values nba'.values ≡ length changed
unfolding set_changed deselect_others
set_changed-differences nba name state =
    let first = set_matching name state nba.values in
    elim (Bool-cases ((state || not first.0) && not nba.multi)) [
      | inl d ↦ rw d (
          differences-deselect_loop name state nba.values
          ∙ sym (length-append first.2 (deselect_loop name first.1).1))
      | inr d ↦
          rw d (
            differences-set_matching name state nba.values
            ∙ omega (arith, length-append first.2 []))
    ]
