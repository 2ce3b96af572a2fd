-- ===== src/Numeric/Widget/Settling.antt =====
-- An edit of a number settles: the browser ends with the canonical text of the source.
use jaws.Base.{
  ℕ, List, [], ◌∷◌, ◌++◌, Option, none, some, true, false, length, ◌+◌, ◌≡◌, ◌≢◌, refl, arith,
  Bool-cases, inl, inr, ◌⊎◌, length-append,
}
use jaws.Strconv.{Text}
use jaws.Strconv.RoundTrip.{format_uint-ne-nil}
use jaws.Bytes.{text_eq}
use jaws.Numeric.{ℤ, pos, negsuc, format_numeric, parse_numeric}
use jaws.Numeric.Widget.{
  Answer, Source, Selector, NumericInput, update_numeric_input, after_answer, accept_text,
  handle_numeric_input,
}

-- What the browser shows: the last of the values that it is sent, or the text that it showed.
abbrev pub shown : Text → List Text → Text
shown text [] = text
shown text (v ∷ vs) = shown v vs

text_eq→eq : (s t : Text) → text_eq s t ≡ true → s ≡ t
unfolding text_eq
text_eq→eq [] [] h = refl
text_eq→eq [] (d ∷ t) h = absurd (cc)
text_eq→eq (c ∷ s) [] h = absurd (cc)
text_eq→eq (c ∷ s) (d ∷ t) h = ground (arith, h, text_eq→eq s t)

format_numeric-ne-nil : (z : ℤ) → format_numeric z ≢ []
unfolding format_numeric
format_numeric-ne-nil (pos n) h = format_uint-ne-nil 10 n h
format_numeric-ne-nil (negsuc n) h = absurd (cc)

nil_differs : (t : Text) → t ≢ [] → text_eq [] t ≡ false
unfolding text_eq
nil_differs [] h = absurd (h refl)
nil_differs (c ∷ t) h = refl

one_more : (xs : List Selector) (x : Selector) → length (xs ++ x ∷ []) ≡ length xs + 1
one_more xs x = length-append xs (x ∷ [])

module _ {S : Type 0} where
  -- The Inputs whose next update sets the browser right while it shows `text`.
  record IsArmed (u : NumericInput S) (text : Text) (source : S) (n : ℕ) : Type 0 where
    last : (u.last ≡ some text) ⊎ (u.last ≡ some [])
    none_sent : u.values ≡ []
    kept : u.source ≡ source
    once : length u.dirty ≡ n + 1

  update_shown :
      (b : Source S) (u : NumericInput S) (text : Text)
      → (u.last ≡ some text) ⊎ (u.last ≡ some [])
      → u.values ≡ []
      → shown text (update_numeric_input b u).values ≡ format_numeric (b.jaws_get u.source)
  unfolding update_numeric_input
  update_shown b u text a v = elim a [
    | inl e ↦ elim (Bool-cases (text_eq text (format_numeric (b.jaws_get u.source)))) [
      | inl t ↦ rw (update_numeric_input, e, t, v) (text_eq→eq text _ t)
      | inr t ↦ rw (update_numeric_input, e, t, v) refl
    ]
    | inr e ↦
        let t =
          nil_differs (format_numeric (b.jaws_get u.source))
            (format_numeric-ne-nil (b.jaws_get u.source)) in
        rw (update_numeric_input, e, t, v) refl
  ]

  after_answer-IsArmed :
      (u : NumericInput S) (text : Text) (answer : Answer)
      → u.last ≡ some text
      → u.values ≡ []
      → IsArmed (after_answer u answer).0 text u.source (length u.dirty)
  after_answer-IsArmed u text Answer.changed e v = record {
    last = inl e;
    none_sent = v;
    kept = refl;
    once = one_more u.dirty _;
  }
  after_answer-IsArmed u text Answer.unchanged e v = record {
    last = inl e;
    none_sent = v;
    kept = refl;
    once = one_more u.dirty _;
  }
  after_answer-IsArmed u text (Answer.failed c) e v = record {
    last = inl e;
    none_sent = v;
    kept = refl;
    once = one_more u.dirty _;
  }

  -- The source once the setter was called with the accepted value, if there is one.
  abbrev set_source : (S → ℤ → S × Answer) → S → Option ℤ → S
  set_source set s none = s
  set_source set s (some z) = (set s z).0

  accept_text-IsArmed :
      (set : S → ℤ → S × Answer) (u : NumericInput S) (text : Text) (o : Option ℤ)
      → u.values ≡ []
      → IsArmed (accept_text set u text o).0 text (set_source set u.source o) (length u.dirty)
  accept_text-IsArmed set u text none v = record {
    last = inr refl;
    none_sent = v;
    kept = refl;
    once = one_more u.dirty _;
  }
  accept_text-IsArmed set u text (some z) v =
      after_answer-IsArmed (record u { last = some text; source = (set u.source z).0 }) text
        (set u.source z).1 refl v

  -- Whatever text the browser sends to an Input with a setter, and whatever the setter does and
  -- answers: the source is what the setter makes of the value, if parseNumeric accepts the text, and
  -- else untouched; exactly one selector is made dirty; and after the next update the browser, which
  -- showed that text, shows the canonical text of the source.
  pub handle_numeric_input_settles :
      (b : Source S) (u : NumericInput S) (text : Text) (set : S → ℤ → S × Answer)
      → b.jaws_set ≡ some set
      → u.values ≡ []
      → let after = (handle_numeric_input b u text).0 in
        (after.source ≡ set_source set u.source (parse_numeric b.class text))
        × (length after.dirty ≡ length u.dirty + 1)
        × (shown text (update_numeric_input b after).values
            ≡ format_numeric (b.jaws_get after.source))
  unfolding handle_numeric_input update_numeric_input
  handle_numeric_input_settles b u text set h v =
      let a = accept_text-IsArmed set u text (parse_numeric b.class text) v in
      rw (handle_numeric_input, h)
        (
          a.kept,
          a.once,
          update_shown b (accept_text set u text (parse_numeric b.class text)).0 text a.last
              a.none_sent,
        )
