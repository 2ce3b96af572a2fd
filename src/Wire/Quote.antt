-- ===== src/Wire/Quote.antt =====
-- The bytes that a record consists of.
use jaws.Base.{
  ℕ, zero, suc, ◌≤◌, ◌<◌, [], ◌∷◌, some, false, ltb, contains, All, All-append, ◌≡◌, refl, arith,
  Option-cases, Bool-cases, inl, inr,
}
use jaws.Strconv.{Text}
use jaws.What.{What, what_string}
use jaws.Wire.{tail_size, escape, rune_head, quoted_from, append_json_quote}

-- No control character.
abbrev pub IsPlain : Text → Type 0
IsPlain s = All (λ c. 32 ≤ c) s

pub contains-IsPlain : (s : Text) (c : ℕ) → IsPlain s → c < 32 → contains s c ≡ false
contains-IsPlain [] c h l = refl
contains-IsPlain (d ∷ s) c h l = ground (arith, h.0, contains-IsPlain s c h.1)

pub what_string-plain :
    (w : What) → (contains (what_string w) b'\n' ≡ false) × (contains (what_string w) b'\t' ≡ false)
what_string-plain w = ground (arith, w)

-- The next bytes belong to a sequence that is not ASCII.
abbrev pub Continues : ℕ → Text → Type 0
Continues zero s = Unit
Continues (suc n) [] = Unit
Continues (suc n) (c ∷ s) = (128 ≤ c) × Continues n s

escape-IsPlain : (c : ℕ) → IsPlain (escape c)
unfolding escape
escape-IsPlain c = ground arith

pub tail_size-Continues :
    (c : ℕ) (s : Text) (n : ℕ) → tail_size c s ≡ some n → (128 ≤ c) × Continues n s
unfolding tail_size
tail_size-Continues c [] n h = ground (arith, h)
tail_size-Continues c (d ∷ []) n h = ground (arith, h)
tail_size-Continues c (d ∷ e ∷ []) n h = ground (arith, h)
tail_size-Continues c (d ∷ e ∷ f ∷ s) n h = ground (arith, h)

rune_head-IsPlain : (c : ℕ) (s : Text) → IsPlain (rune_head c s).0 × Continues (rune_head c s).1 s
unfolding rune_head
rune_head-IsPlain c s = elim (Bool-cases (ltb c 128)) [
  | inl e ↦ rw e (escape-IsPlain c, tt)
  | inr e ↦ rw e (elim (Option-cases (tail_size c s)) [
    | inl o ↦ rw o (ground arith, tt)
    | inr (n, o) ↦
        let (low, rest) = tail_size-Continues c s n o in rw o ((omega (arith, low), tt), rest)
  ])
]

quoted_from-IsPlain : (left : ℕ) (s : Text) → Continues left s → IsPlain (quoted_from left s)
unfolding quoted_from
quoted_from-IsPlain left [] h = tt
quoted_from-IsPlain zero (c ∷ s) h =
    let (plain, rest) = rune_head-IsPlain c s in
    All-append (λ c. 32 ≤ c) (rune_head c s).0 (quoted_from (rune_head c s).1 s) plain
      (quoted_from-IsPlain (rune_head c s).1 s rest)
quoted_from-IsPlain (suc left) (c ∷ s) h = (omega (arith, h.0), quoted_from-IsPlain left s h.1)

pub quote-IsPlain : (s : Text) → IsPlain (append_json_quote [] s)
unfolding append_json_quote
quote-IsPlain s = (
  omega arith,
  All-append (λ c. 32 ≤ c) (quoted_from 0 s) (b'"' ∷ []) (quoted_from-IsPlain 0 s tt)
      (omega arith, tt),
)
