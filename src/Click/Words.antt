-- ===== src/Click/Words.antt =====
-- The words of a text.
use jaws.Base.{
  ℕ, List, [], ◌∷◌, ◌++◌, true, false, not, All, ◌≡◌, refl, ap, ◌∙◌, Bool-cases, inl, inr,
}
use jaws.Strconv.{Text}
use jaws.Bytes.{prepend}
use jaws.Click.{is_space, starts_word, words, join}

-- At least one rune, and none of them a space.
abbrev pub IsWord : Text → Type 0
IsWord [] = ⊥
IsWord (c ∷ s) = (is_space c ≡ false) × All (λ d. is_space d ≡ false) s

words_step :
    (c : ℕ) (s : Text)
    → is_space c ≡ false
    → starts_word s ≡ true
    → words (c ∷ s) ≡ prepend c (words s)
unfolding words
words_step c s h w = rw (h, w) refl

words_last :
    (c : ℕ) (s : Text)
    → is_space c ≡ false
    → starts_word s ≡ false
    → words (c ∷ s) ≡ (c ∷ []) ∷ words s
unfolding words
words_last c s h w = rw (h, w) refl

words_space : (s : Text) → words (b' ' ∷ s) ≡ words s
unfolding words
words_space s = refl

word_first_from :
    (c : ℕ) (s t : Text)
    → is_space c ≡ false
    → All (λ d. is_space d ≡ false) s
    → words ((c ∷ s) ++ b' ' ∷ t) ≡ (c ∷ s) ∷ words t
word_first_from c [] t h a = words_last c (b' ' ∷ t) h refl ∙ ap (λ l. (c ∷ []) ∷ l) (words_space t)
word_first_from c (d ∷ s) t h a =
    words_step c ((d ∷ s) ++ b' ' ∷ t) h (ap not a.0)
    ∙ ap (prepend c) (word_first_from d s t a.0 a.1)

pub word_first : (w t : Text) → IsWord w → words (w ++ b' ' ∷ t) ≡ w ∷ words t
word_first [] t h = absurd h
word_first (c ∷ s) t h = word_first_from c s t h.0 h.1

word_alone :
    (c : ℕ) (s : Text)
    → is_space c ≡ false
    → All (λ d. is_space d ≡ false) s
    → words (c ∷ s) ≡ (c ∷ s) ∷ []
unfolding words
word_alone c [] h a = rw h refl
word_alone c (d ∷ s) h a =
    words_step c (d ∷ s) h (ap not a.0) ∙ ap (prepend c) (word_alone d s a.0 a.1)

words_of_word : (w : Text) → IsWord w → words w ≡ w ∷ []
words_of_word [] h = absurd h
words_of_word (c ∷ s) h = word_alone c s h.0 h.1

pub words-join : (ws : List Text) → All IsWord ws → words (join ws) ≡ ws
unfolding join words
words-join [] a = refl
words-join (w ∷ []) a = words_of_word w a.0
words-join (w ∷ v ∷ ws) a =
    word_first w (join (v ∷ ws)) a.0 ∙ ap (λ l. w ∷ l) (words-join (v ∷ ws) a.1)

plain_runes : (w : Text) → IsWord w → All (λ d. is_space d ≡ false) w
plain_runes [] h = absurd h
plain_runes (c ∷ s) h = h

prepend-IsWord :
    (c : ℕ) (ws : List Text) → is_space c ≡ false → All IsWord ws → All IsWord (prepend c ws)
prepend-IsWord c [] h a = ((h, tt), tt)
prepend-IsWord c (w ∷ ws) h a = ((h, plain_runes w a.0), a.1)

pub words-IsWord : (s : Text) → All IsWord (words s)
unfolding words
words-IsWord [] = tt
words-IsWord (c ∷ s) =
    let a = words-IsWord s in
    elim (Bool-cases (is_space c)) [
      | inl e ↦ rw e a
      | inr e ↦ elim (Bool-cases (starts_word s)) [
        | inl w ↦ rw (e, w) (prepend-IsWord c (words s) e a)
        | inr w ↦ rw (e, w) ((e, tt), a)
      ]
    ]
