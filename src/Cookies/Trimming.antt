-- ===== src/Cookies/Trimming.antt =====
-- Trimming and searching texts without white space.
use jaws.Base.{
  ℕ, [], ◌∷◌, ◌++◌, true, false, ◌≡◌, ◌≢◌, refl, arith, All, contains, append_assoc, ==_refl,
}
use jaws.Strconv.{Text}
use jaws.Bytes.{contains_text, has_prefix, text_eq}
use jaws.Cookies.{is_blank, put_front, is_ascii_space, trim_left, trim_right, trim_string}

abbrev pub IsSolid : ℕ → Type 0
IsSolid c = is_ascii_space c ≡ false

pub trim_left_solid : (c : ℕ) (s : Text) → IsSolid c → trim_left (c ∷ s) ≡ c ∷ s
unfolding trim_left
trim_left_solid c s h = rw h refl

pub trim_right_solid : (s : Text) → All IsSolid s → trim_right s ≡ s
unfolding trim_right
trim_right_solid [] h = refl
trim_right_solid (c ∷ []) h = rw h.0 refl
trim_right_solid (c ∷ d ∷ s) h = rw (trim_right_solid (d ∷ s) h.1) refl

-- What is before a text that ends well is kept.
pub trim_right_keep :
    (s : Text) (c : ℕ) (t : Text)
    → trim_right (c ∷ t) ≡ c ∷ t
    → trim_right (s ++ c ∷ t) ≡ s ++ c ∷ t
unfolding trim_right
trim_right_keep [] c t h = h
trim_right_keep (d ∷ []) c t h = rw h refl
trim_right_keep (d ∷ e ∷ s) c t h = rw (trim_right_keep (e ∷ s) c t h) refl

pub trim_string_solid : (s : Text) → All IsSolid s → trim_string s ≡ s
unfolding trim_left trim_right
trim_string_solid [] h = refl
trim_string_solid (c ∷ s) h = rw (trim_right_solid (c ∷ s) h) (trim_left_solid c s h.0)

pub text_eq_refl : (s : Text) → text_eq s s ≡ true
unfolding text_eq
text_eq_refl [] = refl
text_eq_refl (c ∷ s) = rw (==_refl c, text_eq_refl s) refl

pub has_prefix-append : (w t : Text) → has_prefix (w ++ t) w ≡ true
has_prefix-append [] [] = refl
has_prefix-append [] (c ∷ t) = refl
has_prefix-append (c ∷ w) t = rw (==_refl c, has_prefix-append w t) refl

pub contains_text-front : (w t : Text) → contains_text (w ++ t) w ≡ true
contains_text-front [] [] = refl
contains_text-front [] (c ∷ t) = refl
contains_text-front (c ∷ w) t = rw (has_prefix-append (c ∷ w) t) refl

pub contains_text-start : (w s t : Text) → contains_text ((w ++ s) ++ t) w ≡ true
contains_text-start w s t = rw (append_assoc w s t) (contains_text-front w (s ++ t))

pub contains_text_behind :
    (s t w : Text) → contains_text (s ++ t) w ≡ false → contains_text t w ≡ false
contains_text_behind [] t w h = h
contains_text_behind (c ∷ s) t w h = contains_text_behind s t w (ground (arith, h))

pub contains_none : (s : Text) (c : ℕ) → All (λ d. d ≢ c) s → contains s c ≡ false
contains_none [] c h = refl
contains_none (d ∷ s) c h = ground (arith, h.0, contains_none s c h.1)

pub is_blank-append : (s : Text) (c : ℕ) (t : Text) → is_blank (s ++ c ∷ t) ≡ false
is_blank-append [] c t = refl
is_blank-append (d ∷ s) c t = refl

pub trim_left_space : (s : Text) → trim_left (put_front b' ' s) ≡ trim_left s
unfolding trim_left is_ascii_space
trim_left_space [] = refl
trim_left_space (c ∷ s) = refl

pub trim_right_put :
    (c : ℕ) (s : Text) → is_blank s ≡ false → trim_right s ≡ s → trim_right (c ∷ s) ≡ c ∷ s
unfolding trim_right
trim_right_put c [] e h = absurd (cc)
trim_right_put c (d ∷ s) e h = rw h refl

pub trim_left_front :
    (s t : Text) → is_blank s ≡ false → All IsSolid s → trim_left (s ++ t) ≡ s ++ t
trim_left_front [] t e h = absurd (cc)
trim_left_front (c ∷ s) t e h = trim_left_solid c (s ++ t) h.0

pub trim_left_whole : (s : Text) → All IsSolid s → trim_left s ≡ s
trim_left_whole [] h = unfold trim_left in refl
trim_left_whole (c ∷ s) h = trim_left_solid c s h.0
