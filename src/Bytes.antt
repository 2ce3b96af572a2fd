-- ===== src/Bytes.antt =====
-- The calls of Go's package strings that the code makes on bytes: EqualFold against ASCII letters,
-- Cut, Contains, and NewReplacer with patterns of one byte.
use Prim.Native.String.{String}
use Prim.Native.Char.{code}
use jaws.Base.{
  ℕ, ◌+◌, List, [], ◌∷◌, ◌++◌, Option, none, some, Bool, true, false, ◌&&◌, ◌||◌, leb, ◌==◌,
  if◌then◌else◌, contains, ◌≡◌, refl, arith, ==_refl,
}
use jaws.Strconv.{Text}

-- The bytes of an ASCII text.
abbrev pub codes : String → Text
codes String.[] = []
codes (String.◌∷◌ c s) = code c ∷ codes s

abbrev pub lower : ℕ → ℕ
lower c = if leb b'A' c && leb c b'Z' then c + 32 else c

-- Equality of strings.
unfoldable pub text_eq : Text → Text → Bool
text_eq [] [] = true
text_eq (c ∷ s) (d ∷ t) = (c == d) && text_eq s t
text_eq _ _ = false

-- strings.EqualFold, where the second text consists of ASCII letters whose only foldings are ASCII.
abbrev pub equal_fold : Text → Text → Bool
equal_fold [] [] = true
equal_fold (c ∷ s) (d ∷ t) = (lower c == lower d) && equal_fold s t
equal_fold _ _ = false

-- strings.Cut at one byte: what is before it, and what is behind it if it is there.
abbrev pub cut : Text → ℕ → Text × Option Text
cut [] sep = ([], none)
cut (c ∷ s) sep = if c == sep then ([], some s) else (c ∷ (cut s sep).0, (cut s sep).1)

-- strings.CutPrefix.
abbrev pub without_prefix : Text → Text → Option Text
without_prefix s [] = some s
without_prefix [] (p ∷ ps) = none
without_prefix (c ∷ s) (p ∷ ps) = if c == p then without_prefix s ps else none

abbrev pub has_prefix : Text → Text → Bool
has_prefix s [] = true
has_prefix [] (p ∷ ps) = false
has_prefix (c ∷ s) (p ∷ ps) = (c == p) && has_prefix s ps

-- strings.Contains.
abbrev pub contains_text : Text → Text → Bool
contains_text [] sub = has_prefix [] sub
contains_text (c ∷ s) sub = has_prefix (c ∷ s) sub || contains_text s sub

-- Replace of a replacer whose patterns are single bytes.
abbrev pub replace : (ℕ → Text) → Text → Text
replace f [] = []
replace f (c ∷ s) = f c ++ replace f s

abbrev pub prepend : ℕ → List Text → List Text
prepend c [] = (c ∷ []) ∷ []
prepend c (part ∷ parts) = (c ∷ part) ∷ parts

-- The parts of a text between the bytes `sep`.
abbrev pub split : Text → ℕ → List Text
split [] sep = [] ∷ []
split (c ∷ s) sep = let rest = split s sep in if c == sep then [] ∷ rest else prepend c rest

pub split-part :
    (s t : Text) (sep : ℕ) → contains s sep ≡ false → split (s ++ sep ∷ t) sep ≡ s ∷ split t sep
split-part [] t sep h = ground (arith, ==_refl sep)
split-part (c ∷ s) t sep h = ground (arith, h, split-part s t sep)

pub split-whole : (s : Text) (sep : ℕ) → contains s sep ≡ false → split s sep ≡ s ∷ []
split-whole [] sep h = refl
split-whole (c ∷ s) sep h = ground (arith, h, split-whole s sep)

pub cut_at : (s t : Text) (sep : ℕ) → contains s sep ≡ false → cut (s ++ sep ∷ t) sep ≡ (s, some t)
cut_at [] t sep h = rw (==_refl sep) refl
cut_at (c ∷ s) t sep h =
    let e : (c == sep) ≡ false = ground (arith, h) in
    let r : contains s sep ≡ false = ground (arith, h) in rw (e, cut_at s t sep r) refl

pub cut_whole : (s : Text) (sep : ℕ) → contains s sep ≡ false → cut s sep ≡ (s, none)
cut_whole [] sep h = refl
cut_whole (c ∷ s) sep h =
    let e : (c == sep) ≡ false = ground (arith, h) in
    let r : contains s sep ≡ false = ground (arith, h) in rw (e, cut_whole s sep r) refl
