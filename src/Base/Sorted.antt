-- ===== src/Base/Sorted.antt =====
-- Strictly ascending lists of numbers.
use Prim.Native.Nat.{ℕ, zero, suc, ◌≤◌, ◌<◌}
use mathlib.Core.Path.{◌≡◌, refl}
use mathlib.Core.Bool.{Bool, true, false}
use mathlib.Core.Logic.{inl, inr}
use mathlib.Core.List.{List, [], ◌∷◌, ◌++◌}
use native.Mathlib.Omega.{arith}
use jaws.Base.Tests.{◌==◌, Bool-cases, ==→eq}
use jaws.Base.Lists.{All, contains, delete_func, length, get_or}

-- Strictly ascending, and above `lo`.
abbrev pub Above : ℕ → List ℕ → Type 0
Above lo [] = Unit
Above lo (x ∷ xs) = (lo < x) × Above x xs

pub Above-mono : (lo hi : ℕ) (xs : List ℕ) → lo ≤ hi → Above hi xs → Above lo xs
Above-mono lo hi [] h a = tt
Above-mono lo hi (x ∷ xs) h a = (omega arith, a.1)

pub Above-delete_func :
    (lo : ℕ) (xs : List ℕ) (del : ℕ → Bool) → Above lo xs → Above lo (delete_func xs del)
Above-delete_func lo [] del a = tt
Above-delete_func lo (x ∷ xs) del a =
    ground (arith, Above-delete_func x xs del a.1, Above-mono lo x (delete_func xs del))

pub Above-append_one :
    (lo : ℕ) (xs : List ℕ) (a : ℕ)
    → Above lo xs
    → All (λ x. x < a) xs
    → lo < a
    → Above lo (xs ++ a ∷ [])
Above-append_one lo [] a h b l = (l, tt)
Above-append_one lo (x ∷ xs) a h b l = (h.0, Above-append_one x xs a h.1 b.1 b.0)

pub contains_below : (lo : ℕ) (xs : List ℕ) (a : ℕ) → Above lo xs → a ≤ lo → contains xs a ≡ false
contains_below lo [] a h l = refl
contains_below lo (x ∷ xs) a h l = ground (arith, contains_below x xs a h.1)

-- An ascending list is read in ascending order.
pub lt-get_or : (lo : ℕ) (xs : List ℕ) (i : ℕ) → Above lo xs → i < length xs → lo < get_or xs i 0
lt-get_or lo [] i h l = absurd (omega arith)
lt-get_or lo (x ∷ xs) zero h l = h.0
lt-get_or lo (x ∷ xs) (suc i) h l = omega (arith, lt-get_or x xs i h.1 (omega arith), h.0)

pub get_or_mono :
    (lo : ℕ) (xs : List ℕ) (i j : ℕ)
    → Above lo xs
    → i < j
    → j < length xs
    → get_or xs i 0 < get_or xs j 0
get_or_mono lo [] i j h l m = absurd (omega arith)
get_or_mono lo (x ∷ xs) i zero h l m = absurd (omega arith)
get_or_mono lo (x ∷ xs) zero (suc j) h l m = lt-get_or x xs j h.1 (omega arith)
get_or_mono lo (x ∷ xs) (suc i) (suc j) h l m = get_or_mono x xs i j h.1 (omega arith) (omega arith)

pub contains-get_or : (xs : List ℕ) (i : ℕ) → i < length xs → contains xs (get_or xs i 0) ≡ true
contains-get_or [] i l = absurd (omega arith)
contains-get_or (x ∷ xs) zero l = ground arith
contains-get_or (x ∷ xs) (suc i) l = ground (arith, contains-get_or xs i (omega arith))

-- The position of a member.
pub contains_position :
    (xs : List ℕ) (a : ℕ) → contains xs a ≡ true → (i : ℕ) × (i < length xs) × (get_or xs i 0 ≡ a)
contains_position [] a h = absurd (cc)
contains_position (x ∷ xs) a h = elim (Bool-cases (x == a)) [
  | inl e ↦ (0, omega arith, ==→eq x a e)
  | inr e ↦ let (i, l, g) = contains_position xs a (ground arith) in (suc i, omega arith, g)
]
