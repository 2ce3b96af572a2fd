-- ===== src/Base/Lists.antt =====
-- Lists measured and indexed by native numbers, and the helpers of Go's package slices on them.
use Prim.Native.Nat.{ℕ, zero, suc, ◌+◌, ◌≤◌}
use mathlib.Core.Path.{◌≡◌, refl}
use mathlib.Core.Bool.{Bool, true, false, not, ◌&&◌, ◌||◌}
use mathlib.Core.List.{List, [], ◌∷◌, ◌++◌}
use native.Mathlib.Omega.{arith}
use jaws.Base.Tests.{==_refl, ◌==◌, if◌then◌else◌}

module _ {ℓ} {A : Type ℓ} where
  abbrev pub length : List A → ℕ
  length [] = 0
  length (x ∷ xs) = suc (length xs)

  abbrev pub get_or : List A → ℕ → A → A
  get_or [] i d = d
  get_or (x ∷ xs) zero d = x
  get_or (x ∷ xs) (suc i) d = get_or xs i d

  -- slices.DeleteFunc: the elements that do not satisfy the test, in order.
  abbrev pub delete_func : List A → (A → Bool) → List A
  delete_func [] del = []
  delete_func (x ∷ xs) del = if del x then delete_func xs del else x ∷ delete_func xs del

  pub length-append : (xs ys : List A) → length (xs ++ ys) ≡ length xs + length ys
  length-append [] ys = omega arith
  length-append (x ∷ xs) ys = omega (arith, length-append xs ys)

  pub length-delete_func-le :
      (xs : List A) (del : A → Bool) → length (delete_func xs del) ≤ length xs
  length-delete_func-le [] del = omega arith
  length-delete_func-le (x ∷ xs) del = ground (arith, length-delete_func-le xs del)

  pub delete_func-append :
      (xs ys : List A) (del : A → Bool)
      → delete_func (xs ++ ys) del ≡ delete_func xs del ++ delete_func ys del
  delete_func-append [] ys del = refl
  delete_func-append (x ∷ xs) ys del = ground (arith, delete_func-append xs ys del)

abbrev pub All {ℓ κ} : {A : Type ℓ} → (A → Type κ) → List A → Type κ
All P [] = Unit
All P (x ∷ xs) = P x × All P xs

module _ {ℓ κ} {A : Type ℓ} (P : A → Type κ) where
  pub All-append : (xs ys : List A) → All P xs → All P ys → All P (xs ++ ys)
  All-append [] ys hx hy = hy
  All-append (x ∷ xs) ys hx hy = (hx.0, All-append xs ys hx.1 hy)

  pub All-append_left : (xs ys : List A) → All P (xs ++ ys) → All P xs
  All-append_left [] ys h = tt
  All-append_left (x ∷ xs) ys h = (h.0, All-append_left xs ys h.1)

  pub All-delete_func : (xs : List A) (del : A → Bool) → All P xs → All P (delete_func xs del)
  All-delete_func [] del h = tt
  All-delete_func (x ∷ xs) del h = ground (arith, All-delete_func xs del h.1)

-- slices.Contains on numbers.
abbrev pub contains : List ℕ → ℕ → Bool
contains [] a = false
contains (x ∷ xs) a = (x == a) || contains xs a

pub contains-append :
    (xs ys : List ℕ) (a : ℕ) → contains (xs ++ ys) a ≡ (contains xs a || contains ys a)
contains-append [] ys a = refl
contains-append (x ∷ xs) ys a = ground (arith, contains-append xs ys a)

pub contains-delete_func :
    (xs : List ℕ) (del : ℕ → Bool) (a : ℕ)
    → contains (delete_func xs del) a ≡ (contains xs a && not (del a))
contains-delete_func [] del a = refl
contains-delete_func (x ∷ xs) del a = ground (arith, contains-delete_func xs del a)

pub All-contains {ℓ} :
    (P : ℕ → Type ℓ) (xs : List ℕ) (a : ℕ) → All P xs → contains xs a ≡ true → P a
All-contains P [] a h m = absurd (cc)
All-contains P (x ∷ xs) a h m = ground (arith, All-contains P xs a h.1, h.0)

pub contains-All {ℓ} :
    (P : ℕ → Type ℓ) (xs : List ℕ) → ((a : ℕ) → contains xs a ≡ true → P a) → All P xs
contains-All P [] h = tt
contains-All P (x ∷ xs) h =
    (h x (rw (==_refl x) refl), contains-All P xs (λ a m. h a (ground (arith, m))))

-- No element twice.
abbrev pub Distinct : List ℕ → Type 0
Distinct [] = Unit
Distinct (x ∷ xs) = (contains xs x ≡ false) × Distinct xs

pub Distinct-append_one :
    (xs : List ℕ) (a : ℕ) → Distinct xs → contains xs a ≡ false → Distinct (xs ++ a ∷ [])
Distinct-append_one [] a h m = ground arith
Distinct-append_one (x ∷ xs) a h m =
    ground (arith, Distinct-append_one xs a h.1, contains-append xs (a ∷ []) x)

pub Distinct-delete_func :
    (xs : List ℕ) (del : ℕ → Bool) → Distinct xs → Distinct (delete_func xs del)
Distinct-delete_func [] del h = tt
Distinct-delete_func (x ∷ xs) del h =
    ground (arith, Distinct-delete_func xs del h.1, contains-delete_func xs del x)
