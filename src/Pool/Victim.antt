-- ===== src/Pool/Victim.antt =====
-- Which pending Request is retired for a new one.
use jaws.Base.{ℕ, List, [], ◌∷◌, Option, none, some, false, All, if◌then◌else◌, ◌≡◌}
use jaws.Addr.{Addr}
use jaws.Pool.{Jaws, sub32, less32}
use jaws.Pool.Eviction.{idle}

module _ (written : ℕ → ℕ) (window now : ℕ) where
  -- The oldest idle Request.
  unfoldable pub first_idle : List ℕ → Option ℕ
  first_idle [] = none
  first_idle (r ∷ rs) = if idle window now (written r) then some r else first_idle rs

  -- No Request of the list was written longer ago than `v`.
  abbrev pub IsStalest : ℕ → List ℕ → Type 0
  IsStalest v rs = All (λ r. less32 (sub32 now (written v)) (sub32 now (written r)) ≡ false) rs

abbrev pub last_written : Jaws → ℕ → ℕ
last_written jw r = (jw.heap r).last_write_seconds
