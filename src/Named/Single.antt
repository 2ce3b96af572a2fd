-- ===== src/Named/Single.antt =====
-- In single-select mode the checked values share one name.
use jaws.Base.{
  All, subst, ℕ, List, [], ◌∷◌, ◌++◌, Bool, true, false, not, ◌&&◌, ◌||◌, ◌≡◌, refl, sym, ◌∙◌,
  arith, Bool-cases, inl, inr,
}
use jaws.Strconv.{Text}
use jaws.Named.{
  NamedBool, BoolArray, set_matching, deselect_loop, deselect_others, set_changed, jaws_set,
  bool_jaws_set, bool_set, set_at, get, add, is_member,
}
use jaws.Bytes.{text_eq}
use jaws.Named.Selection.{text_eq→eq}

-- Every checked value has the name.
unfoldable pub only : Text → List NamedBool → Bool
only name [] = true
only name (nb ∷ nbs) = (not nb.checked || text_eq nb.name name) && only name nbs

-- Every checked value has the name that Get returns.
abbrev pub IsSingle : BoolArray → Type 0
IsSingle nba = only (get nba.values) nba.values ≡ true

-- One name for all checked values is the name that Get returns.
only-get : (name : Text) (nbs : List NamedBool) → only name nbs ≡ true → only (get nbs) nbs ≡ true
unfolding only get
only-get name [] h = refl
only-get name (nb ∷ nbs) h = elim (Bool-cases nb.checked) [
  | inl c ↦
      let e = text_eq→eq nb.name name (ground (arith, h, c)) in
      let g : get (nb ∷ nbs) ≡ name = rw c e in subst (λ n. only n (nb ∷ nbs) ≡ true) (sym g) h
  | inr c ↦
      let g : get (nb ∷ nbs) ≡ get nbs = rw c refl in
      subst (λ n. only n (nb ∷ nbs) ≡ true) (sym g)
        (ground (arith, c, only-get name nbs (ground (arith, h))))
]

only-deselect_loop :
    (name : Text) (nbs : List NamedBool) → only name (deselect_loop name nbs).0 ≡ true
unfolding only deselect_loop
only-deselect_loop name [] = refl
only-deselect_loop name (nb ∷ nbs) = ground (arith, only-deselect_loop name nbs)

only-set_matching :
    (name k : Text) (nbs : List NamedBool)
    → only k nbs ≡ true
    → only k (set_matching name false nbs).1 ≡ true
unfolding only set_matching
only-set_matching name k [] h = refl
only-set_matching name k (nb ∷ nbs) h = ground (arith, h, only-set_matching name k nbs)

only-set_at :
    (identity : ℕ) (k : Text) (nbs : List NamedBool)
    → only k nbs ≡ true
    → only k (set_at identity false nbs).1 ≡ true
unfolding only set_at
only-set_at identity k [] h = refl
only-set_at identity k (nb ∷ nbs) h = ground (arith, h, only-set_at identity k nbs)

only-append :
    (k : Text) (nbs : List NamedBool) (nb : NamedBool)
    → nb.checked ≡ false
    → only k (nbs ++ nb ∷ []) ≡ only k nbs
unfolding only
only-append k [] nb h = ground (arith, h)
only-append k (x ∷ xs) nb h = ground (arith, only-append k xs nb h)

-- What the application and the browser do with an array.
pub data Op : Type 0 where
  adds : ℕ → Text → Text → Op
  sets : Text → Bool → Op
  selects : Text → Op
  toggles : ℕ → Bool → Op
  sets_value : ℕ → Bool → Op

-- Bool.Set does not deselect the other values, so that with it a value may only be unchecked.
abbrev pub IsOrderly : Op → Type 0
IsOrderly (sets_value identity checked) = checked ≡ false
IsOrderly _ = Unit

abbrev pub apply : BoolArray → Op → BoolArray
apply nba (adds identity name html) = add nba identity name html
apply nba (sets name state) = (set_changed nba name state).0
apply nba (selects name) = (jaws_set nba name).0
apply nba (toggles identity checked) = (bool_jaws_set nba identity checked).0
apply nba (sets_value identity checked) = bool_set nba identity checked

abbrev pub apply_all : BoolArray → List Op → BoolArray
apply_all nba [] = nba
apply_all nba (o ∷ os) = apply_all (apply nba o) os

set_changed-IsSingle :
    (nba : BoolArray) (name : Text) (state : Bool)
    → nba.multi ≡ false
    → IsSingle nba
    → IsSingle (set_changed nba name state).0
unfolding set_changed deselect_others
set_changed-IsSingle nba name state m v =
    let first = set_matching name state nba.values in
    elim (Bool-cases (state || not first.0)) [
      | inl d ↦ rw (d, m) (only-get name _ (only-deselect_loop name first.1))
      | inr d ↦
          let off : state ≡ false = ground (arith, d) in
          rw (d, off)
            (only-get (get nba.values) _ (only-set_matching name (get nba.values) nba.values v))
    ]

bool_jaws_set-IsSingle :
    (nba : BoolArray) (identity : ℕ) (checked : Bool)
    → nba.multi ≡ false
    → IsSingle nba
    → IsSingle (bool_jaws_set nba identity checked).0
unfolding bool_jaws_set
bool_jaws_set-IsSingle nba identity checked m v =
    elim (Bool-cases (is_member identity nba.values)) [
      | inr e ↦ rw e v
      | inl e ↦ rw e (elim (Bool-cases checked) [
        | inl c ↦
            rw (c, m)
              (only-get (set_at identity true nba.values).0 _ (
                only-deselect_loop (set_at identity true nba.values).0
                  (set_at identity true nba.values).1))
        | inr c ↦
            rw c (only-get (get nba.values) _ (only-set_at identity (get nba.values) nba.values v))
      ])
    ]

multi-apply : (nba : BoolArray) (o : Op) → (apply nba o).multi ≡ nba.multi
unfolding add set_changed jaws_set bool_jaws_set bool_set
multi-apply nba (adds identity name html) = refl
multi-apply nba (sets name state) = refl
multi-apply nba (selects name) = refl
multi-apply nba (toggles identity checked) = ground arith
multi-apply nba (sets_value identity checked) = refl

apply-IsSingle :
    (nba : BoolArray) (o : Op)
    → nba.multi ≡ false
    → IsOrderly o
    → IsSingle nba
    → IsSingle (apply nba o)
unfolding add jaws_set bool_set
apply-IsSingle nba (adds identity name html) m k v =
    only-get (get nba.values) _ (only-append (get nba.values) nba.values _ refl ∙ v)
apply-IsSingle nba (sets name state) m k v = set_changed-IsSingle nba name state m v
apply-IsSingle nba (selects name) m k v = set_changed-IsSingle nba name true m v
apply-IsSingle nba (toggles identity checked) m k v =
    bool_jaws_set-IsSingle nba identity checked m v
apply-IsSingle nba (sets_value identity checked) m k v =
    rw k (only-get (get nba.values) _ (only-set_at identity (get nba.values) nba.values v))

-- In single-select mode every history of Add, Set and JawsSet of the array, of JawsSet of its values,
-- and of Set of its values to unchecked, keeps all checked values under one name, the one that Get
-- returns. (Set of a value to checked, which leaves the other values as they are, is excluded.)
pub apply_all-IsSingle :
    (nba : BoolArray) (os : List Op)
    → nba.multi ≡ false
    → All IsOrderly os
    → IsSingle nba
    → IsSingle (apply_all nba os)
apply_all-IsSingle nba [] m k v = v
apply_all-IsSingle nba (o ∷ os) m k v =
    apply_all-IsSingle (apply nba o) os (multi-apply nba o ∙ m) k.1 (apply-IsSingle nba o m k.0 v)
