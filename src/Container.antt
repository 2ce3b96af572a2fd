-- ===== src/Container.antt =====
-- lib/ui/containerstate.go: the reconciliation of the children of a container with those it is to show.
pub mod Contents
pub mod Partition
use jaws.Base.{
  ℕ, List, [], ◌∷◌, ◌++◌, map, Option, none, some, Bool, true, false, not, ◌&&◌, ◌==◌,
  if◌then◌else◌, delete_func,
}
use jaws.Request.{Request, update}
use jaws.Elements.{new_element}

-- A UI that is wanted as a child: nil, or a value with its identity and whether it is comparable and
-- equal to itself.
pub data Child : Type 0 where
  no_child : Child
  child : ℕ → Bool → Child

-- firstUnusableChild: the usable children, or the first that is not.
unfoldable pub usable_children : List Child → Option (List ℕ)
usable_children [] = some []
usable_children (no_child ∷ cs) = none
usable_children (child u false ∷ cs) = none
usable_children (child u true ∷ cs) = elim (usable_children cs) [
  | none ↦ none
  | some us ↦ some (u ∷ us)
]

-- The Elements that can be reused for a UI, oldest first.
abbrev pub Pool : Type 0
Pool = ℕ → List ℕ

abbrev pub is_ui : Option ℕ → ℕ → Bool
is_ui none u = false
is_ui (some v) u = v == u

abbrev pub shows : Request → ℕ → ℕ → Bool
shows rq u j = is_ui (rq.ui j) u

unfoldable pub pool_of : Request → List ℕ → Pool
pool_of rq contents u = delete_func contents (λ j. not (shows rq u j))

-- What the search for a live candidate takes from the pool: the deleted ones before it, the candidate,
-- and what is left.
pub record Taken : Type 0 where
  pub dead : List ℕ
  pub found : Option ℕ
  pub rest : List ℕ

unfoldable pub take_one : Bool → ℕ → List ℕ → Taken → Taken
take_one true j js t = record t { dead = j ∷ t.dead }
take_one false j js t = record { dead = []; found = some j; rest = js }

unfoldable pub take_live : (ℕ → Bool) → List ℕ → Taken
unfolding take_one
take_live deleted [] = record { dead = []; found = none; rest = [] }
take_live deleted (j ∷ js) = take_one (deleted j) j js (take_live deleted js)

-- The candidate, or a new Element, and the Elements to append.
unfoldable pub choose : Request → ℕ → Option ℕ → Request × ℕ × List ℕ
unfolding new_element
choose rq u (some j) = (rq, j, [])
choose rq u none = let (rq', j) = new_element rq (some u) in (rq', j, j ∷ [])

pub record Reconciled : Type 0 where
  pub request : Request
  pub contents : List ℕ
  pub to_append : List ℕ
  pub already_deleted : List ℕ
  pub pool : Pool

-- The loop over the wanted children.
unfoldable pub reconcile_loop : Request → Pool → List ℕ → Reconciled
unfolding take_live choose
reconcile_loop rq pool [] = record {
  request = rq;
  contents = [];
  to_append = [];
  already_deleted = [];
  pool = pool;
}
reconcile_loop rq pool (u ∷ us) =
    let t = take_live rq.deleted (pool u) in
    let (rq', j, new) = choose rq u t.found in
    let r = reconcile_loop rq' (update pool u t.rest) us in
    record r {
      contents = j ∷ r.contents;
      to_append = new ++ r.to_append;
      already_deleted = t.dead ++ r.already_deleted;
    }

-- The Elements that are left in the pool, in the order in which the map is walked.
unfoldable pub leftovers : Pool → List ℕ → List ℕ
leftovers pool [] = []
leftovers pool (u ∷ us) = pool u ++ leftovers pool us

pub record Reconciliation : Type 0 where
  pub request : Request
  pub contents : List ℕ
  pub to_append : List ℕ
  pub to_remove : List ℕ
  pub already_deleted : List ℕ
  pub old_order : List ℕ
  pub new_order : List ℕ

-- reconcile after the check of the children. `walk` is the order in which the pool is walked.
unfoldable pub reconcile_usable : Request → List ℕ → List ℕ → List ℕ → Reconciliation
unfolding pool_of reconcile_loop leftovers
reconcile_usable rq contents wants walk =
    let r = reconcile_loop rq (pool_of rq contents) wants in
    let left = leftovers r.pool walk in
    record {
      request = r.request;
      contents = r.contents;
      to_append = r.to_append;
      to_remove = delete_func left r.request.deleted;
      already_deleted = r.already_deleted ++ delete_func left (λ j. not (r.request.deleted j));
      old_order = contents;
      new_order = r.contents;
    }

-- reconcile. With an unusable child it cancels the Request and changes nothing else: the result is none.
unfoldable pub reconcile : Request → List ℕ → List Child → List ℕ → Option Reconciliation
unfolding usable_children reconcile_usable
reconcile rq contents wants walk = elim (usable_children wants) [
  | none ↦ none
  | some us ↦ some (reconcile_usable rq contents us walk)
]
