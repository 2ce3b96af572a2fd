-- ===== src/Elements/History.antt =====
-- Histories of registry operations, and what they leave.
use jaws.Base.{ℕ, List, [], ◌∷◌, Option, All}
use jaws.Strconv.{Text}
use jaws.Request.{Request, ElementRef, Tag}
use jaws.Elements.{
  new_element, tag_expanded, append_dirty_tags, delete_element, delete_elements, handle_remove,
}
use jaws.Elements.Collect.{make_update_list}
use jaws.Elements.Invariant.{IsConsistent, IsAllocated, IsTarget, new_element-IsConsistent}
use jaws.Elements.Tagging.{tag_expanded-IsConsistent}
use jaws.Elements.Deletion.{
  delete_element-IsConsistent, delete_elements-IsConsistent, handle_remove-IsConsistent,
}
use jaws.Elements.Updates.{append_dirty_tags-IsConsistent, make_update_list-IsConsistent}

-- What the application, the Serve loop and the browser ask of the registry of one Request.
pub data Op : Type 0 where
  creates : Option ℕ → Op
  tags : ElementRef → List Tag → Op
  dirties : List Tag → Op
  deletes : ElementRef → Op
  deletes_all : List ElementRef → Op
  reports_removal : ℕ → Text → Op
  updates : Op

abbrev pub apply : Request → Op → Request
apply rq (creates ui) = (new_element rq ui).0
apply rq (tags e ts) = tag_expanded rq e ts
apply rq (dirties ts) = append_dirty_tags rq ts
apply rq (deletes e) = delete_element rq e
apply rq (deletes_all es) = delete_elements rq es
apply rq (reports_removal c text) = handle_remove rq c text
apply rq updates = (make_update_list rq).0

-- A pointer that is handed in points to an Element that was allocated.
abbrev pub IsAllowed : Request → Op → Type 0
IsAllowed rq (creates ui) = Unit
IsAllowed rq (tags e ts) = IsAllocated rq e
IsAllowed rq (dirties ts) = All (IsTarget rq) ts
IsAllowed rq (deletes e) = Unit
IsAllowed rq (deletes_all es) = Unit
IsAllowed rq (reports_removal c text) = Unit
IsAllowed rq updates = Unit

apply-IsConsistent :
    {rq : Request} (o : Op) → IsAllowed rq o → IsConsistent rq → IsConsistent (apply rq o)
apply-IsConsistent (creates ui) a v = new_element-IsConsistent ui v
apply-IsConsistent (tags e ts) a v = tag_expanded-IsConsistent e ts a v
apply-IsConsistent (dirties ts) a v = append_dirty_tags-IsConsistent ts a v
apply-IsConsistent (deletes e) a v = delete_element-IsConsistent e v
apply-IsConsistent (deletes_all es) a v = delete_elements-IsConsistent es v
apply-IsConsistent (reports_removal c text) a v = handle_remove-IsConsistent c text v
apply-IsConsistent updates a v = make_update_list-IsConsistent v

abbrev pub run : Request → List Op → Request
run rq [] = rq
run rq (o ∷ os) = run (apply rq o) os

abbrev pub AreAllowed : Request → List Op → Type 0
AreAllowed rq [] = Unit
AreAllowed rq (o ∷ os) = IsAllowed rq o × AreAllowed (apply rq o) os

-- From a consistent registry, every history of operations that are handed pointers to allocated
-- Elements keeps the registry consistent: Jids ascend, tags and pending targets name registered live
-- Elements only, and while the buffers are held every Element not deleted is registered.
pub run-IsConsistent :
    (rq : Request) (os : List Op) → AreAllowed rq os → IsConsistent rq → IsConsistent (run rq os)
run-IsConsistent rq [] a v = v
run-IsConsistent rq (o ∷ os) a v = run-IsConsistent (apply rq o) os a.1 (apply-IsConsistent o a.0 v)
