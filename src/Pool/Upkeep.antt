-- ===== src/Pool/Upkeep.antt =====
-- Service, cancellation and the maintenance pass only take Requests forward.
use jaws.Base.{
  ℕ, ◌≤◌, List, [], ◌∷◌, Option, none, true, not, ◌&&◌, ◌≡◌, refl, arith, Bool-cases, inl, inr,
}
use jaws.Request.{ReqState, Cause, state_eq, update}
use jaws.Pool.{Jaws, log_cause, cancel_locked, is_entry, is_none}
use jaws.Pool.Service.{
  cancel_if_current, mark_written, start_serve, cancel, stop_serve, expire, maintain_one, maintain,
  maintenance,
}
use jaws.Pool.Soundness.{IsSound}
use jaws.Pool.Preservation.{entry_cases, cancel_locked-Unmoved, log_cause-IsSound, Unmoved-IsSound}
use jaws.Pool.Lifecycle.{advanced, expire-Unmoved, maintain_one-IsSound, cancel-IsSound}
use jaws.Pool.Progress.{
  rank, Advances, Advances-refl, Advances-trans, log_cause-Advances, touch-Advances,
  retire-Advances, Unmoved-Advances, recycle-Advances,
}

from_claimed : (s : ReqState) → state_eq s ReqState.claimed ≡ true → rank s ≤ 2
unfolding rank
from_claimed ReqState.claimed h = omega arith
from_claimed ReqState.pending h = omega arith
from_claimed ReqState.running h = omega arith
from_claimed ReqState.unclaimable h = ground (arith, h)
from_claimed ReqState.finished h = ground (arith, h)

pub start_serve-Advances : (jw : Jaws) (r : ℕ) → Advances jw (start_serve jw r).0
unfolding start_serve rank
start_serve-Advances jw r =
    elim (Bool-cases (
      not jw.closed
      && is_entry (jw.requests (jw.heap r).jaws_key) r
      && is_none (jw.heap r).ctx_err
      && state_eq (jw.heap r).state ReqState.claimed)) [
        | inl e ↦
            rw (start_serve, e)
              (touch-Advances jw r _ (record {
                core = record { identity = refl; key = refl; ip = refl };
                forward = from_claimed (jw.heap r).state (ground (arith, e));
              }))
        | inr e ↦ rw (start_serve, e) (Advances-refl jw)
      ]

pub cancel-Advances : (jw : Jaws) (r : ℕ) (err : Option Cause) → Advances jw (cancel jw r err)
unfolding cancel
cancel-Advances jw r err =
    let out = cancel_locked (jw.heap r) err in
    Advances-trans (Unmoved-Advances jw r out.0 (cancel_locked-Unmoved (jw.heap r) err))
      (log_cause-Advances _ out.1)

pub cancel_if_current-Advances :
    (jw : Jaws) (key r : ℕ) (err : Option Cause) → Advances jw (cancel_if_current jw key r err)
unfolding cancel_if_current
cancel_if_current-Advances jw key r err = elim (Bool-cases (is_entry (jw.requests key) r)) [
  | inl e ↦ rw (cancel_if_current, e) (cancel-Advances jw r err)
  | inr e ↦ rw (cancel_if_current, e) (Advances-refl jw)
]

pub mark_written-Advances : (jw : Jaws) (r : ℕ) → Advances jw (mark_written jw r)
unfolding mark_written
mark_written-Advances jw r = Unmoved-Advances jw r _ (advanced (jw.heap r) jw.runtime_seconds)

pub stop_serve-Advances : (jw : Jaws) (r now : ℕ) → IsSound jw → Advances jw (stop_serve jw r now)
unfolding stop_serve
stop_serve-Advances jw r now v =
    Advances-trans (cancel-Advances jw r none)
      (recycle-Advances (cancel jw r none) r none now (cancel-IsSound jw r none v))

maintain_one-Advances :
    (jw : Jaws) (key timeout now : ℕ) → IsSound jw → Advances jw (maintain_one jw key timeout now)
unfolding maintain_one
maintain_one-Advances jw key timeout now v = elim (entry_cases (jw.requests key)) [
  | inl e ↦ rw (maintain_one, e) (Advances-refl jw)
  | inr (inl e) ↦ rw (maintain_one, e) (Advances-refl jw)
  | inr (inr (r, e)) ↦
      rw (maintain_one, e)
        (let out = expire (jw.heap r) jw.runtime_seconds timeout in
          let u = expire-Unmoved (jw.heap r) jw.runtime_seconds timeout in
          let kept = log_cause (record jw { heap = update jw.heap r out.0 }) out.2 in
          let sound : IsSound kept = log_cause-IsSound _ out.2 (Unmoved-IsSound jw r out.0 v u) in
          let there : Advances jw kept =
            Advances-trans (Unmoved-Advances jw r out.0 u) (log_cause-Advances _ out.2) in
          elim (Bool-cases out.1) [
            | inl x ↦ rw x (Advances-trans there (retire-Advances kept r none now sound))
            | inr x ↦ rw x there
          ])
]

maintain-Advances :
    (jw : Jaws) (keys : List ℕ) (timeout now : ℕ)
    → IsSound jw
    → Advances jw (maintain jw keys timeout now)
unfolding maintain
maintain-Advances jw [] timeout now v = Advances-refl jw
maintain-Advances jw (k ∷ ks) timeout now v =
    Advances-trans (maintain_one-Advances jw k timeout now v) (
      maintain-Advances (maintain_one jw k timeout now) ks timeout now
        (maintain_one-IsSound jw k timeout now v))

-- Two states that differ only in what `Advances` does not read.
pub maintenance-Advances :
    (jw : Jaws) (keys : List ℕ) (timeout now : ℕ)
    → IsSound jw
    → Advances jw (maintenance jw keys timeout now)
unfolding maintenance
maintenance-Advances jw keys timeout now v =
    let a = maintain-Advances jw keys timeout now v in
    record {
      allocated = a.allocated;
      shut = a.shut;
      later = a.later;
      limit = a.limit;
      fewer = a.fewer;
    }
