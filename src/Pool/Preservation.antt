-- ===== src/Pool/Preservation.antt =====
-- The operations of the lifecycle keep the registry sound.
use jaws.Base.{
  subst, ◌-◌, ℕ, ◌<◌, Option, none, some, true, not, ◌&&◌, ◌==◌, ◌≡◌, refl, sym, ap, ◌∙◌, arith,
  Bool-cases, inl, inr, ◌⊎◌,
}
use jaws.Request.{Request, ReqState, Cause, registered, state_eq, update}
use jaws.Pool.{
  Jaws, log_cause, cancel_locked, remove_pending, finish, is_current, is_none, retire_cancel,
  retire, release_buffers, recycle, release_retired_request_key,
}
use jaws.Pool.Soundness.{IsCore, IsSound, SameCore, touch-IsCore, finish-IsCore}

-- A key is free, reserved or leads to a Request.
pub entry_cases :
    (o : Option (Option ℕ)) → (o ≡ none) ⊎ ((o ≡ some none) ⊎ ((r : ℕ) × o ≡ some (some r)))
entry_cases none = inl refl
entry_cases (some none) = inr (inl refl)
entry_cases (some (some r)) = inr (inr (r, refl))

-- The same Request in the same state.
pub record Unmoved (rq old : Request) : Type 0 where
  pub core : SameCore rq old
  pub state : rq.state ≡ old.state

pub Unmoved-refl : (rq : Request) → Unmoved rq rq
Unmoved-refl rq = record { core = record { identity = refl; key = refl; ip = refl }; state = refl }

-- `ctx_err` is none of the registry's business.
cancelled : (rq : Request) (c : Option Cause) → Unmoved (record rq { ctx_err = c }) rq
cancelled rq c = record { core = record { identity = refl; key = refl; ip = refl }; state = refl }

pub cancel_locked-Unmoved :
    (rq : Request) (err : Option Cause) → Unmoved (cancel_locked rq err).0 rq
unfolding cancel_locked
cancel_locked-Unmoved rq err = elim (Bool-cases (not (rq.jaws_key == 0) && is_none rq.ctx_err)) [
  | inl e ↦ rw e (cancelled rq _)
  | inr e ↦ rw e (Unmoved-refl rq)
]

pub retire_cancel-Unmoved :
    (rq : Request) (err : Option Cause) → Unmoved (retire_cancel rq err).0 rq
unfolding retire_cancel
retire_cancel-Unmoved rq (some c) = cancel_locked-Unmoved rq (some c)
retire_cancel-Unmoved rq none = elim (Bool-cases (is_none rq.ctx_err)) [
  | inl e ↦ rw e (cancelled rq _)
  | inr e ↦ rw e (Unmoved-refl rq)
]

-- A current Request is registered.
pub is_current-registered :
    (jw : Jaws) (r : ℕ)
    → IsSound jw
    → is_current jw r ≡ true
    → (registered (jw.heap r).state ≡ true) × (r < jw.next_request)
is_current-registered jw r v h =
    let e = v.entries (jw.heap r).jaws_key r in (ground (arith, e, h), ground (arith, e, h))

pub finish-IsSound :
    (jw : Jaws) (r : ℕ) (rq : Request) (now : ℕ)
    → IsSound jw
    → is_current jw r ≡ true
    → SameCore rq (jw.heap r)
    → IsSound (finish jw rq now)
unfolding finish
finish-IsSound jw r rq now v h same =
    let reg = is_current-registered jw r v h in
    let after = record rq { session = none; state = ReqState.finished } in
    let at = same.identity ∙ v.named r in
    subst
      (λ i.
        IsCore (update jw.heap i after) jw.next_request (update jw.requests rq.jaws_key (some none))
          (jw.request_count - 1) (remove_pending jw.pending rq))
      (sym at)
      (finish-IsCore v r after (record { identity = same.identity; key = same.key; ip = same.ip })
        reg.0 reg.1 refl refl)

pub log_cause-IsSound : (jw : Jaws) (c : Option Cause) → IsSound jw → IsSound (log_cause jw c)
unfolding log_cause
log_cause-IsSound jw none v = v
log_cause-IsSound jw (some c) v = v

pub retire-IsSound :
    (jw : Jaws) (r : ℕ) (err : Option Cause) (now : ℕ)
    → IsSound jw
    → IsSound (retire jw r err now).0
unfolding retire
retire-IsSound jw r err now v =
    elim (Bool-cases (is_current jw r && not (state_eq (jw.heap r).state ReqState.running))) [
      | inl e ↦ rw e (
          finish-IsSound jw r (retire_cancel (jw.heap r) err).0 now v (ground (arith, e))
            (retire_cancel-Unmoved (jw.heap r) err).core)
      | inr e ↦ rw e v
    ]

-- A change of a Request that the registry does not read.
pub touch-IsSound :
    (jw : Jaws) (r : ℕ) (rq : Request)
    → IsSound jw
    → SameCore rq (jw.heap r)
    → registered rq.state ≡ registered (jw.heap r).state
    → state_eq rq.state ReqState.pending ≡ state_eq (jw.heap r).state ReqState.pending
    → IsSound (record jw { heap = update jw.heap r rq })
touch-IsSound jw r rq v same reg pend = touch-IsCore v r rq same reg pend

pub Unmoved-IsSound :
    (jw : Jaws) (r : ℕ) (rq : Request)
    → IsSound jw
    → Unmoved rq (jw.heap r)
    → IsSound (record jw { heap = update jw.heap r rq })
Unmoved-IsSound jw r rq v u =
    touch-IsSound jw r rq v u.core (ap registered u.state)
      (ap (λ s. state_eq s ReqState.pending) u.state)

pub released : (rq : Request) → Unmoved (release_buffers rq) rq
unfolding release_buffers
released rq = record { core = record { identity = refl; key = refl; ip = refl }; state = refl }

pub recycle-IsSound :
    (jw : Jaws) (r : ℕ) (err : Option Cause) (now : ℕ)
    → IsSound jw
    → IsSound (recycle jw r err now).0
unfolding recycle
recycle-IsSound jw r err now v = elim (Bool-cases (is_current jw r)) [
  | inl e ↦ rw e (
      let rq = (cancel_locked (jw.heap r) err).0 in
      let done = finish jw rq now in
      Unmoved-IsSound done r (release_buffers (done.heap r))
        (finish-IsSound jw r rq now v e (cancel_locked-Unmoved (jw.heap r) err).core)
        (released (done.heap r)))
  | inr e ↦ rw e v
]

pub release_retired_request_key-IsSound :
    (jw : Jaws) (key : ℕ) → IsSound jw → IsSound (release_retired_request_key jw key)
unfolding release_retired_request_key
release_retired_request_key-IsSound jw key v = elim (entry_cases (jw.requests key)) [
  | inl e ↦ rw (release_retired_request_key, e) v
  | inr (inl e) ↦
      rw (release_retired_request_key, e)
        (record {
          named = v.named;
          keyed = v.keyed;
          waiting = v.waiting;
          once = v.once;
          counted = v.counted;
          entries = λ k r. ground (arith, v.entries k r, e);
        })
  | inr (inr (r, e)) ↦ rw (release_retired_request_key, e) v
]
