-- ===== src/Pool/Lifecycle.antt =====
-- The claim, the service and the end of a Request, the maintenance pass and Close keep the registry
-- sound.
use jaws.Base.{
  ℕ, List, [], ◌∷◌, Option, none, some, true, not, ◌&&◌, ◌==◌, ◌≡◌, refl, sym, ap, ◌∙◌, arith,
  Bool-cases, Option-cases, inl, inr,
}
use jaws.Addr.{Addr}
use jaws.Request.{Request, ReqState, Cause, registered, state_eq, update}
use jaws.Pool.{
  Jaws, advance_last_write_seconds, log_cause, cancel_locked, is_entry, is_none, positive32, sub32,
}
use jaws.Pool.Service.{
  cancel_if_current, mark_written, claim, use_request, start_serve, cancel, stop_serve, expire,
  maintain_one, maintain, maintenance, close_one, close_all, close_sessions, close,
}
use jaws.Pool.Eviction.{idle}
use jaws.Pool.Soundness.{IsSound, SameCore, leave-IsCore}
use jaws.Pool.Preservation.{
  Unmoved, Unmoved-refl, entry_cases, cancel_locked-Unmoved, Unmoved-IsSound, touch-IsSound,
  retire-IsSound, recycle-IsSound, log_cause-IsSound,
}

pub record IsClaim (rq old : Request) : Type 0 where
  pub core : SameCore rq old
  pub before : old.state ≡ ReqState.pending
  pub after : rq.state ≡ ReqState.claimed
  pub live : old.ctx_err ≡ none

pub advanced : (rq : Request) (seconds : ℕ) → Unmoved (advance_last_write_seconds rq seconds) rq
unfolding advance_last_write_seconds
advanced rq seconds = elim (Bool-cases (positive32 (sub32 seconds rq.last_write_seconds))) [
  | inl e ↦ rw e (record { core = record { identity = refl; key = refl; ip = refl }; state = refl })
  | inr e ↦ rw e (Unmoved-refl rq)
]

is_pending : (s : ReqState) → state_eq s ReqState.pending ≡ true → s ≡ ReqState.pending
is_pending ReqState.pending h = refl
is_pending ReqState.unclaimable h = ground (arith, h)
is_pending ReqState.claimed h = ground (arith, h)
is_pending ReqState.running h = ground (arith, h)
is_pending ReqState.finished h = ground (arith, h)

-- A claim that succeeds is of a pending Request, which it leaves claimed.
pub claim-IsClaim :
    (rq : Request) (ip : Addr) (seconds : ℕ)
    → (claim rq ip seconds).1 ≡ none
    → IsClaim (claim rq ip seconds).0 rq
unfolding claim
claim-IsClaim rq ip seconds h = elim (Bool-cases (state_eq rq.state ReqState.pending)) [
  | inr p ↦ absurd (ground (arith, h, p))
  | inl p ↦ elim (Option-cases rq.ctx_err) [
    | inl e ↦ record {
      core = record {
        identity = ground (arith, h, e);
        key = ground (arith, h, e);
        ip = ground (arith, h, e);
      };
      before = is_pending rq.state p;
      after = ground (arith, h, e, p);
      live = e;
    }
    | inr (c, e) ↦ absurd (ground (arith, h, e, p))
  ]
]

pub start_serve-IsSound : (jw : Jaws) (r : ℕ) → IsSound jw → IsSound (start_serve jw r).0
unfolding start_serve
start_serve-IsSound jw r v =
    elim (Bool-cases (
      not jw.closed
      && is_entry (jw.requests (jw.heap r).jaws_key) r
      && is_none (jw.heap r).ctx_err
      && state_eq (jw.heap r).state ReqState.claimed)) [
        | inl e ↦ rw e (
            touch-IsSound jw r _ v (record { identity = refl; key = refl; ip = refl })
              (ground (arith, e)) (ground (arith, e)))
        | inr e ↦ rw e v
      ]

pub cancel-IsSound :
    (jw : Jaws) (r : ℕ) (err : Option Cause) → IsSound jw → IsSound (cancel jw r err)
unfolding cancel
cancel-IsSound jw r err v =
    let (rq, cause) = cancel_locked (jw.heap r) err in
    log_cause-IsSound _ (cancel_locked (jw.heap r) err).1 (
      Unmoved-IsSound jw r (cancel_locked (jw.heap r) err).0 v
        (cancel_locked-Unmoved (jw.heap r) err))

pub cancel_if_current-IsSound :
    (jw : Jaws) (key r : ℕ) (err : Option Cause)
    → IsSound jw
    → IsSound (cancel_if_current jw key r err)
unfolding cancel_if_current
cancel_if_current-IsSound jw key r err v = elim (Bool-cases (is_entry (jw.requests key) r)) [
  | inl e ↦ rw (cancel_if_current, e) (cancel-IsSound jw r err v)
  | inr e ↦ rw (cancel_if_current, e) v
]

pub mark_written-IsSound : (jw : Jaws) (r : ℕ) → IsSound jw → IsSound (mark_written jw r)
unfolding mark_written
mark_written-IsSound jw r v = Unmoved-IsSound jw r _ v (advanced (jw.heap r) jw.runtime_seconds)

pub stop_serve-IsSound : (jw : Jaws) (r now : ℕ) → IsSound jw → IsSound (stop_serve jw r now)
unfolding stop_serve
stop_serve-IsSound jw r now v =
    recycle-IsSound (cancel jw r none) r none now (cancel-IsSound jw r none v)

pub expire-Unmoved : (rq : Request) (seconds timeout : ℕ) → Unmoved (expire rq seconds timeout).0 rq
unfolding expire
expire-Unmoved rq seconds timeout = elim (Bool-cases (state_eq rq.state ReqState.running)) [
  | inl e ↦ rw e (Unmoved-refl rq)
  | inr e ↦ rw e (elim (Bool-cases (not (is_none rq.ctx_err))) [
    | inl c ↦ rw c (Unmoved-refl rq)
    | inr c ↦ rw c (elim (Bool-cases (idle timeout seconds rq.last_write_seconds)) [
      | inl i ↦ rw i (cancel_locked-Unmoved rq (some Cause.no_web_socket_request))
      | inr i ↦ rw i (Unmoved-refl rq)
    ])
  ])
]

pub maintain_one-IsSound :
    (jw : Jaws) (key timeout now : ℕ) → IsSound jw → IsSound (maintain_one jw key timeout now)
unfolding maintain_one
maintain_one-IsSound jw key timeout now v = elim (entry_cases (jw.requests key)) [
  | inl e ↦ rw (maintain_one, e) v
  | inr (inl e) ↦ rw (maintain_one, e) v
  | inr (inr (r, e)) ↦
      rw (maintain_one, e)
        (let out = expire (jw.heap r) jw.runtime_seconds timeout in
          let kept = log_cause (record jw { heap = update jw.heap r out.0 }) out.2 in
          let sound : IsSound kept = log_cause-IsSound _ out.2 (
            Unmoved-IsSound jw r out.0 v (expire-Unmoved (jw.heap r) jw.runtime_seconds timeout)) in
          elim (Bool-cases out.1) [
            | inl x ↦ rw x (retire-IsSound kept r none now sound)
            | inr x ↦ rw x sound
          ])
]

maintain-IsSound :
    (jw : Jaws) (keys : List ℕ) (timeout now : ℕ)
    → IsSound jw
    → IsSound (maintain jw keys timeout now)
unfolding maintain
maintain-IsSound jw [] timeout now v = v
maintain-IsSound jw (k ∷ ks) timeout now v =
    maintain-IsSound (maintain_one jw k timeout now) ks timeout now
      (maintain_one-IsSound jw k timeout now v)

pub maintenance-IsSound :
    (jw : Jaws) (keys : List ℕ) (timeout now : ℕ)
    → IsSound jw
    → IsSound (maintenance jw keys timeout now)
unfolding maintenance
maintenance-IsSound jw keys timeout now v = maintain-IsSound jw keys timeout now v

pub use_request-IsSound :
    (jw : Jaws) (key : ℕ) (ip : Addr) → IsSound jw → IsSound (use_request jw key ip).0
unfolding use_request
use_request-IsSound jw key ip v = elim (Bool-cases (key == 0)) [
  | inl z ↦ rw (use_request, z) v
  | inr z ↦ elim (entry_cases (jw.requests key)) [
    | inl e ↦ rw (use_request, z, e) v
    | inr (inl e) ↦ rw (use_request, z, e) v
    | inr (inr (r, e)) ↦
        rw (use_request, z, e)
          (elim (Option-cases (claim (jw.heap r) ip jw.runtime_seconds).1) [
            | inr (c, f) ↦ rw f (log_cause-IsSound jw (some c) v)
            | inl f ↦
                let c = claim-IsClaim (jw.heap r) ip jw.runtime_seconds f in
                rw f (
                  leave-IsCore v r (claim (jw.heap r) ip jw.runtime_seconds).0 c.core
                    (ap registered c.after ∙ sym (ap registered c.before))
                    (ap (λ s. state_eq s ReqState.pending) c.after))
          ])
  ]
]

pub close_one-IsSound : (jw : Jaws) (key now : ℕ) → IsSound jw → IsSound (close_one jw key now)
unfolding close_one
close_one-IsSound jw key now v = elim (entry_cases (jw.requests key)) [
  | inl e ↦ rw (close_one, e) v
  | inr (inl e) ↦ rw (close_one, e) v
  | inr (inr (r, e)) ↦
      rw (close_one, e)
        (elim (Bool-cases (state_eq (jw.heap r).state ReqState.running)) [
          | inr s ↦ rw s (retire-IsSound jw r none now v)
          | inl s ↦
              rw s (
                touch-IsSound jw r _ v (record { identity = refl; key = refl; ip = refl }) refl
                  refl)
        ])
]

close_all-IsSound :
    (jw : Jaws) (keys : List ℕ) (now : ℕ) → IsSound jw → IsSound (close_all jw keys now)
unfolding close_all
close_all-IsSound jw [] now v = v
close_all-IsSound jw (k ∷ ks) now v =
    close_all-IsSound (close_one jw k now) ks now (close_one-IsSound jw k now v)

pub close-IsSound : (jw : Jaws) (keys : List ℕ) (now : ℕ) → IsSound jw → IsSound (close jw keys now)
unfolding close close_sessions
close-IsSound jw keys now v = elim (Bool-cases jw.closed) [
  | inl c ↦ rw (close, c) v
  | inr c ↦
      rw (close, close_sessions, c) (close_all-IsSound (record jw { closed = true }) keys now v)
]
