-- ===== src/Pool/Arrival.antt =====
-- NewRequest, with the eviction before it, keeps the registry sound.
use jaws.Base.{
  subst, ℕ, zero, suc, ◌+◌, List, [], ◌∷◌, ◌++◌, Option, none, some, true, false, leb, ◌==◌, length,
  ◌≡◌, ◌≢◌, refl, sym, ap, ◌∙◌, arith, Bool-cases, Option-cases, inl, inr,
}
use jaws.Addr.{Addr}
use jaws.Request.{Request, ReqState, Cause, update}
use jaws.Pool.{update_addr, Jaws, Session, log_cause, retire}
use jaws.Pool.Operations.{fresh_key, blank, attach, enroll, make_room, new_request}
use jaws.Pool.Eviction.{eviction_victim, limit_pending}
use jaws.Pool.Sessions.{get_session}
use jaws.Pool.Soundness.{IsCore, IsSound}
use jaws.Pool.Enrolment.{enroll-IsCore, unclaimable-IsCore}
use jaws.Pool.Preservation.{Unmoved, Unmoved-refl, retire-IsSound, log_cause-IsSound}

-- The state after an eviction.
abbrev pub evict : Jaws → ℕ → ℕ → Jaws
evict jw r now =
    log_cause (retire jw r (some Cause.too_many_pending_requests) now).0
      (retire jw r (some Cause.too_many_pending_requests) now).1

pub evict-IsSound : (jw : Jaws) (r now : ℕ) → IsSound jw → IsSound (evict jw r now)
evict-IsSound jw r now v =
    log_cause-IsSound _ (retire jw r (some Cause.too_many_pending_requests) now).1
      (retire-IsSound jw r (some Cause.too_many_pending_requests) now v)

limit_pending-IsSound :
    (fuel : ℕ) (jw : Jaws) (ip : Addr) (now : ℕ)
    → IsSound jw
    → IsSound (limit_pending fuel jw ip now)
unfolding limit_pending
limit_pending-IsSound zero jw ip now v = v
limit_pending-IsSound (suc fuel) jw ip now v =
    elim (Bool-cases (leb jw.max_pending_requests_per_ip (length (jw.pending ip)))) [
      | inr l ↦ rw (limit_pending, l) v
      | inl l ↦
          rw (limit_pending, l)
            (elim (Option-cases (eviction_victim jw ip jw.runtime_seconds)) [
              | inl e ↦ rw e v
              | inr (r, e) ↦ rw e (
                  let logged = evict jw r now in
                  let sound = evict-IsSound jw r now v in
                  elim (Bool-cases (leb (length (jw.pending ip)) (length (logged.pending ip)))) [
                    | inl s ↦ rw s sound
                    | inr s ↦ rw s (limit_pending-IsSound fuel logged ip now sound)
                  ])
            ])
    ]

pub make_room-IsSound :
    (jw : Jaws) (ip : Addr) (now : ℕ) → IsSound jw → IsSound (make_room jw ip now)
make_room-IsSound jw ip now v = elim (Bool-cases (jw.max_pending_requests_per_ip == 0)) [
  | inl e ↦ rw e v
  | inr e ↦ rw e (limit_pending-IsSound (length (jw.pending ip)) jw ip now v)
]

-- A key from the random source is usable.
fresh_key_lem :
    (jw : Jaws) (keys : List ℕ) (k : ℕ)
    → fresh_key jw keys ≡ some k
    → (k ≢ 0) × (jw.requests k ≡ none)
unfolding fresh_key
fresh_key_lem jw [] k h = absurd (ground (arith, h))
fresh_key_lem jw (x ∷ xs) k h = elim (Option-cases (jw.requests x)) [
  | inl e ↦ elim (Bool-cases (x == 0)) [
    | inl z ↦ fresh_key_lem jw xs k (ground (arith, h, z))
    | inr z ↦ let same : x ≡ k = ground (arith, h, e, z) in rw⁻¹ same (ground (arith, z), e)
  ]
  | inr (o, e) ↦ fresh_key_lem jw xs k (ground (arith, h, e))
]

-- The Session does not touch what the registry reads of a new Request.
pub attach-Unmoved :
    (jw : Jaws) (rq : Request) (ids : List ℕ) (now : ℕ) → Unmoved (attach jw rq ids now).0 rq
unfolding attach
attach-Unmoved jw rq ids now = elim (Option-cases (get_session jw ids rq.remote_ip now)) [
  | inl e ↦ rw (attach, e) (Unmoved-refl rq)
  | inr (sid, e) ↦
      rw (attach, e)
        (record { core = record { identity = refl; key = refl; ip = refl }; state = refl })
]

enroll-IsSound :
    (jw : Jaws) (rq : Request) (sessions : ℕ → Session)
    → IsSound jw
    → rq.identity ≡ jw.next_request
    → rq.jaws_key ≢ 0
    → jw.requests rq.jaws_key ≡ none
    → rq.state ≡ ReqState.pending
    → IsSound (enroll jw rq sessions)
unfolding enroll
enroll-IsSound jw rq sessions v new keyed free st =
    subst
      (λ i.
        IsCore (update jw.heap i rq) (suc jw.next_request)
          (update jw.requests rq.jaws_key (some (some i))) (jw.request_count + 1)
          (update_addr jw.pending rq.remote_ip (jw.pending rq.remote_ip ++ i ∷ [])))
      (sym new) (enroll-IsCore v rq new keyed free st)

-- What newRequest leaves; a failing random source is a panic.
abbrev pub or_same : Jaws → Option (Jaws × ℕ) → Jaws
or_same jw none = jw
or_same jw (some (after, r)) = after

late :
    (jw : Jaws) (ip : Addr) (ids keys : List ℕ) (seconds now : ℕ)
    → IsSound jw
    → jw.closed ≡ true
    → IsSound (or_same jw (new_request jw ip ids keys seconds now))
unfolding new_request
late jw ip ids keys seconds now v c =
    let fresh = record jw { runtime_seconds = seconds } in
    elim (Option-cases (fresh_key fresh keys)) [
      | inl e ↦ rw (new_request, c, e) v
      | inr (key, e) ↦
          rw (new_request, c, e)
            (unclaimable-IsCore v _ refl (fresh_key_lem fresh keys key e).0 refl)
    ]

timely :
    (jw : Jaws) (ip : Addr) (ids keys : List ℕ) (seconds now : ℕ)
    → IsSound jw
    → jw.closed ≡ false
    → IsSound (or_same jw (new_request jw ip ids keys seconds now))
unfolding new_request blank
timely jw ip ids keys seconds now v c =
    let roomy = make_room (record jw { runtime_seconds = seconds }) ip now in
    let sound : IsSound roomy =
      make_room-IsSound (record jw { runtime_seconds = seconds }) ip now v in
    elim (Option-cases (fresh_key roomy keys)) [
      | inl e ↦ rw (new_request, c, e) v
      | inr (key, e) ↦
          let usable = fresh_key_lem roomy keys key e in
          let u = attach-Unmoved roomy (blank roomy key ip ReqState.pending) ids now in
          let out = attach roomy (blank roomy key ip ReqState.pending) ids now in
          rw (new_request, c, e)
            (enroll-IsSound roomy out.0 out.1 sound u.core.identity
              (λ z. usable.0 (sym u.core.key ∙ z)) (ap roomy.requests u.core.key ∙ usable.1)
              u.state)
    ]

pub new_request-IsSound :
    (jw : Jaws) (ip : Addr) (ids keys : List ℕ) (seconds now : ℕ)
    → IsSound jw
    → IsSound (or_same jw (new_request jw ip ids keys seconds now))
new_request-IsSound jw ip ids keys seconds now v = elim (Bool-cases jw.closed) [
  | inl c ↦ late jw ip ids keys seconds now v c
  | inr c ↦ timely jw ip ids keys seconds now v c
]
