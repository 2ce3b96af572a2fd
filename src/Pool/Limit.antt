-- ===== src/Pool/Limit.antt =====
-- The limit on the pending Requests of an address.
use jaws.Base.{
  ℕ, zero, suc, ◌+◌, ◌≤◌, ◌<◌, List, [], ◌∷◌, Option, none, some, true, false, not, ◌&&◌, ◌||◌, leb,
  length, contains, ◌≡◌, ◌≢◌, refl, ap, ◌∙◌, arith, Bool-cases, Option-cases, inl, inr, ◌⊎◌,
  ==_refl,
}
use jaws.Addr.{Addr, addr_eq}
use jaws.Addr.Laws.{addr_eq→eq, addr_eq_refl}
use jaws.Request.{Request, ReqState, Cause, state_eq}
use jaws.Pool.{
  less32, update_addr, Jaws, log_cause, finish, is_current, is_none, retire, sub32, remove_pending,
  retire_cancel,
}
use jaws.Pool.Eviction.{idle, eviction_victim, victim_loop, limit_pending, spare_window}
use jaws.Pool.Soundness.{IsSound}
use jaws.Pool.Preservation.{retire_cancel-Unmoved}
use jaws.Pool.Arrival.{evict, evict-IsSound}
use jaws.Pool.Progress.{
  Advances, Advances-refl, Advances-trans, log_cause-Advances, length-erase-contains,
  retire-Advances,
}

-- A list that is not empty has a victim, and the victim is of the list.
pub victim_loop-contains :
    (written : ℕ → ℕ) (window now : ℕ) (best : Option ℕ) (elapsed : ℕ) (rs : List ℕ) (r : ℕ)
    → victim_loop written window now best elapsed rs ≡ some r
    → (contains rs r ≡ true) ⊎ (best ≡ some r)
unfolding victim_loop
victim_loop-contains written window now best elapsed [] r h = inr h
victim_loop-contains written window now best elapsed (x ∷ xs) r h =
    let age = sub32 now (written x) in
    let newer = is_none best || less32 elapsed age in
    elim (Bool-cases (idle window now (written x))) [
      | inl i ↦ inl (ground (arith, h, i, ==_refl r))
      | inr i ↦ elim (Bool-cases newer) [
        | inl n ↦
            elim (victim_loop-contains written window now (some x) age xs r
              (ground (arith, h, i, n))) [
                | inl c ↦ inl (ground (arith, c))
                | inr e ↦ inl (ground (arith, e, ==_refl r))
              ]
        | inr n ↦
            elim (victim_loop-contains written window now best elapsed xs r
              (ground (arith, h, i, n))) [ inl c ↦ inl (ground (arith, c)) | inr e ↦ inr e ]
      ]
    ]

victim_loop-some :
    (written : ℕ → ℕ) (window now r elapsed : ℕ) (rs : List ℕ)
    → victim_loop written window now (some r) elapsed rs ≢ none
unfolding victim_loop
victim_loop-some written window now r elapsed [] h = ground (arith, h)
victim_loop-some written window now r elapsed (x ∷ xs) h =
    let age = sub32 now (written x) in
    elim (Bool-cases (idle window now (written x))) [
      | inl i ↦ ground (arith, h, i)
      | inr i ↦ elim (Bool-cases (less32 elapsed age)) [
        | inl n ↦ victim_loop-some written window now x age xs (ground (arith, h, i, n))
        | inr n ↦ victim_loop-some written window now r elapsed xs (ground (arith, h, i, n))
      ]
    ]

victim_loop-first :
    (written : ℕ → ℕ) (window now : ℕ) (rs : List ℕ)
    → 0 < length rs
    → victim_loop written window now none 0 rs ≢ none
unfolding victim_loop
victim_loop-first written window now [] l h = ground (arith, l)
victim_loop-first written window now (x ∷ xs) l h =
    elim (Bool-cases (idle window now (written x))) [
      | inl i ↦ ground (arith, h, i)
      | inr i ↦
          victim_loop-some written window now x (sub32 now (written x)) xs (ground (arith, h, i))
    ]

-- The victim that is found in a list that is not empty.
eviction_victim-contains :
    (jw : Jaws) (ip : Addr) (now : ℕ)
    → 0 < length (jw.pending ip)
    → (r : ℕ) × (eviction_victim jw ip now ≡ some r) × (contains (jw.pending ip) r ≡ true)
unfolding eviction_victim
eviction_victim-contains jw ip now h = elim (Option-cases (eviction_victim jw ip now)) [
  | inl e ↦ absurd (
      victim_loop-first (λ r. (jw.heap r).last_write_seconds) (spare_window jw.maintenance_interval)
        now (jw.pending ip) h e)
  | inr (r, e) ↦
      elim (victim_loop-contains (λ r. (jw.heap r).last_write_seconds)
        (spare_window jw.maintenance_interval) now none 0 (jw.pending ip) r e) [
          | inl c ↦ (r, e, c)
          | inr n ↦ absurd (ground (arith, n))
        ]
]

length-remove_pending-contains :
    (m : Addr → List ℕ) (rq : Request) (ip : Addr)
    → addr_eq rq.remote_ip ip ≡ true
    → contains (m ip) rq.identity ≡ true
    → length (remove_pending m rq ip) + 1 ≡ length (m ip)
unfolding remove_pending update_addr
length-remove_pending-contains m rq ip a h =
    let e = addr_eq→eq rq.remote_ip ip a in
    rw e (rw (addr_eq_refl ip) (length-erase-contains rq.identity (m ip) h))

-- A pending Request that is retired leaves one place.
retire-pending :
    (jw : Jaws) (ip : Addr) (r : ℕ) (err : Option Cause) (now : ℕ)
    → IsSound jw
    → contains (jw.pending ip) r ≡ true
    → length ((retire jw r err now).0.pending ip) + 1 ≡ length (jw.pending ip)
unfolding retire finish remove_pending
retire-pending jw ip r err now v h =
    let w = v.waiting ip r in
    let e = v.entries (jw.heap r).jaws_key r in
    let cond : (is_current jw r && not (state_eq (jw.heap r).state ReqState.running)) ≡ true =
      ground (arith, w, e, h, v.keyed r) in
    let same = (retire_cancel-Unmoved (jw.heap r) err).core in
    rw (retire, finish, cond)
      (length-remove_pending-contains jw.pending (retire_cancel (jw.heap r) err).0 ip
        (ap (λ a. addr_eq a ip) same.ip ∙ ground (arith, w, h))
        (ap (contains (jw.pending ip)) (same.identity ∙ v.named r) ∙ h))

log_cause-pending : (jw : Jaws) (c : Option Cause) → (log_cause jw c).pending ≡ jw.pending
unfolding log_cause
log_cause-pending jw none = refl
log_cause-pending jw (some c) = refl

evict-pending :
    (jw : Jaws) (ip : Addr) (r now : ℕ)
    → IsSound jw
    → contains (jw.pending ip) r ≡ true
    → length ((evict jw r now).pending ip) + 1 ≡ length (jw.pending ip)
evict-pending jw ip r now v h =
    let out = retire jw r (some Cause.too_many_pending_requests) now in
    ap (λ m. length (m ip) + 1) (log_cause-pending out.0 out.1)
    ∙ retire-pending jw ip r (some Cause.too_many_pending_requests) now v h

evict-Advances : (jw : Jaws) (r now : ℕ) → IsSound jw → Advances jw (evict jw r now)
evict-Advances jw r now v =
    Advances-trans (retire-Advances jw r (some Cause.too_many_pending_requests) now v)
      (log_cause-Advances _ (retire jw r (some Cause.too_many_pending_requests) now).1)

pub limit_pending-Advances :
    (fuel : ℕ) (jw : Jaws) (ip : Addr) (now : ℕ)
    → IsSound jw
    → Advances jw (limit_pending fuel jw ip now)
unfolding limit_pending
limit_pending-Advances zero jw ip now v = Advances-refl jw
limit_pending-Advances (suc fuel) jw ip now v =
    elim (Bool-cases (leb jw.max_pending_requests_per_ip (length (jw.pending ip)))) [
      | inr l ↦ rw (limit_pending, l) (Advances-refl jw)
      | inl l ↦
          rw (limit_pending, l)
            (elim (Option-cases (eviction_victim jw ip jw.runtime_seconds)) [
              | inl e ↦ rw e (Advances-refl jw)
              | inr (r, e) ↦ rw e (
                  let logged = evict jw r now in
                  let sound = evict-IsSound jw r now v in
                  let there = evict-Advances jw r now v in
                  elim (Bool-cases (leb (length (jw.pending ip)) (length (logged.pending ip)))) [
                    | inl s ↦ rw s there
                    | inr s ↦
                        rw s
                          (Advances-trans there (limit_pending-Advances fuel logged ip now sound))
                  ])
            ])
    ]

-- In a sound state with a positive limit, as many rounds of eviction as the address has pending
-- Requests are enough: then its pending list is shorter than the limit.
pub limit_pending_lem :
    (fuel : ℕ) (jw : Jaws) (ip : Addr) (now : ℕ)
    → IsSound jw
    → 0 < jw.max_pending_requests_per_ip
    → length (jw.pending ip) ≤ fuel
    → length ((limit_pending fuel jw ip now).pending ip) < jw.max_pending_requests_per_ip
unfolding limit_pending
limit_pending_lem zero jw ip now v p f = omega (arith, p, f)
limit_pending_lem (suc fuel) jw ip now v p f =
    elim (Bool-cases (leb jw.max_pending_requests_per_ip (length (jw.pending ip)))) [
      | inr l ↦ rw (limit_pending, l) (ground (arith, l))
      | inl l ↦
          let (r, found, member) =
            eviction_victim-contains jw ip jw.runtime_seconds (ground (arith, l, p)) in
          let logged = evict jw r now in
          let less = evict-pending jw ip r now v member in
          let s : leb (length (jw.pending ip)) (length (logged.pending ip)) ≡ false =
            ground (arith, less) in
          let same = (evict-Advances jw r now v).limit in
          rw (limit_pending, l, found, s)
            (omega (
              arith,
              same,
              limit_pending_lem fuel logged ip now (evict-IsSound jw r now v)
                  (omega (arith, same, p)) (omega (arith, less, f)),
            ))
    ]
