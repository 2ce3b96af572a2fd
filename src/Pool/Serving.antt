-- ===== src/Pool/Serving.antt =====
-- UseRequest and Close only take Requests forward.
use jaws.Base.{
  ℕ, List, [], ◌∷◌, none, some, true, ◌==◌, ◌≡◌, refl, arith, Bool-cases, Option-cases, inl, inr,
}
use jaws.Addr.{Addr}
use jaws.Request.{Request, ReqState, state_eq}
use jaws.Pool.{Jaws}
use jaws.Pool.Service.{claim, use_request, close_one, close_all, close_sessions, close}
use jaws.Pool.Soundness.{IsSound}
use jaws.Pool.Preservation.{entry_cases}
use jaws.Pool.Lifecycle.{IsClaim, claim-IsClaim, close_one-IsSound}
use jaws.Pool.Progress.{
  rank, Later, Advances, Later-refl, Advances-refl, Advances-trans, Later-update,
  log_cause-Advances, length-remove_pending, retire-Advances,
}

claimed-Later : {rq old : Request} → IsClaim rq old → Later old rq
unfolding rank
claimed-Later c = record { core = c.core; forward = rw (c.before) (omega arith) }

pub use_request-Advances : (jw : Jaws) (key : ℕ) (ip : Addr) → Advances jw (use_request jw key ip).0
unfolding use_request
use_request-Advances jw key ip = elim (Bool-cases (key == 0)) [
  | inl z ↦ rw (use_request, z) (Advances-refl jw)
  | inr z ↦ elim (entry_cases (jw.requests key)) [
    | inl e ↦ rw (use_request, z, e) (Advances-refl jw)
    | inr (inl e) ↦ rw (use_request, z, e) (Advances-refl jw)
    | inr (inr (r, e)) ↦
        rw (use_request, z, e)
          (elim (Option-cases (claim (jw.heap r) ip jw.runtime_seconds).1) [
            | inr (c, f) ↦ rw f (log_cause-Advances jw (some c))
            | inl f ↦
                let rq = (claim (jw.heap r) ip jw.runtime_seconds).0 in
                rw f (record {
                  allocated = omega arith;
                  shut = λ c. c;
                  later = λ a h.
                      Later-update jw.heap r rq
                        (claimed-Later (claim-IsClaim (jw.heap r) ip jw.runtime_seconds f)) a;
                  limit = refl;
                  fewer = length-remove_pending jw.pending rq;
                })
          ])
  ]
]

close_one-Advances : (jw : Jaws) (key now : ℕ) → IsSound jw → Advances jw (close_one jw key now)
unfolding close_one
close_one-Advances jw key now v = elim (entry_cases (jw.requests key)) [
  | inl e ↦ rw (close_one, e) (Advances-refl jw)
  | inr (inl e) ↦ rw (close_one, e) (Advances-refl jw)
  | inr (inr (r, e)) ↦
      rw (close_one, e)
        (elim (Bool-cases (state_eq (jw.heap r).state ReqState.running)) [
          | inr s ↦ rw s (retire-Advances jw r none now v)
          | inl s ↦ rw s (record {
            allocated = omega arith;
            shut = λ c. c;
            later = λ a h.
                Later-update jw.heap r _
                  (record {
                    core = record { identity = refl; key = refl; ip = refl };
                    forward = omega arith;
                  })
                  a;
            limit = refl;
            fewer = λ ip. omega arith;
          })
        ])
]

close_all-Advances :
    (jw : Jaws) (keys : List ℕ) (now : ℕ) → IsSound jw → Advances jw (close_all jw keys now)
unfolding close_all
close_all-Advances jw [] now v = Advances-refl jw
close_all-Advances jw (k ∷ ks) now v =
    Advances-trans (close_one-Advances jw k now v)
      (close_all-Advances (close_one jw k now) ks now (close_one-IsSound jw k now v))

pub close-Advances :
    (jw : Jaws) (keys : List ℕ) (now : ℕ) → IsSound jw → Advances jw (close jw keys now)
unfolding close close_sessions
close-Advances jw keys now v = elim (Bool-cases jw.closed) [
  | inl c ↦
      rw (close, c)
        (record {
          allocated = omega arith;
          shut = λ c. c;
          later = λ r h. Later-refl (jw.heap r);
          limit = refl;
          fewer = λ ip. omega arith;
        })
  | inr c ↦
      rw (close, close_sessions, c)
        (let a = close_all-Advances (record jw { closed = true }) keys now v in
          record {
            allocated = a.allocated;
            shut = λ c. a.shut refl;
            later = a.later;
            limit = a.limit;
            fewer = a.fewer;
          })
]

pub close-closed :
    (jw : Jaws) (keys : List ℕ) (now : ℕ) → IsSound jw → (close jw keys now).closed ≡ true
unfolding close close_sessions
close-closed jw keys now v = elim (Bool-cases jw.closed) [
  | inl c ↦ rw (close, c) (ground (arith, c))
  | inr c ↦
      rw (close, close_sessions, c)
        ((close_all-Advances (record jw { closed = true }) keys now v).shut refl)
]
