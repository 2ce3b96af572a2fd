-- ===== src/Pool/Capacity.antt =====
-- A Request is claimed once and served once in every history, and no history exceeds the limit on the
-- pending Requests of an address.
use jaws.Base.{
  ℕ, ◌+◌, ◌≤◌, ◌<◌, List, [], ◌∷◌, ◌++◌, true, false, ◌==◌, length, ◌≡◌, refl, ◌∙◌, arith,
  Bool-cases, Option-cases, inl, inr,
}
use jaws.Addr.{Addr, addr_eq}
use jaws.Request.{Request, ReqState, update}
use jaws.Pool.{update_addr, Jaws, Session}
use jaws.Pool.Operations.{fresh_key, attach, blank, enroll, make_room, new_request}
use jaws.Pool.Soundness.{IsSound}
use jaws.Pool.Progress.{Later, Advances, Later-refl, Later-trans, Advances-refl}
use jaws.Pool.Arrival.{or_same, attach-Unmoved}
use jaws.Pool.Limit.{limit_pending-Advances, limit_pending_lem}
use jaws.Pool.Operations.{new_request}

-- What newRequest leaves of the Requests before it.
pub record Grows (jw after : Jaws) : Type 0 where
  pub allocated : jw.next_request ≤ after.next_request
  pub shut : jw.closed ≡ true → after.closed ≡ true
  pub later : (r : ℕ) → r < jw.next_request → Later (jw.heap r) (after.heap r)
  pub limit : after.max_pending_requests_per_ip ≡ jw.max_pending_requests_per_ip

-- No address has more pending Requests than the limit.
abbrev pub IsCapped : Jaws → Type 0
IsCapped jw = (ip : Addr) → length (jw.pending ip) ≤ jw.max_pending_requests_per_ip

pub Advances-Grows : {jw after : Jaws} → Advances jw after → Grows jw after
Advances-Grows a = record {
  allocated = a.allocated;
  shut = a.shut;
  later = a.later;
  limit = a.limit;
}

pub Advances-IsCapped : {jw after : Jaws} → Advances jw after → IsCapped jw → IsCapped after
Advances-IsCapped a c ip = omega (arith, a.limit, a.fewer ip, c ip)

make_room-Advances :
    (jw : Jaws) (ip : Addr) (now : ℕ) → IsSound jw → Advances jw (make_room jw ip now)
make_room-Advances jw ip now v = elim (Bool-cases (jw.max_pending_requests_per_ip == 0)) [
  | inl e ↦ rw e (Advances-refl jw)
  | inr e ↦ rw e (limit_pending-Advances (length (jw.pending ip)) jw ip now v)
]

make_room_lem :
    (jw : Jaws) (ip : Addr) (now : ℕ)
    → IsSound jw
    → 0 < jw.max_pending_requests_per_ip
    → length ((make_room jw ip now).pending ip) < jw.max_pending_requests_per_ip
make_room_lem jw ip now v p =
    let e : (jw.max_pending_requests_per_ip == 0) ≡ false = ground (arith, p) in
    rw e (limit_pending_lem (length (jw.pending ip)) jw ip now v p (omega arith))

length-append_one : (xs : List ℕ) (x : ℕ) → length (xs ++ x ∷ []) ≡ length xs + 1
length-append_one [] x = refl
length-append_one (y ∷ ys) x = omega (arith, length-append_one ys x)

Later-unmade :
    (heap : ℕ → Request) (r k : ℕ) (rq : Request)
    → (k == r) ≡ false
    → Later (heap r) (update heap k rq r)
Later-unmade heap r k rq e = rw e (Later-refl (heap r))

enroll-Grows :
    (jw : Jaws) (rq : Request) (sessions : ℕ → Session)
    → rq.identity ≡ jw.next_request
    → Grows jw (enroll jw rq sessions)
unfolding enroll
enroll-Grows jw rq sessions new = record {
  allocated = omega arith;
  shut = λ c. c;
  later = λ r h. Later-unmade jw.heap r rq.identity rq (ground (arith, new, h));
  limit = refl;
}

enroll-IsCapped :
    (jw : Jaws) (rq : Request) (sessions : ℕ → Session)
    → length (jw.pending rq.remote_ip) < jw.max_pending_requests_per_ip
    → IsCapped jw
    → IsCapped (enroll jw rq sessions)
unfolding enroll update_addr
enroll-IsCapped jw rq sessions room c ip = elim (Bool-cases (addr_eq ip rq.remote_ip)) [
  | inl e ↦ rw e (omega (arith, room, length-append_one (jw.pending rq.remote_ip) rq.identity))
  | inr e ↦ rw e (c ip)
]

pub Grows-refl : (jw : Jaws) → Grows jw jw
Grows-refl jw = Advances-Grows (Advances-refl jw)

pub Grows-trans : {a b c : Jaws} → Grows a b → Grows b c → Grows a c
Grows-trans p q = record {
  allocated = omega (arith, p.allocated, q.allocated);
  shut = λ c. q.shut (p.shut c);
  later = λ r h. Later-trans (p.later r h) (q.later r (omega (arith, h, p.allocated)));
  limit = q.limit ∙ p.limit;
}

module _ (jw : Jaws) (ip : Addr) (ids keys : List ℕ) (seconds now : ℕ) (v : IsSound jw) where
  pub new_request-Grows : Grows jw (or_same jw (new_request jw ip ids keys seconds now))
  unfolding new_request blank
  new_request-Grows = elim (Bool-cases jw.closed) [
    | inl c ↦ elim (Option-cases (fresh_key (record jw { runtime_seconds = seconds }) keys)) [
      | inl e ↦
          rw (new_request, c, e)
            (record {
              allocated = omega arith;
              shut = λ c. c;
              later = λ r h. Later-refl (jw.heap r);
              limit = refl;
            })
      | inr (key, e) ↦
          rw (new_request, c, e)
            (record {
              allocated = omega arith;
              shut = λ x. c;
              later = λ r h. Later-unmade jw.heap r jw.next_request _ (ground (arith, h));
              limit = refl;
            })
    ]
    | inr c ↦
        let roomy = make_room (record jw { runtime_seconds = seconds }) ip now in
        let made =
          Advances-Grows (make_room-Advances (record jw { runtime_seconds = seconds }) ip now v) in
        elim (Option-cases (fresh_key roomy keys)) [
          | inl e ↦
              rw (new_request, c, e)
                (record {
                  allocated = omega arith;
                  shut = λ c. c;
                  later = λ r h. Later-refl (jw.heap r);
                  limit = refl;
                })
          | inr (key, e) ↦
              let out = attach roomy (blank roomy key ip ReqState.pending) ids now in
              let u = attach-Unmoved roomy (blank roomy key ip ReqState.pending) ids now in
              let grown = Grows-trans made (enroll-Grows roomy out.0 out.1 u.core.identity) in
              rw (new_request, c, e)
                (record {
                  allocated = grown.allocated;
                  shut = λ x. absurd (ground (arith, x));
                  later = grown.later;
                  limit = grown.limit;
                })
        ]
  ]

  pub new_request-IsCapped :
      0 < jw.max_pending_requests_per_ip
      → IsCapped jw
      → IsCapped (or_same jw (new_request jw ip ids keys seconds now))
  unfolding new_request blank
  new_request-IsCapped p c = elim (Bool-cases jw.closed) [
    | inl cl ↦ elim (Option-cases (fresh_key (record jw { runtime_seconds = seconds }) keys)) [
      | inl e ↦ rw (new_request, cl, e) c
      | inr (key, e) ↦ rw (new_request, cl, e) c
    ]
    | inr cl ↦
        let fresh = record jw { runtime_seconds = seconds } in
        let roomy = make_room fresh ip now in
        let a = make_room-Advances fresh ip now v in
        elim (Option-cases (fresh_key roomy keys)) [
          | inl e ↦ rw (new_request, cl, e) c
          | inr (key, e) ↦
              let out = attach roomy (blank roomy key ip ReqState.pending) ids now in
              let u = attach-Unmoved roomy (blank roomy key ip ReqState.pending) ids now in
              let at : out.0.remote_ip ≡ ip = u.core.ip in
              let room : length (roomy.pending out.0.remote_ip)
                  < roomy.max_pending_requests_per_ip =
                rw at (omega (arith, make_room_lem fresh ip now v p, a.limit)) in
              rw (new_request, cl, e)
                (enroll-IsCapped roomy out.0 out.1 room (Advances-IsCapped a c))
        ]
  ]
