-- ===== src/Pool/Progress.antt =====
-- What an operation leaves of the Requests and the pending lists that it finds.
use jaws.Base.{
  subst, ℕ, ◌+◌, ◌≤◌, ◌<◌, List, [], ◌∷◌, Option, none, some, true, not, ◌&&◌, ◌==◌, length,
  contains, ◌≡◌, refl, sym, ◌∙◌, arith, Bool-cases, inl, inr, ==→eq,
}
use jaws.Addr.{Addr, addr_eq}
use jaws.Addr.Laws.{addr_eq→eq}
use jaws.Request.{Request, ReqState, Cause, state_eq, update}
use jaws.Pool.{
  update_addr, Jaws, log_cause, cancel_locked, finish, is_current, retire, recycle,
  release_retired_request_key, release_buffers, erase, remove_pending, retire_cancel,
}
use jaws.Pool.Soundness.{IsSound, SameCore}
use jaws.Pool.Preservation.{
  Unmoved, entry_cases, cancel_locked-Unmoved, retire_cancel-Unmoved, released,
}

-- How far a Request has come.
unfoldable pub rank : ReqState → ℕ
rank ReqState.pending = 0
rank ReqState.claimed = 1
rank ReqState.running = 2
rank ReqState.unclaimable = 3
rank ReqState.finished = 4

-- The same Request, at the same point of its life or further.
pub record Later (old new : Request) : Type 0 where
  pub core : SameCore new old
  pub forward : rank old.state ≤ rank new.state

-- Requests stay what they are and only go forward, and the pending lists do not grow.
pub record Advances (jw after : Jaws) : Type 0 where
  pub allocated : jw.next_request ≤ after.next_request
  pub shut : jw.closed ≡ true → after.closed ≡ true
  pub later : (r : ℕ) → r < jw.next_request → Later (jw.heap r) (after.heap r)
  pub limit : after.max_pending_requests_per_ip ≡ jw.max_pending_requests_per_ip
  pub fewer : (ip : Addr) → length (after.pending ip) ≤ length (jw.pending ip)

pub SameCore-refl : (rq : Request) → SameCore rq rq
SameCore-refl rq = record { identity = refl; key = refl; ip = refl }

pub Later-refl : (rq : Request) → Later rq rq
Later-refl rq = record { core = SameCore-refl rq; forward = omega arith }

pub Later-trans : {a b c : Request} → Later a b → Later b c → Later a c
Later-trans p q = record {
  core = record {
    identity = q.core.identity ∙ p.core.identity;
    key = q.core.key ∙ p.core.key;
    ip = q.core.ip ∙ p.core.ip;
  };
  forward = omega (arith, p.forward, q.forward);
}

pub Advances-refl : (jw : Jaws) → Advances jw jw
Advances-refl jw = record {
  allocated = omega arith;
  shut = λ c. c;
  later = λ r h. Later-refl (jw.heap r);
  limit = refl;
  fewer = λ ip. omega arith;
}

pub Advances-trans : {a b c : Jaws} → Advances a b → Advances b c → Advances a c
Advances-trans p q = record {
  allocated = omega (arith, p.allocated, q.allocated);
  shut = λ c. q.shut (p.shut c);
  later = λ r h. Later-trans (p.later r h) (q.later r (omega (arith, h, p.allocated)));
  limit = q.limit ∙ p.limit;
  fewer = λ ip. omega (arith, p.fewer ip, q.fewer ip);
}

Unmoved-Later : {rq old : Request} → Unmoved rq old → Later old rq
unfolding rank
Unmoved-Later u = record { core = u.core; forward = ground (arith, u.state) }

pub Later-update :
    (heap : ℕ → Request) (r : ℕ) (rq : Request)
    → Later (heap r) rq
    → (a : ℕ) → Later (heap a) (update heap r rq a)
Later-update heap r rq l a = elim (Bool-cases (r == a)) [
  | inl e ↦ rw (e) (subst (λ i. Later (heap i) rq) (==→eq r a e) l)
  | inr e ↦ rw e (Later-refl (heap a))
]

pub log_cause-Advances : (jw : Jaws) (c : Option Cause) → Advances jw (log_cause jw c)
unfolding log_cause
log_cause-Advances jw none = Advances-refl jw
log_cause-Advances jw (some c) = record {
  allocated = omega arith;
  shut = λ c. c;
  later = λ r h. Later-refl (jw.heap r);
  limit = refl;
  fewer = λ ip. omega arith;
}

pub touch-Advances :
    (jw : Jaws) (r : ℕ) (rq : Request)
    → Later (jw.heap r) rq
    → Advances jw (record jw { heap = update jw.heap r rq })
touch-Advances jw r rq l = record {
  allocated = omega arith;
  shut = λ c. c;
  later = λ a h. Later-update jw.heap r rq l a;
  limit = refl;
  fewer = λ ip. omega arith;
}

length-erase : (r : ℕ) (xs : List ℕ) → length (erase r xs) ≤ length xs
unfolding erase
length-erase r [] = omega arith
length-erase r (x ∷ xs) = ground (arith, length-erase r xs)

pub length-erase-contains :
    (r : ℕ) (xs : List ℕ) → contains xs r ≡ true → length (erase r xs) + 1 ≡ length xs
unfolding erase
length-erase-contains r [] h = absurd (ground (arith, h))
length-erase-contains r (x ∷ xs) h = ground (arith, h, length-erase-contains r xs)

pub length-remove_pending :
    (m : Addr → List ℕ) (rq : Request) (ip : Addr) → length (remove_pending m rq ip) ≤ length (m ip)
unfolding remove_pending update_addr
length-remove_pending m rq ip = elim (Bool-cases (addr_eq ip rq.remote_ip)) [
  | inl e ↦ rw e (rw (addr_eq→eq ip rq.remote_ip e) (length-erase rq.identity (m rq.remote_ip)))
  | inr e ↦ rw e (omega arith)
]

rank-last : (s : ReqState) → rank s ≤ 4
unfolding rank
rank-last ReqState.pending = omega arith
rank-last ReqState.claimed = omega arith
rank-last ReqState.running = omega arith
rank-last ReqState.unclaimable = omega arith
rank-last ReqState.finished = omega arith

finish-Advances :
    (jw : Jaws) (r : ℕ) (rq : Request) (now : ℕ)
    → IsSound jw
    → SameCore rq (jw.heap r)
    → Advances jw (finish jw rq now)
unfolding finish rank
finish-Advances jw r rq now v same =
    let after = record rq { session = none; state = ReqState.finished } in
    let ended : Later (jw.heap r) after = record {
      core = record { identity = same.identity; key = same.key; ip = same.ip };
      forward = rank-last (jw.heap r).state;
    } in
    let at = same.identity ∙ v.named r in
    record {
      allocated = omega arith;
      shut = λ c. c;
      later = λ a h.
          Later-update jw.heap rq.identity after
            (subst (λ i. Later (jw.heap i) after) (sym at) ended) a;
      limit = refl;
      fewer = length-remove_pending jw.pending rq;
    }

pub retire-Advances :
    (jw : Jaws) (r : ℕ) (err : Option Cause) (now : ℕ)
    → IsSound jw
    → Advances jw (retire jw r err now).0
unfolding retire
retire-Advances jw r err now v =
    elim (Bool-cases (is_current jw r && not (state_eq (jw.heap r).state ReqState.running))) [
      | inl e ↦
          rw (retire, e)
            (finish-Advances jw r (retire_cancel (jw.heap r) err).0 now v
              (retire_cancel-Unmoved (jw.heap r) err).core)
      | inr e ↦ rw (retire, e) (Advances-refl jw)
    ]

pub Unmoved-Advances :
    (jw : Jaws) (r : ℕ) (rq : Request)
    → Unmoved rq (jw.heap r)
    → Advances jw (record jw { heap = update jw.heap r rq })
Unmoved-Advances jw r rq u = touch-Advances jw r rq (Unmoved-Later u)

pub recycle-Advances :
    (jw : Jaws) (r : ℕ) (err : Option Cause) (now : ℕ)
    → IsSound jw
    → Advances jw (recycle jw r err now).0
unfolding recycle
recycle-Advances jw r err now v = elim (Bool-cases (is_current jw r)) [
  | inl e ↦
      rw (recycle, e)
        (let rq = (cancel_locked (jw.heap r) err).0 in
          let done = finish jw rq now in
          Advances-trans
            (finish-Advances jw r rq now v (cancel_locked-Unmoved (jw.heap r) err).core)
            (Unmoved-Advances done r (release_buffers (done.heap r)) (released (done.heap r))))
  | inr e ↦ rw (recycle, e) (Advances-refl jw)
]

pub release_retired_request_key-Advances :
    (jw : Jaws) (key : ℕ) → Advances jw (release_retired_request_key jw key)
unfolding release_retired_request_key
release_retired_request_key-Advances jw key = elim (entry_cases (jw.requests key)) [
  | inl e ↦ rw (release_retired_request_key, e) (Advances-refl jw)
  | inr (inl e) ↦
      rw (release_retired_request_key, e)
        (record {
          allocated = omega arith;
          shut = λ c. c;
          later = λ r h. Later-refl (jw.heap r);
          limit = refl;
          fewer = λ ip. omega arith;
        })
  | inr (inr (r, e)) ↦ rw (release_retired_request_key, e) (Advances-refl jw)
]
