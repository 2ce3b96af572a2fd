-- ===== src/Pool/Soundness.antt =====
-- What holds of the registry of Requests between the operations.
use jaws.Base.{
  ℕ, zero, suc, ◌+◌, ◌-◌, ◌≤◌, ◌<◌, List, [], ◌∷◌, Option, none, some, true, false, not, ◌&&◌, ltb,
  ◌==◌, if◌then◌else◌, contains, Distinct, ◌≡◌, ◌≢◌, refl, sym, ap, ◌∙◌, arith, Bool-cases, ==→eq,
  ==_refl, inl, inr,
}
use jaws.Addr.{Addr, addr_eq}
use jaws.Addr.Laws.{addr_eq→eq, addr_eq_sym}
use jaws.Request.{Request, ReqState, registered, state_eq, update}
use jaws.Pool.{Jaws, erase, update_addr, remove_pending, is_entry}

-- The registered Requests among the first `n`.
unfoldable pub live_count : ℕ → (ℕ → Request) → ℕ
live_count zero heap = 0
live_count (suc n) heap = (if registered (heap n).state then 1 else 0) + live_count n heap

-- The invariant, of the heap, the count of allocations, the map of keys, the count of registered
-- Requests and the pending lists.
pub record IsCore (heap : ℕ → Request) (next : ℕ) (requests : ℕ → Option (Option ℕ)) (count : ℕ)
    (pending : Addr → List ℕ) : Type 0 where
  pub named : (r : ℕ) → (heap r).identity ≡ r
  pub keyed : (r : ℕ) → r < next → (heap r).jaws_key ≢ 0
  -- The map leads from a key to the Request with it, while that is registered.
  pub entries :
      (k r : ℕ)
      → is_entry (requests k) r
        ≡ (registered (heap r).state && ((heap r).jaws_key == k) && ltb r next)
  -- The pending lists hold the unclaimed Requests of their address.
  pub waiting :
      (ip : Addr) (r : ℕ)
      → contains (pending ip) r
        ≡ (state_eq (heap r).state ReqState.pending && addr_eq (heap r).remote_ip ip && ltb r next)
  pub once : (ip : Addr) → Distinct (pending ip)
  pub counted : count ≡ live_count next heap

abbrev pub IsSound : Jaws → Type 0
IsSound jw = IsCore jw.heap jw.next_request jw.requests jw.request_count jw.pending

-- What no step changes in a Request once it is made.
pub record SameCore (rq old : Request) : Type 0 where
  pub identity : rq.identity ≡ old.identity
  pub key : rq.jaws_key ≡ old.jaws_key
  pub ip : rq.remote_ip ≡ old.remote_ip

contains-erase :
    (r : ℕ) (xs : List ℕ) (a : ℕ)
    → Distinct xs
    → contains (erase r xs) a ≡ (contains xs a && not (a == r))
unfolding erase
contains-erase r [] a d = refl
contains-erase r (x ∷ xs) a d = ground (arith, contains-erase r xs a d.1)

Distinct-erase : (r : ℕ) (xs : List ℕ) → Distinct xs → Distinct (erase r xs)
unfolding erase
Distinct-erase r [] d = tt
Distinct-erase r (x ∷ xs) d = ground (arith, Distinct-erase r xs d.1, contains-erase r xs x d.1)

pub live_count-above :
    (n r : ℕ) (heap : ℕ → Request) (rq : Request)
    → n ≤ r
    → live_count n (update heap r rq) ≡ live_count n heap
unfolding live_count
live_count-above zero r heap rq h = refl
live_count-above (suc n) r heap rq h = ground (arith, live_count-above n r heap rq (omega arith))

abbrev weight : Request → ℕ
weight rq = if registered rq.state then 1 else 0

live_count-update :
    (n r : ℕ) (heap : ℕ → Request) (rq : Request)
    → r < n
    → live_count n (update heap r rq) + weight (heap r) ≡ live_count n heap + weight rq
unfolding live_count
live_count-update zero r heap rq h = absurd (omega arith)
live_count-update (suc n) r heap rq h = elim (Bool-cases (r == n)) [
  | inl e ↦
      let e' = ==→eq r n e in
      rw e' (rw (==_refl n) (omega (arith, live_count-above n n heap rq (omega arith))))
  | inr e ↦ rw e (omega (arith, live_count-update n r heap rq (ground (arith, e, h))))
]

live_count-same :
    (n r : ℕ) (heap : ℕ → Request) (rq : Request)
    → registered rq.state ≡ registered (heap r).state
    → live_count n (update heap r rq) ≡ live_count n heap
live_count-same n r heap rq e = elim (Bool-cases (ltb r n)) [
  | inl l ↦
      let w : weight rq ≡ weight (heap r) = ap (λ b. if b then 1 else 0) e in
      omega (arith, live_count-update n r heap rq (ground (arith, l)), w)
  | inr l ↦ live_count-above n r heap rq (ground (arith, l))
]

contains-remove_pending :
    (pending : Addr → List ℕ) (rq : Request) (ip : Addr) (a : ℕ)
    → Distinct (pending rq.remote_ip)
    → contains (remove_pending pending rq ip) a
      ≡ (contains (pending ip) a && not (addr_eq ip rq.remote_ip && (a == rq.identity)))
unfolding remove_pending update_addr
contains-remove_pending pending rq ip a d = elim (Bool-cases (addr_eq ip rq.remote_ip)) [
  | inl e ↦
      rw e
        (rw (addr_eq→eq ip rq.remote_ip e) (contains-erase rq.identity (pending rq.remote_ip) a d))
  | inr e ↦ rw e (ground arith)
]

Distinct-remove_pending :
    (pending : Addr → List ℕ) (rq : Request)
    → ((ip : Addr) → Distinct (pending ip))
    → (ip : Addr) → Distinct (remove_pending pending rq ip)
unfolding remove_pending update_addr
Distinct-remove_pending pending rq d ip = elim (Bool-cases (addr_eq ip rq.remote_ip)) [
  | inl e ↦ rw e (Distinct-erase rq.identity (pending rq.remote_ip) (d rq.remote_ip))
  | inr e ↦ rw e (d ip)
]

module _ {heap : ℕ → Request} {next : ℕ} {requests : ℕ → Option (Option ℕ)} {count : ℕ}
    {pending : Addr → List ℕ} (v : IsCore heap next requests count pending) (r : ℕ) (rq : Request)
    (same : SameCore rq (heap r)) where
  named_after : (a : ℕ) → (update heap r rq a).identity ≡ a
  named_after a = ground (arith, same.identity, v.named a, v.named r)

  keyed_after : (a : ℕ) → a < next → (update heap r rq a).jaws_key ≢ 0
  keyed_after a h = ground (arith, same.key, v.keyed a h)

  -- A Request changes, but not in what the registry reads.
  pub touch-IsCore :
      registered rq.state ≡ registered (heap r).state
      → state_eq rq.state ReqState.pending ≡ state_eq (heap r).state ReqState.pending
      → IsCore (update heap r rq) next requests count pending
  touch-IsCore reg pend = record {
    named = named_after;
    keyed = keyed_after;
    entries = λ k a. ground (arith, same.key, v.entries k a, reg);
    waiting = λ ip a. ground (arith, same.ip, v.waiting ip a, pend);
    once = v.once;
    counted = v.counted ∙ sym (live_count-same next r heap rq reg);
  }

  own_identity : rq.identity ≡ r
  own_identity = same.identity ∙ v.named r

  waiting_after :
      state_eq rq.state ReqState.pending ≡ false
      → (ip : Addr) (a : ℕ)
      → contains (remove_pending pending rq ip) a ≡ (
          state_eq (update heap r rq a).state ReqState.pending
          && addr_eq (update heap r rq a).remote_ip ip
          && ltb a next)
  waiting_after pend ip a = ground (
    arith,
    contains-remove_pending pending rq ip a (v.once rq.remote_ip),
    v.waiting ip a,
    own_identity,
    same.ip,
    addr_eq_sym ip rq.remote_ip,
    pend,
  )

  -- A Request that stays registered leaves the pending lists.
  pub leave-IsCore :
      registered rq.state ≡ registered (heap r).state
      → state_eq rq.state ReqState.pending ≡ false
      → IsCore (update heap r rq) next requests count (remove_pending pending rq)
  leave-IsCore reg pend = record {
    named = named_after;
    keyed = keyed_after;
    entries = λ k a. ground (arith, same.key, v.entries k a, reg);
    waiting = waiting_after pend;
    once = Distinct-remove_pending pending rq v.once;
    counted = v.counted ∙ sym (live_count-same next r heap rq reg);
  }

  -- A registered Request ends, and its key is reserved.
  pub finish-IsCore :
      registered (heap r).state ≡ true
      → r < next
      → registered rq.state ≡ false
      → state_eq rq.state ReqState.pending ≡ false
      → IsCore
          (update heap r rq)
          next
          (update requests rq.jaws_key (some none))
          (count - 1)
          (remove_pending pending rq)
  finish-IsCore live below dead pend = record {
    named = named_after;
    keyed = keyed_after;
    entries = λ k a. ground (
      arith,
      same.key,
      v.entries k a,
      v.entries (heap r).jaws_key a,
      v.entries (heap r).jaws_key r,
      dead,
      live,
      below,
    );
    waiting = waiting_after pend;
    once = Distinct-remove_pending pending rq v.once;
    counted = ground (arith, v.counted, live_count-update next r heap rq below, live, dead);
  }
