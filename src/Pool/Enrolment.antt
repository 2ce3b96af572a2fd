-- ===== src/Pool/Enrolment.antt =====
-- New Requests keep the registry sound.
use jaws.Base.{
  ℕ, suc, ◌+◌, ◌<◌, List, [], ◌∷◌, ◌++◌, Option, none, some, false, ◌&&◌, ◌||◌, ◌==◌, if◌then◌else◌,
  contains, contains-append, Distinct, Distinct-append_one, ◌≡◌, ◌≢◌, ◌∙◌, arith, Bool-cases, inl,
  inr, ==_refl,
}
use jaws.Addr.{Addr, addr_eq}
use jaws.Addr.Laws.{addr_eq→eq, addr_eq_sym}
use jaws.Request.{Request, ReqState, registered, update}
use jaws.Pool.{update_addr}
use jaws.Pool.Soundness.{live_count, live_count-above, IsCore}

contains-update_addr :
    (pending : Addr → List ℕ) (ip a : Addr) (r k : ℕ)
    → contains (update_addr pending ip (pending ip ++ r ∷ []) a) k
      ≡ (contains (pending a) k || (addr_eq a ip && (r == k)))
unfolding update_addr
contains-update_addr pending ip a r k = elim (Bool-cases (addr_eq a ip)) [
  | inl e ↦ rw e (rw (addr_eq→eq a ip e) (contains-append (pending ip) (r ∷ []) k ∙ ground arith))
  | inr e ↦ rw e (ground arith)
]

Distinct-update_addr :
    (pending : Addr → List ℕ) (ip a : Addr) (r : ℕ)
    → ((b : Addr) → Distinct (pending b))
    → contains (pending ip) r ≡ false
    → Distinct (update_addr pending ip (pending ip ++ r ∷ []) a)
unfolding update_addr
Distinct-update_addr pending ip a r d h = elim (Bool-cases (addr_eq a ip)) [
  | inl e ↦ rw e (Distinct-append_one (pending ip) r (d ip) h)
  | inr e ↦ rw e (d a)
]

live_count-new :
    (n : ℕ) (heap : ℕ → Request) (rq : Request)
    → live_count (suc n) (update heap n rq)
      ≡ (if registered rq.state then 1 else 0) + live_count n heap
unfolding live_count
live_count-new n heap rq =
    rw (==_refl n) (ground (arith, live_count-above n n heap rq (omega arith)))

module _ {heap : ℕ → Request} {next : ℕ} {requests : ℕ → Option (Option ℕ)} {count : ℕ}
    {pending : Addr → List ℕ} (v : IsCore heap next requests count pending) (rq : Request)
    (new : rq.identity ≡ next) (keyed : rq.jaws_key ≢ 0) where
  named_new : (a : ℕ) → (update heap next rq a).identity ≡ a
  named_new a = ground (arith, new, v.named a)

  keyed_new : (a : ℕ) → a < suc next → (update heap next rq a).jaws_key ≢ 0
  keyed_new a h = ground (arith, keyed, v.keyed a)

  not_waiting : contains (pending rq.remote_ip) next ≡ false
  not_waiting = ground (arith, v.waiting rq.remote_ip next)

  -- A pending Request under a key that was free.
  pub enroll-IsCore :
      requests rq.jaws_key ≡ none
      → rq.state ≡ ReqState.pending
      → IsCore
          (update heap next rq)
          (suc next)
          (update requests rq.jaws_key (some (some next)))
          (count + 1)
          (update_addr pending rq.remote_ip (pending rq.remote_ip ++ next ∷ []))
  enroll-IsCore free st = record {
    named = named_new;
    keyed = keyed_new;
    entries = λ k a. ground (arith, free, st, v.entries k a, v.entries rq.jaws_key a);
    waiting = λ ip a. ground (
      arith,
      contains-update_addr pending rq.remote_ip ip next a,
      st,
      v.waiting ip a,
      addr_eq_sym ip rq.remote_ip,
    );
    once = λ ip. Distinct-update_addr pending rq.remote_ip ip next v.once not_waiting;
    counted = ground (arith, v.counted, live_count-new next heap rq, st);
  }

  -- A Request that is made after shutdown is not registered.
  pub unclaimable-IsCore :
      rq.state ≡ ReqState.unclaimable
      → IsCore (update heap next rq) (suc next) requests count pending
  unclaimable-IsCore st = record {
    named = named_new;
    keyed = keyed_new;
    entries = λ k a. ground (arith, st, v.entries k a);
    waiting = λ ip a. ground (arith, st, v.waiting ip a);
    once = v.once;
    counted = ground (arith, v.counted, live_count-new next heap rq, st);
  }
