-- ===== src/Pool/Once.antt =====
-- A Request is claimed at most once and served at most once, and not after Close.
use jaws.Base.{
  subst, ℕ, ◌<◌, List, Option, none, some, true, false, not, ◌&&◌, ◌==◌, ◌≡◌, ◌≢◌, refl, ap, arith,
  Bool-cases, Option-cases, inl, inr, ==→eq, ==_refl,
}
use jaws.Addr.{Addr, equal_ip}
use jaws.Request.{Request, ReqState, state_eq}
use jaws.Pool.{Jaws, is_entry, is_none}
use jaws.Pool.Service.{claim, use_request, start_serve, close}
use jaws.Pool.Soundness.{IsSound}
use jaws.Pool.Preservation.{entry_cases}
use jaws.Pool.Lifecycle.{claim-IsClaim, use_request-IsSound, start_serve-IsSound, close-IsSound}
use jaws.Pool.Progress.{rank}
use jaws.Pool.Upkeep.{start_serve-Advances}
use jaws.Pool.Serving.{use_request-Advances, close-closed}
use jaws.Pool.History.{Op, steps, steps-Grows}

-- What a UseRequest that hands out the Request `r` found and left.
pub record IsUse (jw : Jaws) (key : ℕ) (ip : Addr) (r : ℕ) (after : Jaws) : Type 0 where
  pub entry : jw.requests key ≡ some (some r)
  pub pending : (jw.heap r).state ≡ ReqState.pending
  pub address : equal_ip (jw.heap r).remote_ip ip ≡ true
  pub live : (jw.heap r).ctx_err ≡ none
  pub claimed : (after.heap r).state ≡ ReqState.claimed

claim-address :
    (rq : Request) (ip : Addr) (seconds : ℕ)
    → (claim rq ip seconds).1 ≡ none
    → equal_ip rq.remote_ip ip ≡ true
unfolding claim
claim-address rq ip seconds h = ground (arith, h)

-- UseRequest hands out a Request only if the key is registered for it, it is unclaimed, the address
-- is the one that it was made for and its context is live; then the Request is claimed.
pub use_request_lem :
    (jw : Jaws) (key : ℕ) (ip : Addr) (r : ℕ)
    → (use_request jw key ip).1 ≡ some r
    → IsUse jw key ip r (use_request jw key ip).0
unfolding use_request
use_request_lem jw key ip r h = elim (Bool-cases (key == 0)) [
  | inl z ↦ absurd (ground (arith, h, z))
  | inr z ↦ elim (entry_cases (jw.requests key)) [
    | inl e ↦ absurd (ground (arith, h, z, e))
    | inr (inl e) ↦ absurd (ground (arith, h, z, e))
    | inr (inr (s, e)) ↦ elim (Option-cases (claim (jw.heap s) ip jw.runtime_seconds).1) [
      | inr (c, f) ↦ absurd (ground (arith, h, z, e, f))
      | inl f ↦
          let same : s ≡ r = ground (arith, h, z, e, f) in
          let c = claim-IsClaim (jw.heap s) ip jw.runtime_seconds f in
          subst (λ i. IsUse jw key ip i (use_request jw key ip).0) same
            (record {
              entry = e;
              pending = c.before;
              address = claim-address (jw.heap s) ip jw.runtime_seconds f;
              live = c.live;
              claimed = rw (use_request, z, e, f) (rw (==_refl s) c.after);
            })
    ]
  ]
]

made : (jw : Jaws) (key r : ℕ) → IsSound jw → jw.requests key ≡ some (some r) → r < jw.next_request
made jw key r v e = let w = v.entries key r in ground (arith, w, e, ==_refl r)

-- In a sound state, a Request that UseRequest handed out is not handed out again: not after any
-- history, not for any key or address.
pub claimed_once :
    (jw : Jaws) (key : ℕ) (ip : Addr) (r : ℕ) (os : List Op) (key' : ℕ) (ip' : Addr)
    → IsSound jw
    → (use_request jw key ip).1 ≡ some r
    → (use_request (steps (use_request jw key ip).0 os) key' ip').1 ≢ some r
unfolding rank
claimed_once jw key ip r os key' ip' v h h' =
    let first = use_request_lem jw key ip r h in
    let then = (use_request jw key ip).0 in
    let second = use_request_lem (steps then os) key' ip' r h' in
    let below = made jw key r v first.entry in
    let grown = steps-Grows then os (use_request-IsSound jw key ip v) in
    let there = (use_request-Advances jw key ip).allocated in
    let later = grown.later r (omega (arith, below, there)) in
    ground (arith, later.forward, first.claimed, second.pending)

-- What a Request that starts to be served was and is.
record IsService (jw : Jaws) (r : ℕ) (after : Jaws) : Type 0 where
  pub entry : jw.requests (jw.heap r).jaws_key ≡ some (some r)
  pub claimed : (jw.heap r).state ≡ ReqState.claimed
  pub accepting : jw.closed ≡ false
  pub running : (after.heap r).state ≡ ReqState.running

is_entry_lem : (o : Option (Option ℕ)) (r : ℕ) → is_entry o r ≡ true → o ≡ some (some r)
is_entry_lem none r h = absurd (ground (arith, h))
is_entry_lem (some none) r h = absurd (ground (arith, h))
is_entry_lem (some (some s)) r h = ap (λ i. some (some i)) (==→eq s r h)

is_claim : (s : ReqState) → state_eq s ReqState.claimed ≡ true → s ≡ ReqState.claimed
is_claim ReqState.claimed h = refl
is_claim ReqState.pending h = ground (arith, h)
is_claim ReqState.unclaimable h = ground (arith, h)
is_claim ReqState.running h = ground (arith, h)
is_claim ReqState.finished h = ground (arith, h)

start_serve_lem :
    (jw : Jaws) (r : ℕ) → (start_serve jw r).1 ≡ true → IsService jw r (start_serve jw r).0
unfolding start_serve
start_serve_lem jw r h =
    let cond = Bool-cases (
      not jw.closed
      && is_entry (jw.requests (jw.heap r).jaws_key) r
      && is_none (jw.heap r).ctx_err
      && state_eq (jw.heap r).state ReqState.claimed) in
    elim cond [
      | inr c ↦ absurd (ground (arith, h, c))
      | inl c ↦ record {
        entry = is_entry_lem (jw.requests (jw.heap r).jaws_key) r (ground (arith, c));
        claimed = is_claim (jw.heap r).state (ground (arith, c));
        accepting = ground (arith, c);
        running = rw (start_serve, c) (rw (==_refl r) refl);
      }
    ]

-- In a sound state, a Request that startServe accepted is not accepted again after any history.
pub served_once :
    (jw : Jaws) (r : ℕ) (os : List Op)
    → IsSound jw
    → (start_serve jw r).1 ≡ true
    → (start_serve (steps (start_serve jw r).0 os) r).1 ≡ false
unfolding rank
served_once jw r os v h =
    let then = (start_serve jw r).0 in
    let first = start_serve_lem jw r h in
    let grown = steps-Grows then os (start_serve-IsSound jw r v) in
    let there = (start_serve-Advances jw r).allocated in
    let below = made jw (jw.heap r).jaws_key r v first.entry in
    let later = grown.later r (omega (arith, below, there)) in
    elim (Bool-cases (start_serve (steps then os) r).1) [
      | inr e ↦ e
      | inl e ↦
          let second = start_serve_lem (steps then os) r e in
          absurd (ground (arith, later.forward, first.running, second.claimed))
    ]

-- In a sound state, after Close no history makes startServe accept a Request.
pub close-start_serve :
    (jw : Jaws) (keys : List ℕ) (now : ℕ) (os : List Op) (r : ℕ)
    → IsSound jw
    → (start_serve (steps (close jw keys now) os) r).1 ≡ false
close-start_serve jw keys now os r v =
    let then = close jw keys now in
    let shut =
      (steps-Grows then os (close-IsSound jw keys now v)).shut (close-closed jw keys now v) in
    elim (Bool-cases (start_serve (steps then os) r).1) [
      | inr e ↦ e
      | inl e ↦ absurd (ground (arith, shut, (start_serve_lem (steps then os) r e).accepting))
    ]
