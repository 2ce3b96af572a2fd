-- ===== src/Tail/Serve.antt =====
-- The answer to a fetch of a tail script: serveTailScript and writeTailResponse.
use jaws.Base.{
  ℕ, List, [], ◌∷◌, Option, none, some, Bool, true, false, ◌&&◌, ◌==◌, if◌then◌else◌, inl, inr, ◌≡◌,
  ◌≢◌, refl, sym, ap, ◌∙◌, arith, Bool-cases, Option-cases, ==→eq, ==_refl,
}
use jaws.Strconv.{Text}
use jaws.Bytes.{codes, without_prefix}
use jaws.Key
use jaws.Addr.{Addr, equal_ip}
use jaws.Request.{Request, Cause, update}
use jaws.Tail.{drain_tail_script, drain_once}
use jaws.Pool.{Jaws, is_entry, cancel_locked, log_cause}
use jaws.Pool.Service.{cancel, cancel_if_current}

abbrev is_nil : Text → Bool
is_nil [] = true
is_nil (c ∷ s) = false

pub record Response : Type 0 where
  pub status : ℕ
  pub headers : List (Text × Text)
  pub body : Text

-- writeTailResponse, where a handler that writes nothing answers 200.
unfoldable pub write_tail_response : Text → Bool → Response
write_tail_response b sent = record {
  status = if sent then 200 else 204;
  headers =
      (codes "Cache-Control", codes "no-store")
      ∷ (codes "Content-Type", codes "text/javascript")
      ∷ [];
  body = if sent then b else [];
}

-- The Request with the key, if the fetch comes from its address.
unfoldable pub tail_entry : Jaws → Addr → Option (Option ℕ) → Option ℕ
tail_entry jw ip none = none
tail_entry jw ip (some none) = none
tail_entry jw ip (some (some rid)) = if equal_ip ip (jw.heap rid).remote_ip then some rid else none

unfoldable pub tail_request : Jaws → ℕ → Addr → Option ℕ
unfolding tail_entry
tail_request jw key ip = tail_entry jw ip (jw.requests key)

-- The key in the path of a tail fetch.
unfoldable pub tail_key : Text → Option ℕ
unfolding Key.parse
tail_key path = elim (without_prefix path (codes "/jaws/.tail/")) [
  | none ↦ none
  | some s ↦ let (key, tail) = Key.parse s in elim tail [ [] ↦ some key | c ∷ cs ↦ none ]
]

-- An error of the write cancels the Request. The body is written only if it is not empty.
unfoldable pub after_write : Jaws → ℕ → ℕ → Text → Option Cause → Jaws
unfolding cancel_if_current
after_write jw key rid body none = jw
after_write jw key rid [] (some c) = jw
after_write jw key rid (b ∷ bs) (some c) = cancel_if_current jw key rid (some c)

unfoldable pub answer : Jaws → ℕ → Option ℕ → Option Cause → Jaws × Option Response
unfolding drain_tail_script write_tail_response after_write
answer jw key none err = (jw, none)
answer jw key (some rid) err =
    let (rq, b, sent) = drain_tail_script (jw.heap rid) in
    let response = write_tail_response b sent in
    (
      after_write (record jw { heap = update jw.heap rid rq }) key rid response.body err,
      some response,
    )

unfoldable pub serve_key : Jaws → Option ℕ → Addr → Option Cause → Jaws × Option Response
unfolding answer tail_request
serve_key jw none ip err = (jw, none)
serve_key jw (some key) ip err = answer jw key (tail_request jw key ip) err

-- serveTailScript: `none` is a path that it does not handle. `err` is the result of the write.
unfoldable pub serve_tail_script : Jaws → Text → Addr → Option Cause → Jaws × Option Response
unfolding serve_key tail_key
serve_tail_script jw path ip err = serve_key jw (tail_key path) ip err

-- What an answer leaves of a Request and of the map of keys.

drain_once-tailsent :
    (b : Bool) (rq : Request) → rq.tailsent ≡ b → (drain_once b rq).0.tailsent ≡ true
unfolding drain_once
drain_once-tailsent true rq h = h
drain_once-tailsent false rq h = refl

drain-tailsent : (rq : Request) → (drain_tail_script rq).0.tailsent ≡ true
unfolding drain_tail_script
drain-tailsent rq = drain_once-tailsent rq.tailsent rq refl

cancel_locked-tailsent :
    (rq : Request) (err : Option Cause) → (cancel_locked rq err).0.tailsent ≡ rq.tailsent
unfolding cancel_locked
cancel_locked-tailsent rq err = ground arith

-- Writing changes no drained flag and no key.
record Keeps (jw jw' : Jaws) : Type 0 where
  sent : (r : ℕ) → (jw'.heap r).tailsent ≡ (jw.heap r).tailsent
  keys : jw'.requests ≡ jw.requests

Keeps-refl : (jw : Jaws) → Keeps jw jw
Keeps-refl jw = record { sent = λ r. refl; keys = refl }

log_cause-Keeps : (jw jw' : Jaws) (c : Option Cause) → Keeps jw jw' → Keeps jw (log_cause jw' c)
unfolding log_cause
log_cause-Keeps jw jw' none k = k
log_cause-Keeps jw jw' (some c) k = record { sent = k.sent; keys = k.keys }

tailsent-update :
    (heap : ℕ → Request) (rid r : ℕ) (rq : Request)
    → rq.tailsent ≡ (heap rid).tailsent
    → (update heap rid rq r).tailsent ≡ (heap r).tailsent
tailsent-update heap rid r rq h = elim (Bool-cases (rid == r)) [
  | inl e ↦ rw e (h ∙ ap (λ x. (heap x).tailsent) (==→eq rid r e))
  | inr e ↦ rw e refl
]

cancel-Keeps : (jw : Jaws) (rid : ℕ) (err : Option Cause) → Keeps jw (cancel jw rid err)
unfolding cancel
cancel-Keeps jw rid err =
    let (rq, c) = cancel_locked (jw.heap rid) err in
    log_cause-Keeps jw (record jw { heap = update jw.heap rid rq }) c
      (record {
        sent = λ r. tailsent-update jw.heap rid r rq (cancel_locked-tailsent (jw.heap rid) err);
        keys = refl;
      })

after_write-Keeps :
    (jw : Jaws) (key rid : ℕ) (body : Text) (err : Option Cause)
    → Keeps jw (after_write jw key rid body err)
unfolding after_write cancel_if_current
after_write-Keeps jw key rid body none = Keeps-refl jw
after_write-Keeps jw key rid [] (some c) = Keeps-refl jw
after_write-Keeps jw key rid (b ∷ bs) (some c) =
    elim (Bool-cases (is_entry (jw.requests key) rid)) [
      | inl e ↦ rw e (cancel-Keeps jw rid (some c))
      | inr e ↦ rw e (Keeps-refl jw)
    ]

-- The flag is set once an answer was given.
answer-tailsent :
    (jw : Jaws) (key rid : ℕ) (err : Option Cause)
    → (((answer jw key (some rid) err).0.heap rid).tailsent ≡ true)
      × ((answer jw key (some rid) err).0.requests ≡ jw.requests)
unfolding answer
answer-tailsent jw key rid err =
    let (rq, b, sent) = drain_tail_script (jw.heap rid) in
    let k =
      after_write-Keeps (record jw { heap = update jw.heap rid rq }) key rid
        (write_tail_response b sent).body err in
    (k.sent rid ∙ rw (==_refl rid) (drain-tailsent (jw.heap rid)), k.keys)

-- No answer, or one that says that there is nothing.
abbrev pub is_empty_answer : Option Response → Bool
is_empty_answer none = true
is_empty_answer (some r) = (r.status == 204) && is_nil r.body

nothing :
    (jw : Jaws) (key : ℕ) (err : Option Cause) (r : Response) → (answer jw key none err).1 ≢ some r
unfolding answer
nothing jw key err r h = cc

answer_again :
    (jw : Jaws) (key rid : ℕ) (err : Option Cause)
    → (jw.heap rid).tailsent ≡ true
    → is_empty_answer (answer jw key (some rid) err).1 ≡ true
unfolding answer drain_tail_script drain_once write_tail_response
answer_again jw key rid err h =
    ap
      (λ b.
        let (rq, t, sent) = drain_once b (jw.heap rid) in
        is_empty_answer (some (write_tail_response t sent)))
      h

-- From which addresses a Request is drained, and how often.

tail_entry_lem :
    (jw : Jaws) (ip : Addr) (entry : Option (Option ℕ)) (rid : ℕ)
    → tail_entry jw ip entry ≡ some rid
    → (entry ≡ some (some rid)) × (equal_ip ip (jw.heap rid).remote_ip ≡ true)
unfolding tail_entry
tail_entry_lem jw ip none rid h = absurd (cc)
tail_entry_lem jw ip (some none) rid h = absurd (cc)
tail_entry_lem jw ip (some (some r)) rid h = elim (Bool-cases (equal_ip ip (jw.heap r).remote_ip)) [
  | inl e ↦
      let same : r ≡ rid = ground (arith, h, e) in
      (ap (λ x. some (some x)) same, ap (λ x. equal_ip ip (jw.heap x).remote_ip) (sym same) ∙ e)
  | inr e ↦ absurd (ground (arith, h, e))
]

serve_again :
    (jw : Jaws) (key : ℕ) (ip' : Addr) (err err' : Option Cause) (rid : ℕ)
    → jw.requests key ≡ some (some rid)
    → is_empty_answer (serve_key (answer jw key (some rid) err).0 (some key) ip' err').1 ≡ true
unfolding serve_key tail_request
serve_again jw key ip' err err' rid h =
    let jw' = (answer jw key (some rid) err).0 in
    let (sent, keys) = answer-tailsent jw key rid err in
    elim (Option-cases (tail_entry jw' ip' (jw'.requests key))) [
      | inl e ↦ ap (λ o. is_empty_answer (answer jw' key o err').1) e ∙ unfold answer in refl
      | inr (r, e) ↦
          let found = (tail_entry_lem jw' ip' (jw'.requests key) r e).0 in
          let same : some (some rid) ≡ some (some r) = sym h ∙ sym (ap (λ f. f key) keys) ∙ found in
          let q : rid ≡ r = ground (arith, same) in
          ap (λ o. is_empty_answer (answer jw' key o err').1) e
          ∙ answer_again jw' key r err' (ap (λ x. (jw'.heap x).tailsent) (sym q) ∙ sent)
    ]

answered :
    (jw : Jaws) (key : Option ℕ) (ip ip' : Addr) (err err' : Option Cause) (r : Response)
    → (serve_key jw key ip err).1 ≡ some r
    → (k : ℕ) × (rid : ℕ) × (key ≡ some k)
      × (jw.requests k ≡ some (some rid))
      × (equal_ip ip (jw.heap rid).remote_ip ≡ true)
      × (is_empty_answer (serve_key (serve_key jw key ip err).0 key ip' err').1 ≡ true)
unfolding serve_key tail_request
answered jw none ip ip' err err' r h = absurd (cc)
answered jw (some k) ip ip' err err' r h = elim (Option-cases (tail_request jw k ip)) [
  | inl e ↦ absurd (nothing jw k err r (ap (λ o. (answer jw k o err).1) (sym e) ∙ h))
  | inr (rid, e) ↦
      let (found, same) = tail_entry_lem jw ip (jw.requests k) rid e in
      (
        k,
        rid,
        refl,
        found,
        same,
        ap (λ o. is_empty_answer (serve_key (answer jw k o err).0 (some k) ip' err').1) e
            ∙ serve_again jw k ip' err err' rid found,
      )
]

-- Let a fetch be answered. Then its path holds the key of a Request that is in the map of keys, the fetch comes from the address of that Request, and a second fetch of the same path, from whatever address and with whatever result of the writes, is not answered or is answered with 204 and no body.
pub serve_tail_script_lem :
    (jw : Jaws) (path : Text) (ip ip' : Addr) (err err' : Option Cause) (r : Response)
    → (serve_tail_script jw path ip err).1 ≡ some r
    → (k : ℕ) × (rid : ℕ) × (tail_key path ≡ some k)
      × (jw.requests k ≡ some (some rid))
      × (equal_ip ip (jw.heap rid).remote_ip ≡ true)
      × (is_empty_answer (serve_tail_script (serve_tail_script jw path ip err).0 path ip' err').1
          ≡ true)
unfolding serve_tail_script
serve_tail_script_lem jw path ip ip' err err' r h = answered jw (tail_key path) ip ip' err err' r h
