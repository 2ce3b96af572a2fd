-- ===== src/Logger/Delivery.antt =====
-- What the logger queue delivers once it is closed.
use jaws.Base.{
  ℕ, zero, suc, ◌+◌, ◌<◌, ◌≤◌, List, [], ◌∷◌, ◌++◌, append_assoc, append-nil, length, length-append,
  none, some, Bool, true, false, if◌then◌else◌, ◌≡◌, refl, sym, ap, ◌∙◌, subst, arith, Bool-cases,
  inl, inr,
}
use jaws.Logger.{Item, Op, logs, closes, rounds, run, start}
use jaws.Logger.Spec
use jaws.Logger.Refine.{run-delivered}

-- The errors that are logged before the queue is closed, with a logger.
unfoldable pub accepted : List Op → List Item
accepted [] = []
accepted (logs none err ∷ os) = accepted os
accepted (logs (some logger) none ∷ os) = accepted os
accepted (logs (some logger) (some err) ∷ os) = (logger, err) ∷ accepted os
accepted (closes ∷ os) = []
accepted (rounds ∷ os) = accepted os

abbrev pub repeat_rounds : ℕ → List Op
repeat_rounds zero = []
repeat_rounds (suc n) = rounds ∷ repeat_rounds n

abbrev total : Spec.Log → List Item
total l = l.delivered ++ l.waiting

deliver_lem :
    (l : Spec.Log) (items : List Item) → l.waiting ≡ items → total (Spec.deliver l items) ≡ total l
unfolding Spec.deliver
deliver_lem l [] h = refl
deliver_lem l (i ∷ is) h = ground (arith, h, append_assoc l.delivered (i ∷ []) is)

closed-deliver : (l : Spec.Log) (items : List Item) → (Spec.deliver l items).closed ≡ l.closed
unfolding Spec.deliver
closed-deliver l [] = refl
closed-deliver l (i ∷ is) = refl

closed_rounds : (l : Spec.Log) (b : Bool) → l.closed ≡ b → (Spec.step l rounds).closed ≡ b
unfolding Spec.step
closed_rounds l b h = elim (Bool-cases l.done) [
  | inl d ↦ ap (λ x. (if x then l else Spec.deliver l l.waiting).closed) d ∙ h
  | inr d ↦
      ap (λ x. (if x then l else Spec.deliver l l.waiting).closed) d
      ∙ closed-deliver l l.waiting
      ∙ h
]

total-rounds : (l : Spec.Log) → total (Spec.step l rounds) ≡ total l
unfolding Spec.step
total-rounds l = elim (Bool-cases l.done) [
  | inl d ↦ ap (λ x. total (if x then l else Spec.deliver l l.waiting)) d
  | inr d ↦
      ap (λ x. total (if x then l else Spec.deliver l l.waiting)) d ∙ deliver_lem l l.waiting refl
]

-- Once the log is closed, nothing is added.
total_closed : (l : Spec.Log) (ops : List Op) → l.closed ≡ true → total (Spec.run l ops) ≡ total l
unfolding Spec.run Spec.step
total_closed l [] h = refl
total_closed l (logs none err ∷ os) h = total_closed l os h
total_closed l (logs (some logger) none ∷ os) h = total_closed l os h
total_closed l (logs (some logger) (some err) ∷ os) h = ground (arith, h, total_closed l os h)
total_closed l (closes ∷ os) h = total_closed (record l { closed = true }) os refl
total_closed l (rounds ∷ os) h =
    total_closed (Spec.step l rounds) os (closed_rounds l true h) ∙ total-rounds l

total_open :
    (l : Spec.Log) (ops : List Op)
    → l.closed ≡ false
    → total (Spec.run l ops) ≡ total l ++ accepted ops
unfolding Spec.run Spec.step accepted
total_open l [] h = sym (append-nil (total l))
total_open l (logs none err ∷ os) h = total_open l os h
total_open l (logs (some logger) none ∷ os) h = total_open l os h
total_open l (logs (some logger) (some err) ∷ os) h =
    let k = record l { waiting = l.waiting ++ (logger, err) ∷ [] } in
    ap (λ b. total (Spec.run (if b then l else k) os)) h
    ∙ total_open k os h
    ∙ ground (
      arith,
      append_assoc l.delivered l.waiting ((logger, err) ∷ []),
      append_assoc (total l) ((logger, err) ∷ []) (accepted os),
    )
total_open l (closes ∷ os) h =
    total_closed (record l { closed = true }) os refl ∙ sym (append-nil (total l))
total_open l (rounds ∷ os) h =
    total_open (Spec.step l rounds) os (closed_rounds l false h)
    ∙ ap (λ t. t ++ accepted os) (total-rounds l)

accepted-append_closes : (ops rest : List Op) → accepted (ops ++ closes ∷ rest) ≡ accepted ops
unfolding accepted
accepted-append_closes [] rest = refl
accepted-append_closes (logs none err ∷ os) rest = accepted-append_closes os rest
accepted-append_closes (logs (some logger) none ∷ os) rest = accepted-append_closes os rest
accepted-append_closes (logs (some logger) (some err) ∷ os) rest =
    ap (λ l. (logger, err) ∷ l) (accepted-append_closes os rest)
accepted-append_closes (closes ∷ os) rest = refl
accepted-append_closes (rounds ∷ os) rest = accepted-append_closes os rest

run-append : (l : Spec.Log) (xs ys : List Op) → Spec.run l (xs ++ ys) ≡ Spec.run (Spec.run l xs) ys
unfolding Spec.run
run-append l [] ys = refl
run-append l (x ∷ xs) ys = run-append (Spec.step l x) xs ys

-- Only a closed log is done, with nothing left, and no more errors wait than calls were made.
record IsOrderly (n : ℕ) (l : Spec.Log) : Type 0 where
  emptied : if l.done then (l.waiting ≡ []) × (l.closed ≡ true) else Unit
  few : length l.waiting ≤ n

logs-IsOrderly :
    (n : ℕ) (w d : List Item) (c f : Bool) (logger err : ℕ)
    → IsOrderly n (record { waiting = w; closed = c; delivered = d; done = f })
    → IsOrderly (suc n) (
        Spec.step
          (record { waiting = w; closed = c; delivered = d; done = f })
          (logs (some logger) (some err)))
unfolding Spec.step
logs-IsOrderly n w d true f logger err h = record {
  emptied = h.emptied;
  few = omega (arith, h.few);
}
logs-IsOrderly n w d false true logger err h = record {
  emptied = absurd (ground (arith, h.emptied.1));
  few = omega (arith, h.few, length-append w ((logger, err) ∷ []));
}
logs-IsOrderly n w d false false logger err h = record {
  emptied = tt;
  few = omega (arith, h.few, length-append w ((logger, err) ∷ []));
}

rounds-IsOrderly :
    (n : ℕ) (w d : List Item) (c f : Bool)
    → IsOrderly n (record { waiting = w; closed = c; delivered = d; done = f })
    → IsOrderly
        (suc n)
        (Spec.step (record { waiting = w; closed = c; delivered = d; done = f }) rounds)
unfolding Spec.step Spec.deliver
rounds-IsOrderly n w d c true h = record { emptied = h.emptied; few = omega (arith, h.few) }
rounds-IsOrderly n [] d true false h = record { emptied = (refl, refl); few = omega arith }
rounds-IsOrderly n [] d false false h = record { emptied = tt; few = omega arith }
rounds-IsOrderly n (i ∷ w) d c false h = record { emptied = tt; few = omega (arith, h.few) }

closes-IsOrderly :
    (n : ℕ) (w d : List Item) (c f : Bool)
    → IsOrderly n (record { waiting = w; closed = c; delivered = d; done = f })
    → IsOrderly (suc n) (record { waiting = w; closed = true; delivered = d; done = f })
closes-IsOrderly n w d c true h = record {
  emptied = (h.emptied.0, refl);
  few = omega (arith, h.few);
}
closes-IsOrderly n w d c false h = record { emptied = tt; few = omega (arith, h.few) }

step-IsOrderly : (n : ℕ) (l : Spec.Log) (o : Op) → IsOrderly n l → IsOrderly (suc n) (Spec.step l o)
unfolding Spec.step
step-IsOrderly n l (logs none err) h = record { emptied = h.emptied; few = omega (arith, h.few) }
step-IsOrderly n l (logs (some logger) none) h = record {
  emptied = h.emptied;
  few = omega (arith, h.few);
}
step-IsOrderly n l (logs (some logger) (some err)) h =
    logs-IsOrderly n l.waiting l.delivered l.closed l.done logger err h
step-IsOrderly n l closes h = closes-IsOrderly n l.waiting l.delivered l.closed l.done h
step-IsOrderly n l rounds h = rounds-IsOrderly n l.waiting l.delivered l.closed l.done h

run-IsOrderly :
    (n : ℕ) (l : Spec.Log) (ops : List Op)
    → IsOrderly n l
    → IsOrderly (length ops + n) (Spec.run l ops)
unfolding Spec.run
run-IsOrderly n l [] h = record { emptied = h.emptied; few = omega (arith, h.few) }
run-IsOrderly n l (o ∷ os) h =
    subst (λ k. IsOrderly k (Spec.run (Spec.step l o) os)) (omega arith)
      (run-IsOrderly (suc n) (Spec.step l o) os (step-IsOrderly n l o h))

-- Enough rounds after the close deliver everything.
finish_done : (n : ℕ) (l : Spec.Log) → l.done ≡ true → Spec.run l (repeat_rounds n) ≡ l
unfolding Spec.run Spec.step
finish_done zero l h = refl
finish_done (suc n) l h =
    ap (λ b. Spec.run (if b then l else Spec.deliver l l.waiting) (repeat_rounds n)) h
    ∙ finish_done n l h

finish :
    (n : ℕ) (w d : List Item) (f : Bool)
    → length w < n
    → IsOrderly (length w) (record { waiting = w; closed = true; delivered = d; done = f })
    → Spec.run (record { waiting = w; closed = true; delivered = d; done = f }) (repeat_rounds n)
      ≡ record { waiting = []; closed = true; delivered = d ++ w; done = true }
unfolding Spec.run Spec.step Spec.deliver
finish n [] d true l h =
    finish_done n (record { waiting = []; closed = true; delivered = d; done = true }) refl
    ∙ ap (λ x. record { waiting = []; closed = true; delivered = x; done = true })
        (sym (append-nil d))
finish n (i ∷ w) d true l h = absurd (ground (arith, h.emptied.0))
finish zero w d false l h = absurd (omega arith)
finish (suc n) [] d false l h =
    finish_done n (record { waiting = []; closed = true; delivered = d; done = true }) refl
    ∙ ap (λ x. record { waiting = []; closed = true; delivered = x; done = true })
        (sym (append-nil d))
finish (suc n) (i ∷ w) d false l h =
    finish n w (d ++ i ∷ []) false (omega arith) (record { emptied = tt; few = omega arith })
    ∙ ap (λ x. record { waiting = []; closed = true; delivered = x; done = true })
        (append_assoc d (i ∷ []) w)

finish_log :
    (n : ℕ) (l : Spec.Log) (m : ℕ)
    → length l.waiting < n
    → IsOrderly m l
    → l.closed ≡ true
    → Spec.run l (repeat_rounds n)
      ≡ record { waiting = []; closed = true; delivered = total l; done = true }
finish_log n l m h o c =
    ap
      (λ b.
        Spec.run
          (record { waiting = l.waiting; closed = b; delivered = l.delivered; done = l.done })
          (repeat_rounds n))
      c
    ∙ finish n l.waiting l.delivered l.done h (record {
      emptied = (closes-IsOrderly m l.waiting l.delivered l.closed l.done o).emptied;
      few = omega arith;
    })

run_all :
    (ops : List Op) (k : ℕ)
    → Spec.run Spec.start (ops ++ closes ∷ repeat_rounds (suc (length ops + k))) ≡ record {
      waiting = [];
      closed = true;
      delivered = total (Spec.run Spec.start ops);
      done = true;
    }
unfolding Spec.run Spec.step
run_all ops k =
    let n = length ops + k in
    let l = Spec.run Spec.start ops in
    let o = run-IsOrderly 0 Spec.start ops (record { emptied = tt; few = omega arith }) in
    run-append Spec.start ops (closes ∷ repeat_rounds (suc n))
    ∙ finish_log (suc n) (Spec.step l closes) (suc (length ops + 0)) (omega (arith, o.few))
        (step-IsOrderly (length ops + 0) l closes o) refl

-- After any sequence of calls of Logger.Error, close and rounds of the consumer, close and then more rounds than there were calls deliver exactly the errors that were logged, with a logger, before the first close, in order, and the consumer is done.
pub close-delivered :
    (ops : List Op) (k : ℕ)
    → let s = run start (ops ++ closes ∷ repeat_rounds (suc (length ops + k))) in
      (s.delivered ≡ accepted ops) × (s.done ≡ true)
close-delivered ops k =
    let all = ops ++ closes ∷ repeat_rounds (suc (length ops + k)) in
    let agree = run-delivered all in
    let final = run_all ops k in
    let amount =
      total_open Spec.start all refl
      ∙ accepted-append_closes ops (repeat_rounds (suc (length ops + k))) in
    (
      agree.0
          ∙ sym (append-nil (Spec.run Spec.start all).delivered)
          ∙ ap (λ w. (Spec.run Spec.start all).delivered ++ w) (sym (ap (λ l. l.waiting) final))
          ∙ amount,
      agree.1 ∙ ap (λ l. l.done) final,
    )
