-- ===== src/Events/Receivers.antt =====
-- Only live Elements of the registry that are frozen receive an event.
use jaws.Base.{
  All, contains-All, ℕ, zero, suc, List, [], ◌∷◌, Option, none, some, true, false, ◌==◌, contains,
  contains-append, Distinct, Above, ◌≡◌, refl, ap, ◌∙◌, ◌++◌, not, ◌&&◌, if◌then◌else◌,
  contains_below, arith, Bool-cases, inl, inr,
}
use jaws.Strconv.{Text}
use jaws.Jid.{Jid, pos, negsuc, parse_string}
use jaws.What.{What}
use jaws.Request.{Request}
use jaws.Elements.{get_element_by_jid, split_tabs}
use jaws.Elements.Search.{get_element_by_jid-contains}
use jaws.Elements.Collection.{contains-add_unseen, Distinct-add_unseen}
use jaws.Elements.Collect.{add_unseen}
use jaws.Events.{eligible, route_target, resolve, has_route}
use jaws.Events.Targets.{call_targets, targets_of, to_list, routed, rest_of, resolve-routed}

-- A registered Element that is not deleted and has its handlers sealed.
pub record IsReceiver (rq : Request) (k : ℕ) : Type 0 where
  pub registered : contains rq.elems k ≡ true
  pub live : rq.deleted k ≡ false
  pub sealed : rq.frozen k ≡ true

module _ (rq : Request) (sorted : Above 0 rq.elems) where
  found-IsReceiver :
      (id k : ℕ)
      → contains (to_list (eligible rq (get_element_by_jid rq id))) k ≡ true
      → IsReceiver rq k
  found-IsReceiver id k =
      rw (get_element_by_jid-contains rq id sorted) (elim (Bool-cases (contains rq.elems id)) [
        | inl e ↦
            unfold eligible in
            λ h. record {
              registered = ground (arith, e, h);
              live = ground (arith, e, h);
              sealed = ground (arith, e, h);
            }
        | inr e ↦ unfold eligible in λ h. absurd (ground (arith, e, h))
      ])

  route_target-IsReceiver :
      (id : Jid) (k : ℕ) → contains (to_list (route_target rq id)) k ≡ true → IsReceiver rq k
  route_target-IsReceiver (negsuc n) k = unfold route_target in λ h. absurd (cc)
  route_target-IsReceiver (pos id) k = elim (Bool-cases (id == 0)) [
    | inl e ↦ unfold route_target in rw e (λ h. absurd (cc))
    | inr e ↦ unfold route_target in rw e (found-IsReceiver id k)
  ]

  routed-IsReceiver : (ss : List Text) (k : ℕ) → contains (routed rq ss) k ≡ true → IsReceiver rq k
  routed-IsReceiver [] k h = absurd (cc)
  routed-IsReceiver (s ∷ ss) k h =
      let o = to_list (route_target rq (parse_string s)) in
      elim (Bool-cases (contains o k)) [
        | inl e ↦ route_target-IsReceiver (parse_string s) k e
        | inr e ↦ routed-IsReceiver ss k (ground (arith, e, h, contains-append o (routed rq ss) k))
      ]

  to_list-Distinct : (o : Option ℕ) → Distinct (to_list o)
  to_list-Distinct none = tt
  to_list-Distinct (some e) = (refl, tt)

targets_of-nil : (o : Option ℕ) → targets_of o [] ≡ to_list o
targets_of-nil none = refl
targets_of-nil (some e) = refl

-- While the list of Elements ascends, whatever the browser sends, an event goes to registered, live, frozen Elements only, and to none
-- of them twice.
pub resolve-IsReceiver :
    (rq : Request) (j : ℕ) (w : What) (value : Text)
    → Above 0 rq.elems
    → Distinct (call_targets (resolve rq j w value))
      × All (IsReceiver rq) (call_targets (resolve rq j w value))
resolve-IsReceiver rq zero w value sorted = elim (Bool-cases (has_route w)) [
  | inl e ↦ rw (resolve-routed rq w value e) (
    Distinct-add_unseen [] (routed rq (rest_of (split_tabs value))) tt,
    contains-All (IsReceiver rq) (add_unseen [] (routed rq (rest_of (split_tabs value)))) λ k.
        rw (contains-add_unseen [] (routed rq (rest_of (split_tabs value))) k)
          (routed-IsReceiver rq sorted (rest_of (split_tabs value)) k),
  )
  | inr e ↦ unfold resolve in rw e (tt, tt)
]
resolve-IsReceiver rq (suc j) w value sorted =
    unfold resolve in
    rw (targets_of-nil (eligible rq (get_element_by_jid rq (suc j)))) (
      to_list-Distinct rq sorted (eligible rq (get_element_by_jid rq (suc j))),
      contains-All (IsReceiver rq) (to_list (eligible rq (get_element_by_jid rq (suc j))))
          (found-IsReceiver rq sorted (suc j)),
    )

-- The Element of a field of a route: it must be registered, live and frozen.
abbrev pub receiver : Request → Jid → List ℕ
receiver rq (negsuc n) = []
receiver rq (pos id) =
    if contains rq.elems id && not (rq.deleted id) && rq.frozen id then id ∷ [] else []

abbrev pub receivers : Request → List Text → List ℕ
receivers rq [] = []
receivers rq (s ∷ ss) = receiver rq (parse_string s) ++ receivers rq ss

module _ (rq : Request) (sorted : Above 0 rq.elems) where
  route_target-receiver : (id : Jid) → to_list (route_target rq id) ≡ receiver rq id
  unfolding route_target eligible
  route_target-receiver (negsuc n) = refl
  route_target-receiver (pos id) =
      let none_at_zero = contains_below 0 rq.elems 0 sorted (omega arith) in
      ground (arith, get_element_by_jid-contains rq id sorted, none_at_zero)

  routed-receivers : (ss : List Text) → routed rq ss ≡ receivers rq ss
  routed-receivers [] = refl
  routed-receivers (s ∷ ss) = rw (route_target-receiver (parse_string s), routed-receivers ss) refl

-- While the list of Elements ascends, a click or a context menu event that is sent for no Element goes
-- to the Elements that the fields of its route name, as far as they are registered, not deleted and
-- frozen, each once in order of first occurrence. (The set that long routes switch to changes nothing.)
pub resolve-targets :
    (rq : Request) (w : What) (value : Text)
    → Above 0 rq.elems
    → has_route w ≡ true
    → call_targets (resolve rq 0 w value)
      ≡ add_unseen [] (receivers rq (rest_of (split_tabs value)))
resolve-targets rq w value sorted h =
    resolve-routed rq w value h
    ∙ ap (add_unseen []) (routed-receivers rq sorted (rest_of (split_tabs value)))
