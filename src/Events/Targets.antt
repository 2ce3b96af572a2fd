-- ===== src/Events/Targets.antt =====
-- The loop over the route adds each target once, in order of first occurrence.
use jaws.Base.{
  ℕ, List, [], ◌∷◌, ◌++◌, Option, none, some, Bool, true, if◌then◌else◌, contains, contains-append,
  ◌≡◌, refl, sym, ap, ◌∙◌, arith,
}
use jaws.Strconv.{Text}
use jaws.Jid.{parse_string}
use jaws.What.{What}
use jaws.Request.{Request}
use jaws.Elements.{split_tabs}
use jaws.Elements.Collect.{add_unseen}
use jaws.Events.{
  Call, route_target, more_text, add_target, add_found, route, resolve, resolve_route, has_route,
}

-- The targets of a call, in order.
abbrev pub targets_of : Option ℕ → List ℕ → List ℕ
targets_of none more = more
targets_of (some d) more = d ∷ more

abbrev pub call_targets : Call → List ℕ
call_targets c = targets_of c.elem c.more

-- The set, once kept, holds the targets; there is no second target without a first.
record IsCoherent (c : Call) : Type 0 where
  lead : c.elem ≡ none → c.more ≡ []
  mirror : (s : List ℕ) → c.seen_map ≡ some s → (k : ℕ) → contains s k ≡ contains (call_targets c) k

add_target-targets :
    (c : Call) (e : ℕ) (rest : Bool) (d : Option ℕ) (s : Option (List ℕ))
    → c.elem ≡ d
    → c.seen_map ≡ s
    → IsCoherent c
    → call_targets (add_target c e rest)
      ≡ (if contains (call_targets c) e then call_targets c else call_targets c ++ e ∷ [])
unfolding add_target
add_target-targets c e rest none none p q v = ground (arith, v.lead)
add_target-targets c e rest none (some s) p q v = ground (arith, v.lead, v.mirror s q e)
add_target-targets c e rest (some d) none p q v = ground arith
add_target-targets c e rest (some d) (some s) p q v = ground (arith, v.mirror s q e)

mirror_after :
    (c : Call) (e : ℕ) (rest : Bool) (d : Option ℕ) (o : Option (List ℕ))
    → c.elem ≡ d
    → c.seen_map ≡ o
    → IsCoherent c
    → (s : List ℕ) → (add_target c e rest).seen_map ≡ some s
    → (k : ℕ) → contains s k ≡ contains (call_targets (add_target c e rest)) k
unfolding add_target
mirror_after c e rest none none p q v s h k = ground (arith, v.lead)
mirror_after c e rest none (some t) p q v s h k = ground (arith, v.lead, v.mirror t q k)
mirror_after c e rest (some d) none p q v s h k =
    ground (arith, contains-append c.more (e ∷ []) k, v.mirror s)
mirror_after c e rest (some d) (some t) p q v s h k =
    ground (arith, contains-append c.more (e ∷ []) k, v.mirror t q k)

elem_after :
    (c : Call) (e : ℕ) (rest : Bool) (d : Option ℕ)
    → c.elem ≡ d
    → IsCoherent c
    → (add_target c e rest).elem ≡ none
    → (add_target c e rest).more ≡ []
unfolding add_target
elem_after c e rest none p v h = ground (arith, v.lead)
elem_after c e rest (some d) p v h = ground arith

add_target-IsCoherent :
    (c : Call) (e : ℕ) (rest : Bool) → IsCoherent c → IsCoherent (add_target c e rest)
add_target-IsCoherent c e rest v = record {
  lead = elem_after c e rest c.elem refl v;
  mirror = mirror_after c e rest c.elem c.seen_map refl refl v;
}

abbrev pub to_list : Option ℕ → List ℕ
to_list none = []
to_list (some e) = e ∷ []

add_found-IsCoherent :
    (c : Call) (o : Option ℕ) (rest : Bool) → IsCoherent c → IsCoherent (add_found c o rest)
unfolding add_found
add_found-IsCoherent c none rest v = v
add_found-IsCoherent c (some e) rest v = add_target-IsCoherent c e rest v

add_found-targets :
    (c : Call) (o : Option ℕ) (rest : Bool)
    → IsCoherent c
    → call_targets (add_found c o rest) ≡ add_unseen (call_targets c) (to_list o)
unfolding add_found add_unseen
add_found-targets c none rest v = refl
add_found-targets c (some e) rest v = add_target-targets c e rest c.elem c.seen_map refl refl v

add_unseen-append :
    (seen xs ys : List ℕ) → add_unseen seen (xs ++ ys) ≡ add_unseen (add_unseen seen xs) ys
unfolding add_unseen
add_unseen-append seen [] ys = refl
add_unseen-append seen (x ∷ xs) ys =
    add_unseen-append (if contains seen x then seen else seen ++ x ∷ []) xs ys

-- What the loop takes for the targets of the fields, in order.
abbrev pub routed : Request → List Text → List ℕ
routed rq [] = []
routed rq (s ∷ ss) = to_list (route_target rq (parse_string s)) ++ routed rq ss

route-targets :
    (rq : Request) (c : Call) (ss : List Text)
    → IsCoherent c
    → call_targets (route rq c ss) ≡ add_unseen (call_targets c) (routed rq ss)
unfolding route
route-targets rq c [] v = unfold add_unseen in refl
route-targets rq c (s ∷ ss) v =
    let o = route_target rq (parse_string s) in
    let c' = add_found c o (more_text ss) in
    route-targets rq c' ss (add_found-IsCoherent c o (more_text ss) v)
    ∙ ap (λ seen. add_unseen seen (routed rq ss)) (add_found-targets c o (more_text ss) v)
    ∙ sym (add_unseen-append (call_targets c) (to_list o) (routed rq ss))

-- The fields behind the first.
abbrev pub rest_of : List Text → List Text
rest_of [] = []
rest_of (s ∷ ss) = ss

resolve_route-targets :
    (rq : Request) (w : What) (ss : List Text)
    → call_targets (resolve_route rq w ss) ≡ add_unseen [] (routed rq (rest_of ss))
unfolding resolve_route
resolve_route-targets rq w [] = unfold add_unseen in refl
resolve_route-targets rq w (s ∷ ss) =
    route-targets rq _ ss (record { lead = λ h. refl; mirror = λ s h. cc })

pub resolve-routed :
    (rq : Request) (w : What) (value : Text)
    → has_route w ≡ true
    → call_targets (resolve rq 0 w value) ≡ add_unseen [] (routed rq (rest_of (split_tabs value)))
unfolding resolve
resolve-routed rq w value h = rw h (resolve_route-targets rq w (split_tabs value))
