-- ===== src/Commands/Ordering.antt =====
-- The ids in the payload of Order.
use jaws.Base.{
  ℕ, ◌≤◌, List, [], ◌∷◌, ◌++◌, map, append_assoc, append-nil, none, false, All, ◌≡◌, refl, sym, ap,
  ◌∙◌,
}
use jaws.Strconv.{Text, max_int64}
use jaws.Bytes.{split, split-part, split-whole}
use jaws.Jid
use jaws.Jid.{pos, parse_string}
use jaws.Jid.Codec.{append-string, contains-string, parse_string-string}
use jaws.What.{What}
use jaws.Request.{Request}
use jaws.Outbox.{queue, element_queue}
use jaws.Commands.{append_ids, order, queued}
use jaws.Commands.Children.{message}

glue : (b s r : Text) → ((b ++ b' ' ∷ []) ++ s) ++ r ≡ b ++ (b' ' ∷ (s ++ r))
glue b s r = simp append_assoc

append_ids_lem : (b : Text) (js : List ℕ) → append_ids b js ≡ b ++ append_ids [] js
unfolding append_ids
append_ids_lem b [] = sym (append-nil b)
append_ids_lem b (j ∷ js) =
    let s = Jid.string (pos j) in
    ap (λ t. append_ids t js) (append-string (b ++ b' ' ∷ []) j)
    ∙ append_ids_lem ((b ++ b' ' ∷ []) ++ s) js
    ∙ glue b s (append_ids [] js)
    ∙ ap (λ t. b ++ t)
        (sym (append_ids_lem (b' ' ∷ s) js)
          ∙ ap (λ t. append_ids t js) (sym (append-string (b' ' ∷ []) j)))

split-append_ids :
    (j : ℕ) (js : List ℕ)
    → split (append_ids (Jid.string (pos j)) js) b' '
      ≡ Jid.string (pos j) ∷ map (λ k. Jid.string (pos k)) js
unfolding append_ids
split-append_ids j [] = split-whole (Jid.string (pos j)) b' ' (contains-string j b' ' refl refl)
split-append_ids j (k ∷ ks) =
    let s = Jid.string (pos j) in
    let t = Jid.string (pos k) in
    ap (λ t. split t b' ')
      (ap (λ x. append_ids x ks) (append-string (s ++ b' ' ∷ []) k)
        ∙ append_ids_lem ((s ++ b' ' ∷ []) ++ t) ks
        ∙ glue s t (append_ids [] ks)
        ∙ ap (λ x. s ++ b' ' ∷ x) (sym (append_ids_lem t ks)))
    ∙ split-part (Jid.string (pos j)) (append_ids (Jid.string (pos k)) ks) b' '
        (contains-string j b' ' refl refl)
    ∙ ap (λ l. Jid.string (pos j) ∷ l) (split-append_ids k ks)

parse_each :
    (js : List ℕ)
    → All (λ k. k ≤ max_int64) js
    → map parse_string (map (λ k. Jid.string (pos k)) js) ≡ map pos js
parse_each [] h = refl
parse_each (j ∷ js) h = rw (parse_string-string j h.0, parse_each js h.1) refl

-- On an Element that is not deleted, Order of at least one id queues one message for the Element. Split at spaces, its data gives exactly the ids, in order, where each is at most 2^63 - 1.
pub order-ids :
    (rq : Request) (elem j : ℕ) (js : List ℕ)
    → rq.deleted elem ≡ false
    → All (λ k. k ≤ max_int64) (j ∷ js)
    → (data_text : Text) × (order rq elem (j ∷ js)
        ≡ (queue rq (message elem What.order data_text), none))
      × (map parse_string (split data_text b' ') ≡ map pos (j ∷ js))
unfolding order queued element_queue
order-ids rq elem j js d h =
    let s = append_ids (Jid.append [] (pos j)) js in
    (
      s,
      rw d refl,
      ap (λ t. map parse_string (split (append_ids t js) b' ')) (append-string [] j)
          ∙ ap (map parse_string) (split-append_ids j js)
          ∙ parse_each (j ∷ js) h,
    )
