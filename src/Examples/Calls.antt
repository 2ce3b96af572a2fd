-- ===== src/Examples/Calls.antt =====
-- The commands of Elements, the frames of the wire, the tail script and the logger queue at concrete inputs.
use jaws.Base.{
  ℕ, ◌≤◌, List, [], ◌∷◌, ◌++◌, map, none, some, true, not, ◌&&◌, ◌||◌, ◌==◌, if◌then◌else◌, length,
  delete_func, ◌⊎◌, ◌≡◌, refl, arith,
}
use jaws.Strconv.{Text, parse_uint}
use jaws.Bytes.{codes, split}
use jaws.Jid.{pos, parse_string}
use jaws.What.{What, what_eq}
use jaws.Request.{Request, ref, WsMsg}
use jaws.Elements.{get_element_by_jid, delete_element, new_element, tag_expanded, append_dirty_tags}
use jaws.Outbox.{queue, get_send_msgs}
use jaws.Outbox.Send.{addressed}
use jaws.Logger.{logs, closes, rounds, run, start}
use jaws.Logger.Spec
use jaws.Logger.Refine.{run-delivered}
use jaws.Logger.Delivery.{close-delivered, accepted, repeat_rounds}
use jaws.Commands.{child_id, insert_before, remove, order}
use jaws.Commands.Children.{remove_refused, is_child, is_reported, message}
use jaws.Commands.Removal.{remove_send}
use jaws.Commands.Reserved.{
  apply_all-Harmless, apply_all, Harmless, Command, sets_attr, removes_attr, removes,
}
use jaws.Commands.Ordering.{order-ids}
use jaws.Wire.{write_data, write_batch_limit}
use jaws.Wire.Frame.{write_data-fields, fields}
use jaws.Wire.Json.{is_utf8, read_json}
use jaws.Wire.Parse.{parse_msg}
use jaws.Wire.RoundTrip.{parse_msg-append_msg}
use jaws.Wire.{append_json_quote, append_msg}
use jaws.Tail.Serve.{Response, tail_key, serve_tail_script, serve_tail_script_lem, is_empty_answer}
use jaws.Addr.{equal_ip}
use jaws.Key
use jaws.Examples.Visits.{visited, visitor}
use jaws.Examples.Pages.{page, page-IsConsistent}

-- Two errors, with one that is not taken between them, one delivery, and one error after the close.
abbrev history : List jaws.Logger.Op
history =
    logs (some 1) (some 5)
    ∷ logs none (some 6)
    ∷ rounds
    ∷ logs (some 2) (some 7)
    ∷ closes
    ∷ logs (some 1) (some 8)
    ∷ []

run-delivered_example :
    ((run start history).delivered ≡ (Spec.run Spec.start history).delivered)
    × ((run start history).done ≡ (Spec.run Spec.start history).done)
run-delivered_example = run-delivered history

close-delivered_example :
    let s = run start (history ++ closes ∷ repeat_rounds 9) in
    (s.delivered ≡ accepted history) × (s.done ≡ true)
close-delivered_example = close-delivered history 2

remove_refused_example :
    let live = not (page.deleted 1) in
    let ok = live && is_child page 1 (ref 7 2) in
    ((insert_before page 1 (ref 7 2) (codes "<p>")).0 ≡ (
      if ok
      then queue page (message 1 What.insert (child_id (ref 7 2) ++ b'\n' ∷ codes "<p>"))
      else page))
    × ((remove page 1 (ref 7 2)).0 ≡ (
        if ok
        then delete_element (queue page (message 1 What.remove (child_id (ref 7 2)))) (ref 7 2)
        else page))
    × (is_reported (insert_before page 1 (ref 7 2) (codes "<p>")).1
        ≡ (live && not (is_child page 1 (ref 7 2))))
    × (is_reported (remove page 1 (ref 7 2)).1 ≡ (live && not (is_child page 1 (ref 7 2))))
remove_refused_example = remove_refused page 1 (ref 7 2) (codes "<p>") page-IsConsistent

remove_send_example :
    let page' = (remove page 1 (ref 7 2)).0 in
    (addressed 1 (get_send_msgs page').1
      ≡ addressed 1 (get_send_msgs page).1 ++ message 1 What.remove (child_id (ref 7 2)) ∷ [])
    × (addressed 2 (get_send_msgs page').1
        ≡ addressed 2 (
            delete_func page.ws_queue
              (λ m. not (what_eq m.what What.delete || what_eq m.what What.order))))
    × ((l : ℕ) → get_element_by_jid page' l ≡ (if l == 2 then none else get_element_by_jid page l))
unfolding new_element tag_expanded append_dirty_tags is_child
remove_send_example = remove_send page 1 2 page-IsConsistent refl refl

abbrev changes : List (ℕ × Command)
changes =
    (1, sets_attr (codes "ID") (codes "x"))
    ∷ (1, removes_attr (codes "hidden"))
    ∷ (1, removes (ref 7 2))
    ∷ []

apply_all-Harmless_example : Harmless (apply_all page changes)
unfolding new_element tag_expanded append_dirty_tags
apply_all-Harmless_example =
    apply_all-Harmless page changes (refl, (refl, (tt, tt))) (refl, (refl, (refl, tt)))

order-ids_example :
    (data_text : Text) × (order page 1 (3 ∷ 12 ∷ [])
      ≡ (queue page (message 1 What.order data_text), none))
    × (map parse_string (split data_text b' ') ≡ map pos (3 ∷ 12 ∷ []))
unfolding new_element tag_expanded append_dirty_tags
order-ids_example = order-ids page 1 3 (12 ∷ []) refl (omega arith, (omega arith, tt))

-- An alert with a newline, and a call.
abbrev alert : WsMsg
alert = record { data_text = codes "danger\nno"; jid = 0; what = What.alert }

abbrev call : WsMsg
call = record { data_text = codes "f=[1]"; jid = 3; what = What.call }

write_data-fields_example :
    let (b, rest) = write_data alert (call ∷ []) in
    (sent : List WsMsg) × (call ∷ [] ≡ sent ++ rest)
    × (map (λ l. split l b'\t') (split b b'\n') ≡ map fields (alert ∷ sent) ++ ([] ∷ []) ∷ [])
    × ((rest ≡ []) ⊎ (write_batch_limit ≤ length b))
write_data-fields_example = write_data-fields alert (call ∷ []) (tt, ((refl, refl), tt))

parse_msg-append_msg_example :
    (parse_msg read_json (append_msg [] alert) ≡ some alert)
    × (read_json (append_json_quote [] (codes "danger\nno")) ≡ some (codes "danger\nno"))
unfolding is_utf8
parse_msg-append_msg_example =
    parse_msg-append_msg read_json alert (λ s t h u. h) refl (omega arith) refl tt

-- A page whose queue holds a class to add and the new content of an Element.
abbrev rendered : Request
rendered = record page {
  ws_queue =
      record { data_text = codes "red"; jid = 1; what = What.s_class }
      ∷ record { data_text = codes "<b>"; jid = 2; what = What.inner }
      ∷ [];
}

abbrev tail_path : Text
tail_path = codes "/jaws/.tail/9"

abbrev reply : Response
reply = record {
  status = 200;
  headers =
      (codes "Cache-Control", codes "no-store")
      ∷ (codes "Content-Type", codes "text/javascript")
      ∷ [];
  body = [];
}

serve_tail_script_example :
    (k : ℕ) × (rid : ℕ) × (tail_key tail_path ≡ some k)
    × (visited.requests k ≡ some (some rid))
    × (equal_ip visitor (visited.heap rid).remote_ip ≡ true)
    × (is_empty_answer
          (serve_tail_script
            (serve_tail_script visited tail_path visitor none).0
            tail_path
            visitor
            none).1
        ≡ true)
unfolding serve_tail_script Key.parse parse_uint jaws.Pool.Operations.new_request
    jaws.Pool.Operations.new_jaws equal_ip
serve_tail_script_example =
    serve_tail_script_lem visited tail_path visitor visitor none none reply refl
