-- ===== src/Examples/Loops.antt =====
-- The loops of a Jaws and of a Request, the calls of handlers, and start tags at concrete inputs.
use jaws.Base.{
  ◌≤◌, List, [], ◌∷◌, ◌++◌, none, some, true, false, ◌==◌, if◌then◌else◌, length, contains, ◌≡◌,
  refl, arith,
}
use jaws.Strconv.{Text}
use jaws.Bytes.{codes}
use jaws.What.{What}
use jaws.Jid.{pos}
use jaws.Request.{Request, Cause}
use jaws.Events.{Call}
use jaws.Broadcast.{Message, nowhere}
use jaws.Distribution
use jaws.Distribution.{Channel, subscribes, broadcasts, receives, ticks, unsubscribes, begin, step}
use jaws.Distribution.NoLoss.{Fate}
use jaws.Distribution.Trace.{begin_trace, AreAllowed}
use jaws.Distribution.Trace
use jaws.Distribution.Lossless.{follow_all-lossless}
use jaws.Dispatch.{App, unhandled, failed, invoke}
use jaws.Dispatch.Fifo
use jaws.Dispatch.Fifo.{IsInOrder, start, offers, rounds, cancelled, follow_all-IsInOrder}
use jaws.Html.{append_html_tag}
use jaws.Html.Reader.{read_start_tag}
use jaws.Html.Tags.{append_html_tag-read_start_tag, identity, given}
use jaws.Examples.Texts.{floats}
use jaws.Examples.Visits.{visited}
use jaws.Examples.Pages.{page}

abbrev alert : Message
alert = record { dest = nowhere; what = What.alert; text = codes "one" }

-- Room for one message: the second of three is too much.
abbrev crowded : List jaws.Distribution.Op
crowded =
    subscribes 0 1
    ∷ broadcasts alert (0 ∷ [])
    ∷ ticks 1 (0 ∷ [])
    ∷ broadcasts alert (0 ∷ [])
    ∷ broadcasts alert []
    ∷ receives 0
    ∷ unsubscribes 0
    ∷ []

follow_all-lossless_example :
    let t = Trace.follow_all (begin_trace visited) crowded in
    (t.state.panicked ≡ false)
    × (length (t.state.channels 0).buffer ≤ (t.state.channels 0).capacity)
    × Fate (contains t.state.subs 0) (t.state.channels 0) (t.meant 0) (t.got 0)
unfolding step
follow_all-lossless_example = follow_all-lossless visited crowded 0 (
  tt,
  (
    ((refl, tt), λ x. refl),
    (tt, (((refl, tt), λ x. refl), ((tt, λ x. refl), (omega arith, (tt, tt))))),
  ),
)

-- Every object handles input: 7 does not know the event, 8 fails.
abbrev app : App floats
app = record {
  is_finite = λ n. true;
  on_input = λ obj. some (λ e s. if obj == 7 then unhandled else failed 8);
  on_click = λ obj. none;
  on_context_menu = λ obj. none;
}

abbrev busy : Request
busy = record page { handlers = λ j. 8 ∷ 7 ∷ [] }

abbrev input : Call
input = record {
  elem = some 1;
  more = 2 ∷ [];
  seen_map = none;
  what = What.input;
  text = codes "x";
}

invoke_result : (invoke app busy input).called ≡ (1, some 7) ∷ (1, some 8) ∷ []
unfolding invoke
invoke_result = refl

follow_all-IsInOrder_example : IsInOrder (
    Fifo.follow_all app
      (λ r. codes "failed")
      5
      (start busy 1)
      (offers input ∷ offers input ∷ rounds ∷ cancelled Cause.request_overloaded ∷ rounds ∷ []))
unfolding jaws.Elements.append_dirty_tags jaws.Elements.tag_expanded jaws.Elements.new_element
follow_all-IsInOrder_example =
    follow_all-IsInOrder app (λ r. codes "failed") 5 busy 1
      (offers input ∷ offers input ∷ rounds ∷ cancelled Cause.request_overloaded ∷ rounds ∷ []) refl
      (tt, (tt, (tt, (tt, (tt, tt)))))

-- A value that would end the tag.
abbrev hostile : Text
hostile = codes "\"><script>&amp;"

append_html_tag-read_start_tag_example :
    read_start_tag
      (append_html_tag [] (pos 3) (codes "Input") (codes "text") hostile [] ++ codes "rest")
    ≡ some (
      record {
        name = codes "input";
        attributes =
            identity (pos 3)
            ++ (given (codes "type") (codes "text") ++ given (codes "value") hostile);
      },
      codes "rest",
    )
append_html_tag-read_start_tag_example =
    append_html_tag-read_start_tag (pos 3) (codes "Input") (codes "text") hostile (codes "rest")
      (refl, (refl, (refl, (refl, (refl, (refl, tt))))))
