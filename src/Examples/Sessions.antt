-- ===== src/Examples/Sessions.antt =====
-- Sessions, their cookies and their end at concrete inputs.
use jaws.Base.{List, [], ◌∷◌, Option, none, some, ◌≡◌, ◌≢◌, refl, arith}
use jaws.Bytes.{codes, text_eq}
use jaws.Addr.{equal_ip}
use jaws.Pool.{Jaws}
use jaws.Pool.Operations.{new_jaws, new_request, attach}
use jaws.Pool.Sessions.{get_session}
use jaws.Pool.Closing.{broadcast_keys, close_session, new_session}
use jaws.Pool.Closed.{close_session_lem}
use jaws.Pool.History.{Op, step, steps}
use jaws.Pool.Endings.{close_session-get_session}
use jaws.Cookies.{get_cookie_sessions_ids, is_ascii_space}
use jaws.Cookies.Header.{Kept, headers}
use jaws.Cookies.RoundTrip.{get_cookie_sessions_ids-headers}
use jaws.Examples.Visits.{visitor}

abbrev jar : List Kept
jar = Kept.other (codes "a") (codes "1") ∷ Kept.own 1234 ∷ Kept.other (codes "jawsx") [] ∷ []

get_cookie_sessions_ids-headers_example :
    get_cookie_sessions_ids (headers (codes "jaws") (jar ∷ [])) (codes "jaws") ≡ 1234 ∷ []
unfolding text_eq is_ascii_space
get_cookie_sessions_ids-headers_example =
    get_cookie_sessions_ids-headers (codes "jaws") (jar ∷ [])
      (
        ((refl, omega arith), omega arith),
        (
          ((refl, omega arith), omega arith),
          (((refl, omega arith), omega arith), (((refl, omega arith), omega arith), tt)),
        ),
      )
      (
        (
          ((((refl, omega arith), omega arith), tt), ((refl, omega arith), tt), refl),
          (
            (omega arith, omega arith),
            (
              (
                (
                  ((refl, omega arith), omega arith),
                  (
                    ((refl, omega arith), omega arith),
                    (
                      ((refl, omega arith), omega arith),
                      (
                        ((refl, omega arith), omega arith),
                        (((refl, omega arith), omega arith), tt),
                      ),
                    ),
                  ),
                ),
                tt,
                refl,
              ),
              tt,
            ),
          ),
        ),
        tt,
      )

abbrev or_new : Option Jaws → Jaws
or_new none = new_jaws
or_new (some jw) = jw

-- A visitor with the Session 7 and a page that belongs to it.
abbrev arrival : Op
arrival = Op.arrives visitor (7 ∷ []) (9 ∷ []) 3 1000

abbrev attended : Jaws
attended = step (or_new (new_session new_jaws 0 (7 ∷ []) visitor 500)) arrival

attended_is : get_session attended (7 ∷ []) visitor 2000 ≡ some 0
unfolding get_session new_request new_session new_jaws attach equal_ip
attended_is = refl

close_session-get_session_example :
    get_session (steps (close_session attended 0).0 (arrival ∷ [])) (7 ∷ []) visitor 2000 ≢ some 0
close_session-get_session_example =
    close_session-get_session attended 0 (arrival ∷ []) (7 ∷ []) visitor 2000

close_session_lem_example : (close_session attended 0).1 ≡ broadcast_keys attended (0 ∷ []) 0
unfolding new_request new_session new_jaws attach equal_ip
close_session_lem_example = (close_session_lem attended 0 0 (refl, tt)).1
