-- ===== src/Examples/Visits.antt =====
-- One visitor of a new Jaws: the page, the WebSocket and the end.
use jaws.Base.{◌<◌, List, [], ◌∷◌, some, true, false, ◌≡◌, ◌≢◌, refl, arith, length}
use jaws.Addr.{Addr, addr_eq, equal_ip}
use jaws.Pool.{Jaws}
use jaws.Pool.Operations.{new_jaws, new_request}
use jaws.Pool.Service.{use_request, start_serve, close}
use jaws.Pool.Eviction.{limit_pending}
use jaws.Pool.Soundness.{IsSound, live_count}
use jaws.Pool.History.{
  Op, arrives, connects, serves, stops, releases, step, steps, steps-IsSound, steps-IsCapped,
}
use jaws.Pool.Once.{claimed_once, served_once, close-start_serve}
use jaws.Pool.Limit.{limit_pending_lem}
use jaws.Pool.Capacity.{IsCapped}

new_jaws-IsSound : IsSound new_jaws
unfolding new_jaws live_count
new_jaws-IsSound = record {
  named = λ r. refl;
  keyed = λ r h. absurd (omega (arith, h));
  entries = λ k r. refl;
  waiting = λ ip r. refl;
  once = λ ip. tt;
  counted = refl;
}

new_jaws-IsCapped : IsCapped new_jaws
unfolding new_jaws
new_jaws-IsCapped = λ ip. omega arith

abbrev pub visitor : Addr
visitor = Addr.v4 5

-- The page of the visitor under the key 9, with the second hand at 3.
abbrev arrival : Op
arrival = arrives visitor [] (9 ∷ []) 3 1000

abbrev pub visited : Jaws
visited = step new_jaws arrival

abbrev visit : List Op
visit = arrival ∷ connects 9 visitor ∷ serves 0 ∷ stops 0 2000 ∷ releases 9 ∷ arrival ∷ []

visited-IsSound : IsSound visited
visited-IsSound = steps-IsSound new_jaws (arrival ∷ []) new_jaws-IsSound

steps-IsSound_example : IsSound (steps new_jaws visit)
steps-IsSound_example = steps-IsSound new_jaws visit new_jaws-IsSound

steps-IsCapped_example : IsCapped (steps new_jaws visit)
unfolding new_jaws
steps-IsCapped_example =
    steps-IsCapped new_jaws visit new_jaws-IsSound (omega arith) new_jaws-IsCapped

handed_out : (use_request visited 9 visitor).1 ≡ some 0
unfolding use_request new_request new_jaws equal_ip
handed_out = refl

claimed_once_example :
    (use_request (steps (use_request visited 9 visitor).0 visit) 9 visitor).1 ≢ some 0
claimed_once_example = claimed_once visited 9 visitor 0 visit 9 visitor visited-IsSound handed_out

abbrev claimed : Jaws
claimed = step visited (connects 9 visitor)

claimed-IsSound : IsSound claimed
claimed-IsSound = steps-IsSound new_jaws (arrival ∷ connects 9 visitor ∷ []) new_jaws-IsSound

accepted : (start_serve claimed 0).1 ≡ true
unfolding start_serve use_request new_request new_jaws equal_ip
accepted = refl

served_once_example : (start_serve (steps (start_serve claimed 0).0 visit) 0).1 ≡ false
served_once_example = served_once claimed 0 visit claimed-IsSound accepted

close-start_serve_example : (start_serve (steps (close claimed (9 ∷ []) 3000) visit) 0).1 ≡ false
close-start_serve_example = close-start_serve claimed (9 ∷ []) 3000 visit 0 claimed-IsSound

-- A limit of one, with one Request pending.
abbrev full : Jaws
full = record visited { max_pending_requests_per_ip = 1 }

waiting : length (visited.pending visitor) ≡ 1
unfolding new_request new_jaws addr_eq
waiting = refl

limit_pending_example : length ((limit_pending 1 full visitor 5000).pending visitor) < 1
limit_pending_example =
    limit_pending_lem 1 full visitor 5000 visited-IsSound (omega arith) (omega (arith, waiting))
