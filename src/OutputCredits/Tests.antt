-- ===== src/OutputCredits/Tests.antt =====
-- src/stems/flac-output-credits.ts: a worker that takes both credits and sleeps in a third take.
use engine_web_adapter.Prelude.{◌≡◌, refl, Bool, true, false}
use engine_web_adapter.Errors.{ok, err, plain_error}
use engine_web_adapter.OutputCredits.{Credits, credits, give, cancel, taken, refused, take_round}
use engine_web_adapter.OutputCredits.Sound.{
  resting, sleeping, woken, System, roused, Reachable, starts, stepped, takes, IsBalanced,
  Reachable-IsBalanced, sleeper-wakes,
}

abbrev begun : System
begun = record { state = credits; taker = resting; held = 0 }

abbrev third_take : System
third_take = record {
  state = record { available = 0; waiting = true; cancelled = false };
  taker = sleeping;
  held = 2;
}

third_take-Reachable : Reachable third_take
unfolding take_round
third_take-Reachable =
    stepped
      (stepped (stepped starts (takes begun refl)) (
        takes (record { state = record credits { available = 1 }; taker = resting; held = 1 })
          refl))
      (takes (record { state = record credits { available = 0 }; taker = resting; held = 2 }) refl)

overflow_refused : give credits ≡ err plain_error
unfolding give
overflow_refused = refl

Reachable-IsBalanced_example : IsBalanced third_take
Reachable-IsBalanced_example = Reachable-IsBalanced third_take-Reachable

sleeper-wakes_example :
    ((r : Credits × Bool) × (give third_take.state ≡ ok r)
      × (roused r.1 sleeping ≡ woken)
      × ((take_round r.0).1 ≡ taken))
    × (roused (cancel third_take.state).1 sleeping ≡ woken)
    × ((take_round (cancel third_take.state).0).1 ≡ refused)
sleeper-wakes_example = sleeper-wakes third_take-Reachable refl
