-- ===== src/Admission/Tests.antt =====
-- The admission at concrete orders of calls: two slots, four callers.
use engine_web_adapter.Prelude.{ℕ, ◌≡◌, refl, Bool, false, none, [], ◌∷◌}
use engine_web_adapter.Admission.{
  Admission, admission, acquire, abort_waiter, admit_next, admit_waiting, release,
}
use engine_web_adapter.Admission.Line.{grants}
use engine_web_adapter.Admission.Steps.{acquires, aborts, releases, Reachable, made, moves}
use engine_web_adapter.Admission.Safe.{IsSound, Reachable-IsSound}
use engine_web_adapter.Admission.Once.{IsOnce, Reachable-IsOnce}

abbrev nobody : ℕ → Bool
nobody t = false

abbrev fresh : Admission
fresh = record {
  limit = 2;
  active = 0;
  queued = [];
  closed = false;
  reason = none;
  leases = [];
  settled = [];
  issued = 0;
}

-- Four calls, the third gives up, and the first lease is released: the fourth gets its slot.
abbrev four_calls : Admission
four_calls = acquire nobody (acquire nobody (acquire nobody (acquire nobody fresh)))

abbrev handed_on : Admission
handed_on = release nobody 0 (abort_waiter 2 four_calls)

handed_on_grants : grants (handed_on.settled) ≡ 0 ∷ 1 ∷ 3 ∷ []
unfolding acquire abort_waiter release admit_next admit_waiting
handed_on_grants = refl

fresh-Reachable : Reachable 2 fresh
unfolding admission
fresh-Reachable = made fresh refl

handed_on-Reachable : Reachable 2 handed_on
handed_on-Reachable =
    moves
      (moves
        (moves
          (moves (moves (moves fresh-Reachable (acquires nobody)) (acquires nobody))
            (acquires nobody))
          (acquires nobody))
        (aborts 2))
      (releases nobody 0)

Reachable-IsSound_example : IsSound handed_on
Reachable-IsSound_example = Reachable-IsSound handed_on-Reachable

Reachable-IsOnce_example : IsOnce handed_on
Reachable-IsOnce_example = Reachable-IsOnce handed_on-Reachable
