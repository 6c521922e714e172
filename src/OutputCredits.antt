-- ===== src/OutputCredits.antt =====
-- src/stems/flac-output-credits.ts: the bounded output credits of one decoder worker, which takes one
-- at a time. `take` is a loop: each of its rounds takes a credit, ends or waits for a wake.
mod Sound
mod Tests
use engine_web_adapter.Prelude.{ℕ, ◌+◌, ◌-◌, Bool, true, false, leb, ◌==◌, if◌then◌else◌}
use engine_web_adapter.Errors.{Result, ok, err, plain_error}

abbrev pub output_credits : ℕ
output_credits = 2

-- The fields of the class; `waiting` tells whether `#wake` is set.
pub record Credits : Type 0 where
  pub available : ℕ
  pub waiting : Bool
  pub cancelled : Bool

abbrev pub credits : Credits
credits = record { available = output_credits; waiting = false; cancelled = false }

-- `give`, with whether it calls the wake.
unfoldable pub give : Credits → Result (Credits × Bool)
give s =
    if s.cancelled
    then ok (s, false)
    else if leb output_credits s.available
    then err plain_error
    else ok (record s { available = s.available + 1; waiting = false }, s.waiting)

-- `cancel`.
unfoldable pub cancel : Credits → Credits × Bool
cancel s =
    if s.cancelled then (s, false) else (record s { cancelled = true; waiting = false }, s.waiting)

-- How a round of the loop of `take` ends: with true, with false, or with a wait.
pub data Round : Type 0 where
  taken refused waits : Round

unfoldable pub take_round : Credits → Credits × Round
take_round s =
    if s.cancelled
    then (s, refused)
    else if s.available == 0
    then (record s { waiting = true }, waits)
    else (record s { available = s.available - 1 }, taken)
