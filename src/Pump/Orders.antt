-- ===== src/Pump/Orders.antt =====
-- src/stems/pump.ts: the constructor, and the orders in which the methods of the pump run.
use engine_web_adapter.Prelude.{ℕ, ◌≡◌, false, Option, some, List, get_elem?}
use engine_web_adapter.Errors.{ok}
use engine_web_adapter.Pump.{RingOps, Source, Flight}
use engine_web_adapter.Pump.Settling.{Delivers}
use engine_web_adapter.Pump.Drive.{
  Pump, PumpSource, open_pump, schedule_reads, pass_writes, pump_pass, settle_read, time_out,
  seek_frames, close,
}

module _ {R : Type 0} (ops : RingOps R) (pcm : ℕ → List ℕ) where
  -- One thing that happens to a pump. A pass that waits for reads is `waits`, what happens meanwhile,
  -- and `writes`; a read settles with its bytes, where `Delivers` says which these are, or fails.
  pub data Step : Pump R → Pump R → Type 0 where
    passes : (p : Pump R) (r : Pump R × ℕ × ℕ) → pump_pass ops p ≡ ok r → Step p r.0
    waits : (p : Pump R) → Step p (schedule_reads ops p)
    writes :
        (p : Pump R) (r : Pump R × ℕ × ℕ)
        → p.stopped ≡ false
        → pass_writes ops p ≡ ok r
        → Step p r.0
    settles :
        (p : Pump R) (i : ℕ) (s : Source R) (f : Flight) (outcome : Option (List ℕ))
        → get_elem? p.states i ≡ some s
        → s.reading ≡ some f
        → Delivers ops pcm s f outcome
        → Step p (settle_read ops p i s f outcome)
    times_out : (p : Pump R) → Step p (time_out ops p)
    seeks : (p next : Pump R) (target : ℕ) → seek_frames ops p target ≡ ok next → Step p next
    closes : (p : Pump R) → Step p (close ops p)

  -- A pump that the constructor made, after some steps.
  pub data Reachable : Pump R → Type 0 where
    opened :
        (window_frames generation : ℕ) (sources : List (PumpSource R)) (p : Pump R)
        → open_pump ops window_frames generation sources ≡ ok p
        → Reachable p
    stepped : (p q : Pump R) → Reachable p → Step p q → Reachable q
