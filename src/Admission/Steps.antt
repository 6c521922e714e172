-- ===== src/Admission/Steps.antt =====
-- src/stems/flac-admission.ts: the orders in which callers, abort signals, lease holders and the
-- closing can reach one `BoundedStemAdmission`. Each method runs to its end before another starts.
use engine_web_adapter.Prelude.{ℕ, ◌≡◌, Bool, some}
use engine_web_adapter.Admission.{Admission, admission, acquire, abort_waiter, release, close}

pub data Step (s : Admission) : Admission → Type 0 where
  acquires : (aborted : ℕ → Bool) → Step s (acquire aborted s)
  aborts : (t : ℕ) → Step s (abort_waiter t s)
  releases : (aborted : ℕ → Bool) (i : ℕ) → Step s (release aborted i s)
  closes : (why : ℕ) → Step s (close why s)

pub data Reachable (limit : ℕ) : Admission → Type 0 where
  made : (s : Admission) → admission limit ≡ some s → Reachable limit s
  moves : {s next : Admission} → Reachable limit s → Step s next → Reachable limit next
