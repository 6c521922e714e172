-- ===== src/Admission.antt =====
-- src/stems/flac-admission.ts, `BoundedStemAdmission`: the FIFO that bounds the decodes and the
-- verifications that run at once. The promises that `acquire` hands out are numbered in the order
-- of the calls (tickets), and the leases in the order in which `#lease` makes them.
mod Live
mod Line
mod Count
mod Steps
mod Safe
mod Once
mod Tests
use engine_web_adapter.Prelude.{
  ℕ, zero, suc, ◌+◌, ◌-◌, Bool, true, false, ltb, ◌==◌, if◌then◌else◌, Option, none, some, List, [],
  ◌∷◌, ◌++◌, map, get_elem?, length,
}

-- How a promise is settled: resolved with a lease, rejected as cancelled, or rejected with the
-- reason of the closing.
pub data Outcome : Type 0 where
  granted cancelled : Outcome
  refused : Option ℕ → Outcome

pub record Settled : Type 0 where
  pub ticket : ℕ
  pub outcome : Outcome

-- The fields of the class; `leases` holds the `released` flag of every lease, `settled` the
-- promises resolved or rejected so far, and `issued` the number of calls of `acquire`.
pub record Admission : Type 0 where
  pub limit : ℕ
  pub active : ℕ
  pub queued : List ℕ
  pub closed : Bool
  pub reason : Option ℕ
  pub leases : List Bool
  pub settled : List Settled
  pub issued : ℕ

-- The constructor, for a limit that its range test admits.
unfoldable pub admission : ℕ → Option Admission
admission limit =
    if ltb limit 1
    then none
    else some (record {
      limit = limit;
      active = 0;
      queued = [];
      closed = false;
      reason = none;
      leases = [];
      settled = [];
      issued = 0;
    })

-- Settles the promise of one ticket.
abbrev pub settle : Admission → ℕ → Outcome → Admission
settle s ticket outcome = record s {
  settled = s.settled ++ (record { ticket = ticket; outcome = outcome } ∷ []);
}

-- `#active += 1` with `resolve(this.#lease())`.
abbrev pub grant : Admission → ℕ → Admission
grant s ticket = record (settle s ticket granted) {
  active = s.active + 1;
  leases = s.leases ++ (false ∷ []);
}

abbrev pub refuse_all : Option ℕ → List ℕ → List Settled
refuse_all why [] = []
refuse_all why (w ∷ ws) = record { ticket = w; outcome = refused why } ∷ refuse_all why ws

-- `close`.
unfoldable pub close : ℕ → Admission → Admission
close why s = if s.closed then s else record s {
  closed = true;
  reason = some why;
  queued = [];
  settled = s.settled ++ refuse_all (some why) s.queued;
}

-- The three ways of `acquire`, for the ticket of the call.
unfoldable pub acquire : (ℕ → Bool) → Admission → Admission
acquire aborted before =
    let ticket = before.issued in
    let s = record before { issued = ticket + 1 } in
    if s.closed
    then settle s ticket (refused s.reason)
    else if aborted ticket
    then settle s ticket cancelled
    else if ltb s.active s.limit
    then grant s ticket
    else record s { queued = s.queued ++ (ticket ∷ []) }

-- `indexOf(waiter)` in the queue.
abbrev pub waits : ℕ → List ℕ → Bool
waits t [] = false
waits t (w ∷ ws) = if w == t then true else waits t ws

-- `splice(index, 1)` there.
abbrev pub without : ℕ → List ℕ → List ℕ
without t [] = []
without t (w ∷ ws) = if w == t then ws else w ∷ without t ws

-- The waiter's `abort` listener.
unfoldable pub abort_waiter : ℕ → Admission → Admission
abort_waiter t s =
    if waits t s.queued then settle (record s { queued = without t s.queued }) t cancelled else s

-- The loop of `#admitNext` over the queue: `shift`, then reject or grant.
unfoldable pub admit_waiting : (ℕ → Bool) → List ℕ → Admission → Admission
admit_waiting aborted [] s = record s { queued = [] }
admit_waiting aborted (w ∷ ws) s =
    let after = if aborted w then settle s w cancelled else grant s w in
    let rest = admit_waiting aborted ws after in
    if ltb s.active s.limit then rest else record s { queued = w ∷ ws }

unfoldable pub admit_next : (ℕ → Bool) → Admission → Admission
admit_next aborted s = if s.closed then s else admit_waiting aborted s.queued s

-- `released = true` in one lease.
abbrev pub mark : ℕ → List Bool → List Bool
mark i [] = []
mark zero (flag ∷ flags) = true ∷ flags
mark (suc i) (flag ∷ flags) = flag ∷ mark i flags

-- `release` of the lease with number `i`.
unfoldable pub release : (ℕ → Bool) → ℕ → Admission → Admission
release aborted i s = elim (get_elem? s.leases i) [
  | none ↦ s
  | some true ↦ s
  | some false ↦ admit_next aborted (record s { leases = mark i s.leases; active = s.active - 1 })
]
