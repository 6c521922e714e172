-- ===== src/FlacInput.antt =====
-- src/stems/flac-input-slot.ts: the shared slot through which the main thread hands compressed bytes
-- to a decoder worker. A call of `publish` or `abort` and a round of `read` each run to their end
-- before another starts; an abort in the middle of a read is not modelled.
mod Order
mod Tests
use engine_web_adapter.Prelude.{
  ℕ, ◌+◌, ◌-◌, ◌*◌, Bool, true, false, ◌&&◌, not, leb, ltb, ◌==◌, if◌then◌else◌, min, List, [],
  length, subarray, set_at,
}
use engine_web_adapter.Errors.{range_error, plain_error, Result, ok, err, require, ◌>>=◌, ◌>>◌}

abbrev pub slot_bytes : ℕ
slot_bytes = 256 * 1024

-- The values of `control[STATE]`.
pub data SlotState : Type 0 where
  empty full eof aborted : SlotState

abbrev pub is_empty : SlotState → Bool
is_empty empty = true
is_empty full = false
is_empty eof = false
is_empty aborted = false

-- The two shared buffers, and the consumer's `#refillRequested`.
pub record Slot : Type 0 where
  pub state : SlotState
  pub byte_count : ℕ
  pub offset : ℕ
  pub final : Bool
  pub bytes : List ℕ
  pub refill_requested : Bool

-- Fresh buffers over a memory of the fixed size.
abbrev pub fresh : List ℕ → Slot
fresh memory = record {
  state = empty;
  byte_count = 0;
  offset = 0;
  final = false;
  bytes = memory;
  refill_requested = false;
}

-- `publish`.
unfoldable pub publish : List ℕ → Bool → Slot → Result Slot
publish chunk final s = do
  require (leb 1 (length chunk) && leb (length chunk) slot_bytes) range_error
  require (is_empty s.state) plain_error
  ok (record s {
    bytes = set_at s.bytes 0 chunk;
    offset = 0;
    byte_count = length chunk;
    final = final;
    state = full;
  })

-- `FlacInputSlotProducer.abort`.
unfoldable pub abort : Slot → Slot
abort s = record s { state = aborted }

-- `FlacInputReadResult`, or one round of the wait, with whether it asked for a refill.
pub data Read : Type 0 where
  bytes_read : List ℕ → Read
  at_eof was_aborted : Read
  waited : Bool → Read

-- The full state, for a target of `room` bytes.
unfoldable pub read_full : ℕ → Slot → Result (Read × Slot)
read_full room s =
    let copied = min room (s.byte_count - s.offset) in
    let got = bytes_read (subarray s.bytes s.offset (s.offset + copied)) in
    do
      require (leb 1 s.byte_count && (leb s.byte_count slot_bytes && ltb s.offset s.byte_count))
          plain_error
      ok (
        got,
        if s.offset + copied == s.byte_count
            then record s {
              refill_requested = false;
              offset = 0;
              byte_count = 0;
              final = false;
              state = if s.final then eof else empty;
            }
            else record s { refill_requested = false; offset = s.offset + copied },
      )

-- One round of the loop of `read`.
unfoldable pub read_state : SlotState → ℕ → Slot → Result (Read × Slot)
unfolding read_full
read_state aborted room s = ok (was_aborted, s)
read_state eof room s = ok (at_eof, s)
read_state empty room s = ok (waited (not s.refill_requested), record s { refill_requested = true })
read_state full room s = read_full room s

unfoldable pub read : ℕ → Slot → Result (Read × Slot)
unfolding read_state
read room s = do require (leb 1 room) range_error; read_state s.state room s
