-- ===== src/FlacInput/Order.antt =====
-- src/stems/flac-input-slot.ts: the consumer reads the bytes that were published, in their order.
use engine_web_adapter.Prelude.{
  take-append_all, subarray-split, ℕ, ◌+◌, ◌-◌, ◌≤◌, ◌<◌, ◌≡◌, refl, sym, ap, subst, ◌∙◌, Bool,
  true, false, ◌&&◌, ◌==◌, ==_iff, leb, ltb, leb→le, if◌then◌else◌, if_elim, min, List, [], ◌++◌,
  append_assoc, append-nil, arith, length, take, drop, subarray,
}
use engine_web_adapter.Errors.{range_error, plain_error, ok}
use engine_web_adapter.SparseFormat.Sound.{ok_injective}
use engine_web_adapter.SparseFormat.Accept.{require_elim}
use engine_web_adapter.FlacInput.{
  Slot, SlotState, empty, full, eof, aborted, Read, bytes_read, at_eof, was_aborted, waited, fresh,
  publish, abort, read_full, read_state, read, slot_bytes, is_empty,
}

-- The published bytes that are left for the consumer, by the state.
abbrev Unread : SlotState → Slot → List ℕ → Type 0
Unread empty s rest = rest ≡ []
Unread eof s rest = rest ≡ []
Unread aborted s rest = Unit {0}
Unread full s rest =
    (rest ≡ subarray s.bytes s.offset s.byte_count)
    × (s.offset < s.byte_count)
    × (s.byte_count ≤ slot_bytes)

abbrev pub taken : Read → List ℕ
taken (bytes_read got) = got
taken at_eof = []
taken was_aborted = []
taken (waited asked) = []

-- The slot after any order of calls, with the bytes published and the bytes read so far.
pub data Flow (memory : List ℕ) : Slot → List ℕ → List ℕ → Type 0 where
  starts : Flow memory (fresh memory) [] []
  publishes :
      {s next : Slot} {published received : List ℕ} (chunk : List ℕ) (final : Bool)
      → Flow memory s published received
      → publish chunk final s ≡ ok next
      → Flow memory next (published ++ chunk) received
  reads :
      {s next : Slot} {published received : List ℕ} (room : ℕ) (x : Read)
      → Flow memory s published received
      → read room s ≡ ok (x, next)
      → Flow memory next published (received ++ taken x)
  aborts :
      {s : Slot} {published received : List ℕ}
      → Flow memory s published received
      → Flow memory (abort s) published received

Unread-empty :
    (st : SlotState) (s : Slot) (rest : List ℕ) → is_empty st ≡ true → Unread st s rest → rest ≡ []
Unread-empty empty s rest e u = u
Unread-empty full s rest e u = absurd (cc)
Unread-empty eof s rest e u = absurd (cc)
Unread-empty aborted s rest e u = absurd (cc)

-- One read takes its bytes off the front of what is left.
abbrev Takes : List ℕ → Read × Slot → Type 0
Takes rest r = (later : List ℕ) × (taken r.0 ++ later ≡ rest) × Unread r.1.state r.1 later

after_last : (b : Bool) (s : Slot) → Unread (if b then eof else empty) s []
after_last true s = refl
after_last false s = refl

read_full-Takes :
    (room : ℕ) (s : Slot) (rest : List ℕ) (r : Read × Slot)
    → 1 ≤ room
    → s.state ≡ full
    → Unread full s rest
    → read_full room s ≡ ok r
    → Takes rest r
unfolding read_full
read_full-Takes room s rest r some_room at_ (left, early, small) e =
    let copied : ℕ = min room (s.byte_count - s.offset) in
    require_elim (leb 1 s.byte_count && (leb s.byte_count slot_bytes && ltb s.offset s.byte_count))
      plain_error _ e
      λ _ e1. subst (Takes rest) (sym (ok_injective e1)) (
        if_elim
          (λ next. Takes rest (bytes_read (subarray s.bytes s.offset (s.offset + copied)), next))
          (s.offset + copied == s.byte_count)
          (λ done. (
            [],
            append-nil (subarray s.bytes s.offset (s.offset + copied))
                ∙ ap (subarray s.bytes s.offset) ((==_iff (s.offset + copied) s.byte_count).0 done)
                ∙ sym left,
            after_last s.final (record s {
              refill_requested = false;
              offset = 0;
              byte_count = 0;
              final = false;
              state = if s.final then eof else empty;
            }),
          ))
          (λ more. (
            subarray s.bytes (s.offset + copied) s.byte_count,
            subarray-split s.bytes s.offset copied s.byte_count (omega arith) ∙ sym left,
            subst
                (λ st.
                  Unread st (record s { refill_requested = false; offset = s.offset + copied })
                    (subarray s.bytes (s.offset + copied) s.byte_count))
                (sym at_) (refl, ground arith, small),
          )))

read_state-Takes :
    (st : SlotState) (room : ℕ) (s : Slot) (rest : List ℕ) (r : Read × Slot)
    → 1 ≤ room
    → s.state ≡ st
    → Unread st s rest
    → read_state st room s ≡ ok r
    → Takes rest r
unfolding read_state
read_state-Takes empty room s rest r some_room at_ u e =
    subst (Takes rest) (sym (ok_injective e))
      (rest, refl, subst (λ st. Unread st (record s { refill_requested = true }) rest) (sym at_) u)
read_state-Takes eof room s rest r some_room at_ u e =
    subst (Takes rest) (sym (ok_injective e))
      (rest, refl, subst (λ st. Unread st s rest) (sym at_) u)
read_state-Takes aborted room s rest r some_room at_ u e =
    subst (Takes rest) (sym (ok_injective e))
      (rest, refl, subst (λ st. Unread st s rest) (sym at_) u)
read_state-Takes full room s rest r some_room at_ u e =
    read_full-Takes room s rest r some_room at_ u e

read-Takes :
    (room : ℕ) (s : Slot) (rest : List ℕ) (r : Read × Slot)
    → Unread s.state s rest
    → read room s ≡ ok r
    → Takes rest r
unfolding read
read-Takes room s rest r u e =
    require_elim (leb 1 room) range_error _ e
      λ some_room e1. read_state-Takes s.state room s rest r (leb→le 1 room some_room) refl u e1

publish-Unread :
    (chunk : List ℕ) (final : Bool) (s next : Slot)
    → publish chunk final s ≡ ok next
    → (is_empty s.state ≡ true) × Unread next.state next chunk
unfolding publish
publish-Unread chunk final s next e =
    require_elim (leb 1 (length chunk) && leb (length chunk) slot_bytes) range_error _ e λ sized e1.
      require_elim (is_empty s.state) plain_error _ e1 λ idle e2. (
        idle,
        subst (λ n. Unread n.state n chunk) (sym (ok_injective e2))
            (
              sym (take-append_all chunk (drop (0 + length chunk) s.bytes))
                  ∙ ap (λ n. take n (chunk ++ drop (0 + length chunk) s.bytes)) (omega arith),
              ground arith,
              ground arith,
            ),
      )

-- The bytes read so far, with those that the slot still holds, are the bytes published.
abbrev pub IsOrdered : Slot → List ℕ → List ℕ → Type 0
IsOrdered s published received =
    (rest : List ℕ) × (received ++ rest ≡ published) × Unread s.state s rest

-- In every order of publications, reads and aborts that succeed, the bytes read are the bytes
-- published, in order and without a gap, up to what is unread: nothing in the empty and in the final
-- state, and the published range from the offset on in the full state.
pub Flow-IsOrdered :
    {memory : List ℕ} {s : Slot} {published received : List ℕ}
    → Flow memory s published received
    → IsOrdered s published received
unfolding abort
Flow-IsOrdered starts = ([], refl, refl)
Flow-IsOrdered
      (publishes {s = s} {next = next} {published = published} {received = received} chunk final f
        e) =
    let (rest, joined, u) = Flow-IsOrdered f in
    let (idle, stored) = publish-Unread chunk final s next e in
    let none_left = Unread-empty s.state s rest idle u in
    (
      chunk,
      ap (λ r. r ++ chunk)
          (sym (append-nil received) ∙ ap (λ r. received ++ r) (sym none_left) ∙ joined),
      stored,
    )
Flow-IsOrdered
      (reads {s = s} {next = next} {published = published} {received = received} room x f e) =
    let (rest, joined, u) = Flow-IsOrdered f in
    let (later, split, u2) = read-Takes room s rest (x, next) u e in
    (later, append_assoc received (taken x) later ∙ ap (λ r. received ++ r) split ∙ joined, u2)
Flow-IsOrdered (aborts f) = let (rest, joined, u) = Flow-IsOrdered f in (rest, joined, tt)
