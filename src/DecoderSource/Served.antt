-- ===== src/DecoderSource/Served.antt =====
-- src/stems/decoder-byte-source.ts: what the source over ranges gives its decoder.
use engine_web_adapter.Prelude.{
  ℕ, zero, suc, ◌+◌, ◌-◌, ◌≤◌, ◌<◌, ◌≡◌, refl, sym, ap, subst, ◌∙◌, inl, inr, Bool, true, false,
  ◌||◌, not, leb, ltb, ◌==◌, if_elim, Bool-cases, Option, none, some, List, [], ◌++◌, append-nil,
  arith, length, min, subarray, subarray-split,
}
use engine_web_adapter.Errors.{Result, ok, err}
use engine_web_adapter.Json.{is_safe}
use engine_web_adapter.FlacInput.{slot_bytes}
use engine_web_adapter.FlacMetadata.{probe_bytes, max_blocks, Scanner, scanner, accept_header}
use engine_web_adapter.FlacStreamInfo.{StreamInfo, Expectation, parse_stream_info}
use engine_web_adapter.DecoderSource.{Operation, preparing, reading, done, failed}
use engine_web_adapter.DecoderSource.Finite.{Chunk, Prepared}
use engine_web_adapter.DecoderSource.Verified.{returned}
use engine_web_adapter.DecoderSource.Prepare.{frames_of}
use engine_web_adapter.DecoderSource.Ranged.{
  RangePhase, probe_phase, metadata_phase, audio_phase, Delivery, Ranged, ranged, Ended, then_do,
  as_failure, answered, call, scan_headers, check_suffix, prepare_ranged, take_range, read_ranged,
  finish_ranged,
}

-- What a delivery promises: bytes of the right count are those of the range of the object.
abbrev pub IsHonest : Delivery → List ℕ → Type 0
IsHonest range object =
    (n : ℕ) (phase : RangePhase) (start end : ℕ) (bytes : List ℕ) (total : ℕ)
    → range n phase start end ≡ some (bytes, total)
    → length bytes ≡ end + 1 - start
    → bytes ≡ subarray object start (end + 1)

-- A source after any preparations, reads and finishes, with the bytes returned so far.
pub data Reads (range : Delivery) (expected : Option Expectation) : Ranged → List ℕ → Type 0 where
  begins : Reads range expected ranged []
  prepares :
      {s : Ranged} {received : List ℕ}
      → Reads range expected s received
      → Reads range expected (prepare_ranged range expected s).1 received
  reads :
      {s : Ranged} {received : List ℕ} (maximum : ℕ)
      → Reads range expected s received
      → Reads range expected
          (read_ranged range expected maximum s).1
          (received ++ returned (read_ranged range expected maximum s).0)
  finishes :
      {s : Ranged} {received : List ℕ}
      → Reads range expected s received
      → Reads range expected (finish_ranged range expected s).1 received

-- The bytes returned are one stretch of the object, up to the offset, and the offset stays within
-- the size.
pub record IsServed (object : List ℕ) (s : Ranged) (received : List ℕ) : Type 0 where
  pub start : ℕ
  pub order : start ≤ s.offset
  pub served : received ≡ subarray object start s.offset
  pub idle : s.prepared ≡ false → received ≡ []
  pub inside : s.prepared ≡ true → s.offset ≤ s.total_bytes

subarray_none : (object : List ℕ) (at_ : ℕ) → [] ≡ subarray object at_ at_
subarray_none object at_ = let nothing : at_ - at_ ≡ 0 = omega arith in rw nothing refl

stretch :
    (object : List ℕ) (start mid stop : ℕ)
    → start ≤ mid
    → mid ≤ stop
    → subarray object start mid ++ subarray object mid stop ≡ subarray object start stop
stretch object start mid stop before after =
    let there : start + (mid - start) ≡ mid = omega arith in
    subst (λ n. subarray object start n ++ subarray object n stop ≡ subarray object start stop)
      there (subarray-split object start (mid - start) stop (omega arith))

-- The size of a range that the tests let pass.
asked_size :
    (size maximum asked : ℕ)
    → (ltb size 1 || (ltb maximum size || not (size == asked))) ≡ false
    → size ≡ asked
asked_size size maximum asked e = ground arith

credit_given :
    (prepared finished safe : Bool) (maximum offset total : ℕ)
    → (not prepared
        || (finished
            || ((not safe || (ltb maximum 1 || ltb slot_bytes maximum)) || leb total offset)))
      ≡ false
    → (prepared ≡ true) × (1 ≤ maximum) × (offset < total)
credit_given prepared finished safe maximum offset total e = ground arith

record IsUnready (s : Ranged) : Type 0 where
  unready : s.prepared ≡ false

record IsInside (s : Ranged) : Type 0 where
  inside : s.prepared ≡ true → s.offset ≤ s.total_bytes

module _ (range : Delivery) (expected : Option Expectation) where
  unready-IsInside : (s : Ranged) → IsUnready s → IsInside s
  unready-IsInside s u = record { inside = λ ready. let e = u.unready in absurd (cc) }

  then_do-keeps :
      {A B : Type 0} (P Q : Ranged → Type 0) (m : Ended A) (rest : A → Ranged → Ended B)
      → ((t : Ranged) → P t → Q t)
      → P m.1
      → ((a : A) (t : Ranged) → P t → Q (rest a t).1)
      → Q (then_do m rest).1
  then_do-keeps P Q (failed operation, s) rest weaker h next = weaker s h
  then_do-keeps P Q (done a, s) rest weaker h next = next a s h

  answered_same :
      (P : Ranged → Type 0) (operation : Operation) (r : Option (List ℕ × ℕ)) (s : Ranged)
      → P s
      → P (answered operation r s).1
  answered_same P operation none s h = h
  answered_same P operation (some r) s h = h

  as_failure_same :
      {A : Type 0} (P : Ranged → Type 0) (r : Result A) (s : Ranged) → P s → P (as_failure r s).1
  as_failure_same P (ok a) s h = h
  as_failure_same P (err thrown) s h = h

  scan_headers-IsUnready :
      (fuel : ℕ) (scan : Scanner) (s : Ranged)
      → IsUnready s
      → IsUnready (scan_headers range expected fuel scan s).1
  unfolding scan_headers
  scan_headers-IsUnready zero scan s h = h
  scan_headers-IsUnready (suc fuel) scan s h =
      if_elim (λ (a : Ended (Unit {0})). IsUnready a.1) scan.complete (λ e. h)
        (λ e.
          then_do-keeps IsUnready IsUnready
            (call range expected preparing metadata_phase scan.next_offset (scan.next_offset + 3) s)
            _ (λ t u. u)
            (answered_same IsUnready preparing
              (range s.calls metadata_phase scan.next_offset (scan.next_offset + 3))
              (record s { calls = s.calls + 1 }) (record { unready = h.unready }))
            λ (result : List ℕ × ℕ) s1 h1.
              then_do-keeps IsUnready IsUnready
                (as_failure (accept_header scan result.0 result.1) s1) _ (λ t u. u)
                (as_failure_same IsUnready (accept_header scan result.0 result.1) s1 h1)
                λ r s2 h2.
                  scan_headers-IsUnready fuel r.1 (record s2 { offset = (r.0).next_offset })
                    (record { unready = h2.unready }))

  check_suffix-IsInside :
      (info : StreamInfo) (s : Ranged)
      → IsUnready s
      → IsInside (check_suffix range expected info s).1
  unfolding check_suffix
  check_suffix-IsInside info s h =
      if_elim (λ (a : Ended Prepared). IsInside a.1)
        (leb s.total_bytes s.offset || (frames_of expected info == 0)) (λ e. unready-IsInside s h)
        (λ e. record { inside = λ ready. ground arith })

  prepare-IsInside : (s : Ranged) → IsUnready s → IsInside (prepare_ranged range expected s).1
  unfolding prepare_ranged
  prepare-IsInside s h =
      if_elim (λ (a : Ended Prepared). IsInside a.1) s.prepared (λ e. unready-IsInside s h)
        (λ e.
          if_elim (λ (a : Ended Prepared). IsInside a.1) s.finished (λ e. unready-IsInside s h)
            (λ e.
              then_do-keeps IsUnready IsInside
                (call range expected preparing probe_phase 0 (probe_bytes - 1) s) _ unready-IsInside
                (answered_same IsUnready preparing (range s.calls probe_phase 0 (probe_bytes - 1))
                  (record s { calls = s.calls + 1 }) (record { unready = h.unready }))
                λ (probe : List ℕ × ℕ) s1 h1.
                  then_do-keeps IsUnready IsInside
                    (as_failure (parse_stream_info probe.0 expected)
                      (record s1 { total_bytes = probe.1 }))
                    _ unready-IsInside
                    (as_failure_same IsUnready (parse_stream_info probe.0 expected)
                      (record s1 { total_bytes = probe.1 }) (record { unready = h1.unready }))
                    λ (parsed : StreamInfo × Bool) s2 h2.
                      then_do-keeps IsUnready IsInside
                        (scan_headers range expected max_blocks (scanner parsed.1)
                          (record s2 { offset = probe_bytes }))
                        _ unready-IsInside
                        (scan_headers-IsUnready max_blocks (scanner parsed.1)
                          (record s2 { offset = probe_bytes }) (record { unready = h2.unready }))
                        λ _ s3 h3. check_suffix-IsInside parsed.0 s3 h3))

module _ (range : Delivery) (expected : Option Expectation) (object : List ℕ)
    (honest : IsHonest range object) where
  prepared_again :
      (s : Ranged) → s.prepared ≡ true → prepare_ranged range expected s ≡ (failed preparing, s)
  unfolding prepare_ranged
  prepared_again s e = rw e refl

  prepare-IsServed :
      (s : Ranged) (received : List ℕ)
      → IsServed object s received
      → IsServed object (prepare_ranged range expected s).1 received
  prepare-IsServed s received h = elim (Bool-cases s.prepared) [
    | inl before ↦
        subst (λ (a : Ended Prepared). IsServed object a.1 received) (sym (prepared_again s before))
          h
    | inr first ↦
        let after : Ranged = (prepare_ranged range expected s).1 in
        record {
          start = after.offset;
          order = omega arith;
          served = h.idle first ∙ subarray_none object after.offset;
          idle = λ _. h.idle first;
          inside = (prepare-IsInside range expected s (record { unready = first })).inside;
        }
  ]

  take_range-IsServed :
      (maximum : ℕ) (s : Ranged) (received bytes : List ℕ) (total : ℕ)
      → s.prepared ≡ true
      → s.offset < s.total_bytes
      → 1 ≤ maximum
      → range s.calls audio_phase s.offset (s.offset + min maximum (s.total_bytes - s.offset) - 1)
        ≡ some (bytes, total)
      → IsServed object s received
      → let a =
          take_range range expected maximum
            (min maximum (s.total_bytes - s.offset))
            (bytes, total)
            (record s { calls = s.calls + 1 }) in
        IsServed object a.1 (received ++ returned a.0)
  unfolding take_range
  take_range-IsServed maximum s received bytes total ready left credit got h =
      let asked = min maximum (s.total_bytes - s.offset) in
      if_elim (λ (a : Ended Chunk). IsServed object a.1 (received ++ returned a.0))
        (ltb (length bytes) 1 || (ltb maximum (length bytes) || not (length bytes == asked)))
        (λ refused. record {
          start = h.start;
          order = h.order;
          served = append-nil received ∙ h.served;
          idle = λ e. append-nil received ∙ h.idle e;
          inside = h.inside;
        })
        (λ fits.
          let size = asked_size (length bytes) maximum asked fits in
          let whole : s.offset + asked - 1 + 1 ≡ s.offset + length bytes = omega arith in
          let content =
            honest s.calls audio_phase s.offset (s.offset + asked - 1) bytes total got (omega arith)
            ∙ ap (λ n. subarray object s.offset n) whole in
          record {
            start = h.start;
            order = omega (arith, h.order);
            served =
                ap (λ r. r ++ bytes) h.served
                ∙ ap (λ r. subarray object h.start s.offset ++ r) content
                ∙ stretch object h.start s.offset (s.offset + length bytes) h.order (omega arith);
            idle = λ e. absurd (cc);
            inside = λ _. omega arith;
          })

  answered-IsServed :
      (maximum : ℕ) (s : Ranged) (received : List ℕ) (r : Option (List ℕ × ℕ))
      → s.prepared ≡ true
      → s.offset < s.total_bytes
      → 1 ≤ maximum
      → range s.calls audio_phase s.offset (s.offset + min maximum (s.total_bytes - s.offset) - 1)
        ≡ r
      → IsServed object s received
      → let a = then_do (answered reading r (record s { calls = s.calls + 1 })) (λ result s1.
        take_range range expected maximum (min maximum (s.total_bytes - s.offset)) result s1) in
        IsServed object a.1 (received ++ returned a.0)
  answered-IsServed maximum s received none ready left credit got h = record {
    start = h.start;
    order = h.order;
    served = append-nil received ∙ h.served;
    idle = λ e. append-nil received ∙ h.idle e;
    inside = h.inside;
  }
  answered-IsServed maximum s received (some r) ready left credit got h =
      take_range-IsServed maximum s received r.0 r.1 ready left credit got h

  read-IsServed :
      (maximum : ℕ) (s : Ranged) (received : List ℕ)
      → IsServed object s received
      → IsServed object
          (read_ranged range expected maximum s).1
          (received ++ returned (read_ranged range expected maximum s).0)
  unfolding read_ranged
  read-IsServed maximum s received h =
      if_elim (λ (a : Ended Chunk). IsServed object a.1 (received ++ returned a.0))
        (not s.prepared
          || (s.finished
              || ((not (is_safe maximum) || (ltb maximum 1 || ltb slot_bytes maximum))
                  || leb s.total_bytes s.offset)))
        (λ refused. subst (IsServed object s) (sym (append-nil received)) h)
        (λ open_.
          let (ready, credit, left) =
            credit_given s.prepared s.finished (is_safe maximum) maximum s.offset s.total_bytes
              open_ in
          answered-IsServed maximum s received
            (range s.calls audio_phase s.offset
              (s.offset + min maximum (s.total_bytes - s.offset) - 1))
            ready left credit refl h)

  finish-IsServed :
      (s : Ranged) (received : List ℕ)
      → IsServed object s received
      → IsServed object (finish_ranged range expected s).1 received
  unfolding finish_ranged
  finish-IsServed s received h =
      if_elim (λ (a : Ended (Unit {0})). IsServed object a.1 received) (not s.prepared) (λ e. h)
        (λ e.
          if_elim (λ (a : Ended (Unit {0})). IsServed object a.1 received) s.finished (λ e. h)
            (λ e. record {
              start = h.start;
              order = h.order;
              served = h.served;
              idle = h.idle;
              inside = h.inside;
            }))

  -- Over a delivery that answers a range with its bytes or with a wrong count of them, what a source
  -- has returned is at every time one stretch of the object, without gap or overlap, up to its
  -- offset, which stays within the size of the object.
  pub Reads-IsServed :
      {s : Ranged} {received : List ℕ}
      → Reads range expected s received
      → IsServed object s received
  Reads-IsServed begins = record {
    start = 0;
    order = omega arith;
    served = subarray_none object 0;
    idle = λ _. refl;
    inside = λ e. absurd (cc);
  }
  Reads-IsServed (prepares {s = s} {received = received} r) =
      prepare-IsServed s received (Reads-IsServed r)
  Reads-IsServed (reads {s = s} {received = received} maximum r) =
      read-IsServed maximum s received (Reads-IsServed r)
  Reads-IsServed (finishes {s = s} {received = received} r) =
      finish-IsServed s received (Reads-IsServed r)
