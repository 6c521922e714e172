-- ===== src/DecoderSource/Held.antt =====
-- src/stems/decoder-byte-source.ts: what the loops of the finite source keep.
use engine_web_adapter.Prelude.{
  ℕ, zero, suc, ◌-◌, ◌≡◌, refl, sym, subst, ◌∙◌, Bool, ◌&&◌, leb, ◌==◌, if_elim, List, [], ◌∷◌,
  ◌++◌, append_assoc, append-nil, length, min,
}
use engine_web_adapter.Errors.{Result, ok, err}
use engine_web_adapter.Json.{is_safe}
use engine_web_adapter.FlacInput.{slot_bytes}
use engine_web_adapter.FlacMetadata.{
  probe_bytes, max_blocks, Scanner, Header, scanner, accept_header,
}
use engine_web_adapter.FlacStreamInfo.{StreamInfo, parse_stream_info}
use engine_web_adapter.Sha256.Runs.{IsSha256}
use engine_web_adapter.DecoderSource.{done, failed}
use engine_web_adapter.DecoderSource.Finite.{
  Reply, Prepared, Cursor, Extent, After, and_then, pull, read_exact, skip_bytes, drain,
}
use engine_web_adapter.DecoderSource.Grown.{IsCursor, pull-Took}
use engine_web_adapter.DecoderSource.Prepare.{
  caught, aligned, scan_blocks, frames_of, pcm_bytes_of, check_audio, prepare,
}

-- A source that has hashed `taken` and more, with the same `prepared`.
pub record Held (x : Extent) (taken : List ℕ) (prepared : Bool) (t : Cursor) : Type 0 where
  pub more : List ℕ
  pub cursor : IsCursor x t (taken ++ more)
  pub kept : t.prepared ≡ prepared

module _ (x : Extent) (same : IsSha256 x.backend) (taken : List ℕ) (prepared : Bool) where
  abbrev Holds : Cursor → Type 0
  Holds = Held x taken prepared

  pull-Held :
      (maximum : ℕ) (replies : List Reply) (s : Cursor)
      → Holds s
      → Holds (pull x maximum replies s).2
  pull-Held maximum replies s h =
      let took = pull-Took x same maximum replies s (taken ++ h.more) h.cursor in
      record {
        more = h.more ++ took.more;
        cursor = subst (IsCursor x _) (append_assoc taken h.more took.more) took.cursor;
        kept = took.kept ∙ h.kept;
      }

  and_then-Holds :
      {A B : Type 0} (m : After A) (rest : A → List Reply → Cursor → After B)
      → Holds m.2
      → ((a : A) (replies : List Reply) (t : Cursor) → Holds t → Holds (rest a replies t).2)
      → Holds (and_then m rest).2
  and_then-Holds (failed operation, replies, s) rest h next = h
  and_then-Holds (done a, replies, s) rest h next = next a replies s h

  read_exact-Holds :
      (left : ℕ) (replies : List Reply) (s : Cursor)
      → Holds s
      → Holds (read_exact x left replies s).2
  unfolding read_exact
  read_exact-Holds left [] s h =
      if_elim (λ (a : After (List ℕ)). Holds a.2) (left == 0) (λ e. h) (λ e. h)
  read_exact-Holds left (reply ∷ replies) s h =
      if_elim (λ (a : After (List ℕ)). Holds a.2) (left == 0) (λ e. h)
        (λ e.
          and_then-Holds (pull x (min slot_bytes left) (reply ∷ replies) s) _
            (pull-Held (min slot_bytes left) (reply ∷ replies) s h)
            λ chunk _ s1 h1.
              and_then-Holds (read_exact x (left - length chunk.bytes) replies s1) _
                (read_exact-Holds (left - length chunk.bytes) replies s1 h1)
                λ more replies2 s2 h2. h2)

  skip_bytes-Holds :
      (left : ℕ) (replies : List Reply) (s : Cursor)
      → Holds s
      → Holds (skip_bytes x left replies s).2
  unfolding skip_bytes
  skip_bytes-Holds left [] s h =
      if_elim (λ (a : After (Unit {0})). Holds a.2) (left == 0) (λ e. h) (λ e. h)
  skip_bytes-Holds left (reply ∷ replies) s h =
      if_elim (λ (a : After (Unit {0})). Holds a.2) (left == 0) (λ e. h)
        (λ e.
          and_then-Holds (pull x (min slot_bytes left) (reply ∷ replies) s) _
            (pull-Held (min slot_bytes left) (reply ∷ replies) s h)
            λ chunk _ s1 h1. skip_bytes-Holds (left - length chunk.bytes) replies s1 h1)

  pub drain-Holds : (replies : List Reply) (s : Cursor) → Holds s → Holds (drain x replies s).2
  unfolding drain
  drain-Holds [] s h = if_elim (λ (a : After (Unit {0})). Holds a.2) s.source_done (λ e. h) (λ e. h)
  drain-Holds (reply ∷ replies) s h =
      if_elim (λ (a : After (Unit {0})). Holds a.2) s.source_done (λ e. h)
        (λ e.
          and_then-Holds (pull x slot_bytes (reply ∷ replies) s) _
            (pull-Held slot_bytes (reply ∷ replies) s h) λ chunk _ s1 h1. drain-Holds replies s1 h1)

  caught-Holds :
      {A : Type 0} (r : Result A) (replies : List Reply) (s : Cursor)
      → Holds s
      → Holds (caught r replies s).2
  caught-Holds (ok a) replies s h = h
  caught-Holds (err thrown) replies s h = h

  aligned-Holds :
      (offset : ℕ) (r : Header × Scanner) (replies : List Reply) (s : Cursor)
      → Holds s
      → Holds (aligned offset r replies s).2
  unfolding aligned
  aligned-Holds offset r replies s h =
      if_elim (λ (a : After (Header × Scanner)). Holds a.2) ((r.0).offset == offset) (λ e. h)
        (λ e. h)

  scan_blocks-Holds :
      (fuel : ℕ) (scan : Scanner) (replies : List Reply) (s : Cursor)
      → Holds s
      → Holds (scan_blocks fuel x scan replies s).2
  unfolding scan_blocks
  scan_blocks-Holds zero scan replies s h = h
  scan_blocks-Holds (suc fuel) scan replies s h =
      if_elim (λ (a : After (Unit {0})). Holds a.2) scan.complete (λ e. h)
        (λ e.
          and_then-Holds (read_exact x 4 replies s) _ (read_exact-Holds 4 replies s h)
            λ header replies1 s1 h1.
              and_then-Holds (caught (accept_header scan header x.total_bytes) replies1 s1) _
                (caught-Holds (accept_header scan header x.total_bytes) replies1 s1 h1)
                λ r replies2 s2 h2.
                  and_then-Holds (aligned s.offset r replies2 s2) _
                    (aligned-Holds s.offset r replies2 s2 h2)
                    λ r replies3 s3 h3.
                      and_then-Holds (skip_bytes x ((r.0).next_offset - s3.offset) replies3 s3) _
                        (skip_bytes-Holds ((r.0).next_offset - s3.offset) replies3 s3 h3)
                        λ _ replies4 s4 h4. scan_blocks-Holds fuel r.1 replies4 s4 h4)

-- A source that has hashed `taken` and more.
pub record Grew (x : Extent) (taken : List ℕ) (t : Cursor) : Type 0 where
  pub more : List ℕ
  pub cursor : IsCursor x t (taken ++ more)

module _ (x : Extent) (same : IsSha256 x.backend) (taken : List ℕ) (prepared : Bool) where
  Held-Grew : (t : Cursor) → Held x taken prepared t → Grew x taken t
  Held-Grew t h = record { more = h.more; cursor = h.cursor }

  and_then-Grew :
      {A B : Type 0} (m : After A) (rest : A → List Reply → Cursor → After B)
      → Held x taken prepared m.2
      → ((a : A) (replies : List Reply) (t : Cursor)
          → Held x taken prepared t
          → Grew x taken (rest a replies t).2)
      → Grew x taken (and_then m rest).2
  and_then-Grew (failed operation, replies, s) rest h next = Held-Grew s h
  and_then-Grew (done a, replies, s) rest h next = next a replies s h

  check_audio-Grew :
      (info : StreamInfo) (replies : List Reply) (s : Cursor)
      → Held x taken prepared s
      → Grew x taken (check_audio x info replies s).2
  unfolding check_audio
  check_audio-Grew info replies s h =
      let frames = frames_of x.expected info in
      let bytes = pcm_bytes_of x.expected info in
      let v = h.cursor in
      if_elim (λ (a : After Prepared). Grew x taken a.2) (leb x.total_bytes s.offset)
        (λ e. Held-Grew s h)
        (λ e.
          if_elim (λ (a : After Prepared). Grew x taken a.2)
            (is_safe frames && leb 1 frames && (is_safe bytes && leb 1 bytes))
            (λ fits. record {
              more = h.more;
              cursor = record {
                counted = v.counted;
                seen = v.seen;
                absorbed = v.absorbed;
                inside = v.inside;
                unfinished = v.unfinished;
              };
            })
            (λ unfit. Held-Grew s h))

  prepare-Held :
      (replies : List Reply) (s : Cursor)
      → Held x taken prepared s
      → Grew x taken (prepare x replies s).2
  unfolding prepare
  prepare-Held replies s h =
      if_elim (λ (a : After Prepared). Grew x taken a.2) s.prepared (λ e. Held-Grew s h)
        (λ e.
          if_elim (λ (a : After Prepared). Grew x taken a.2) s.finished (λ e. Held-Grew s h)
            (λ e.
              and_then-Grew (read_exact x probe_bytes replies s) _
                (read_exact-Holds x same taken prepared probe_bytes replies s h)
                λ probe replies1 s1 h1.
                  and_then-Grew (caught (parse_stream_info probe x.expected) replies1 s1) _
                    (caught-Holds x same taken prepared (parse_stream_info probe x.expected)
                      replies1 s1 h1)
                    λ parsed replies2 s2 h2.
                      and_then-Grew (scan_blocks max_blocks x (scanner parsed.1) replies2 s2) _
                        (scan_blocks-Holds x same taken prepared max_blocks (scanner parsed.1)
                          replies2 s2 h2)
                        λ _ replies3 s3 h3. check_audio-Grew parsed.0 replies3 s3 h3))

pub prepare-Grew :
    (x : Extent) (same : IsSha256 x.backend) (taken : List ℕ) (replies : List Reply) (s : Cursor)
    → IsCursor x s taken
    → Grew x taken (prepare x replies s).2
prepare-Grew x same taken replies s v =
    prepare-Held x same taken s.prepared replies s
      (record { more = []; cursor = subst (IsCursor x s) (sym (append-nil taken)) v; kept = refl })
