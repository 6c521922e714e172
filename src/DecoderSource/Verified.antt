-- ===== src/DecoderSource/Verified.antt =====
-- src/stems/decoder-byte-source.ts: what a decoder has read once the finite source verifies.
use engine_web_adapter.Prelude.{
  ℕ, ◌≡◌, refl, sym, ap, subst, ◌∙◌, ◌⊎◌, inl, inr, true, false, ◌||◌, ◌&&◌, not, leb, ◌==◌,
  if_elim, Bool-cases, List, [], ◌++◌, append_assoc, append-nil, arith, length, text_eq,
  text_eq_sound,
}
use engine_web_adapter.Errors.{ok, range_error}
use engine_web_adapter.Json.{is_safe}
use engine_web_adapter.Identity.{is_digest}
use engine_web_adapter.SparseFormat.Sound.{ok_injective}
use engine_web_adapter.SparseFormat.Accept.{require_elim}
use engine_web_adapter.Sha256.Hasher.{Hasher}
use engine_web_adapter.Sha256.Padding.{sha256}
use engine_web_adapter.Sha256.Runs.{IsSha256}
use engine_web_adapter.Sha256.Update.{fresh-IsAbsorbed}
use engine_web_adapter.Sha256.Finish.{digest-sha256}
use engine_web_adapter.DecoderSource.{preparing, Outcome, done, failed, hex_text}
use engine_web_adapter.DecoderSource.Finite.{
  Reply, Chunk, Cursor, Extent, After, and_then, open_source, pull, read, drain, check_digest,
  check_extent, finish,
}
use engine_web_adapter.DecoderSource.Grown.{IsCursor, Took, pull-Took}
use engine_web_adapter.DecoderSource.Prepare.{prepare}
use engine_web_adapter.DecoderSource.Held.{drain-Holds, prepare-Grew}

-- The bytes that a read gives the decoder.
abbrev pub returned : Outcome Chunk → List ℕ
returned (done c) = c.bytes
returned (failed operation) = []

equal_counts :
    (seen offset size total : ℕ)
    → ((seen == total) && (offset == total)) ≡ true
    → offset ≡ size
    → size ≡ total
equal_counts seen offset size total e at_ = ground arith

-- A source after any preparations and reads, with the replies to come and the bytes returned so far.
pub data Flow (x : Extent) : List Reply → Cursor → List ℕ → Type 0 where
  opens : (replies : List Reply) (s : Cursor) → open_source x ≡ ok s → Flow x replies s []
  prepares :
      {replies : List Reply} {s : Cursor} {received : List ℕ}
      → Flow x replies s received
      → Flow x (prepare x replies s).1 (prepare x replies s).2 received
  reads :
      {replies : List Reply} {s : Cursor} {received : List ℕ} (maximum : ℕ)
      → Flow x replies s received
      → Flow x
          (read x maximum replies s).1
          (read x maximum replies s).2
          (received ++ returned (read x maximum replies s).0)

-- The bytes hashed are those of the preparations, those returned, and then only what a read lost
-- that ended the source.
pub record IsFlow (x : Extent) (s : Cursor) (received : List ℕ) : Type 0 where
  pub front : List ℕ
  pub back : List ℕ
  pub cursor : IsCursor x s (front ++ (received ++ back))
  pub stuck : (back ≡ []) ⊎ (s.source_done ≡ true)
  pub idle : s.prepared ≡ false → received ≡ []

-- The whole extent, with the received bytes in it, has the declared digest.
pub record IsVerified (x : Extent) (received : List ℕ) : Type 0 where
  pub front : List ℕ
  pub back : List ℕ
  pub size : length (front ++ (received ++ back)) ≡ x.total_bytes
  pub verified : hex_text (sha256 (front ++ (received ++ back))) ≡ x.flac_sha256

module _ (x : Extent) (same : IsSha256 x.backend) where
  open_source-IsFlow : (s : Cursor) → open_source x ≡ ok s → IsFlow x s []
  unfolding open_source
  open_source-IsFlow s e =
      require_elim (is_safe x.total_bytes && leb 1 x.total_bytes) range_error _ e λ size e1.
        require_elim (is_digest x.flac_sha256) range_error _ e1 λ _ e2.
          subst (λ s. IsFlow x s []) (sym (ok_injective e2))
            (record {
              front = [];
              back = [];
              cursor = record {
                counted = refl;
                seen = refl;
                absorbed = fresh-IsAbsorbed;
                inside = λ _. ground arith;
                unfinished = refl;
              };
              stuck = inl refl;
              idle = λ _. refl;
            })

  prepare_again :
      (replies : List Reply) (s : Cursor)
      → s.prepared ≡ true
      → prepare x replies s ≡ (failed preparing, replies, s)
  unfolding prepare
  prepare_again replies s e = rw e refl

  prepare-IsFlow :
      (replies : List Reply) (s : Cursor) (received : List ℕ)
      → IsFlow x s received
      → IsFlow x (prepare x replies s).2 received
  prepare-IsFlow replies s received h = elim (Bool-cases s.prepared) [
    | inl before ↦
        subst (λ (a : After _). IsFlow x a.2 received) (sym (prepare_again replies s before)) h
    | inr first ↦
        let grew = prepare-Grew x same (h.front ++ (received ++ h.back)) replies s h.cursor in
        let nothing = h.idle first in
        record {
          front = (h.front ++ (received ++ h.back)) ++ grew.more;
          back = [];
          cursor =
              subst (IsCursor x (prepare x replies s).2)
                (sym (append-nil ((h.front ++ (received ++ h.back)) ++ grew.more))
                  ∙ ap (λ r. ((h.front ++ (received ++ h.back)) ++ grew.more) ++ (r ++ []))
                      (sym nothing))
                grew.cursor;
          stuck = inl refl;
          idle = λ _. nothing;
        }
  ]

  Took-IsFlow :
      (s t : Cursor) (front received : List ℕ) (outcome : Outcome Chunk)
      → s.prepared ≡ true
      → Took x s t (front ++ (received ++ [])) outcome
      → IsFlow x t (received ++ returned outcome)
  Took-IsFlow s t front received (done c) ready took = record {
    front = front;
    back = [];
    cursor =
        subst (IsCursor x t)
          (ap (λ r. (front ++ r) ++ took.more) (append-nil received)
            ∙ append_assoc front received took.more
            ∙ ap (λ m. front ++ (received ++ m)) (took.given c refl)
            ∙ ap (λ r. front ++ r) (sym (append-nil (received ++ c.bytes))))
          took.cursor;
    stuck = inl refl;
    idle = λ e. absurd (cc);
  }
  Took-IsFlow s t front received (failed operation) ready took = record {
    front = front;
    back = took.more;
    cursor = subst (IsCursor x t) (append_assoc front (received ++ []) took.more) took.cursor;
    stuck = took.lost operation refl;
    idle = λ e. absurd (cc);
  }

  read-IsFlow :
      (maximum : ℕ) (replies : List Reply) (s : Cursor) (received : List ℕ)
      → IsFlow x s received
      → IsFlow x (read x maximum replies s).2 (received ++ returned (read x maximum replies s).0)
  unfolding read
  read-IsFlow maximum replies s received h =
      if_elim (λ (a : After Chunk). IsFlow x a.2 (received ++ returned a.0))
        (not s.prepared || (s.finished || s.source_done))
        (λ refused. subst (IsFlow x s) (sym (append-nil received)) h)
        (λ open_.
          let nothing : h.back ≡ [] = elim (h.stuck) [
            | inl e ↦ e
            | inr e ↦ absurd (ground arith)
          ] in
          Took-IsFlow s (pull x maximum replies s).2 h.front received (pull x maximum replies s).0
            (ground arith)
            (pull-Took x same maximum replies s (h.front ++ (received ++ []))
              (subst (λ b. IsCursor x s (h.front ++ (received ++ b))) nothing h.cursor)))

  Flow-IsFlow :
      {replies : List Reply} {s : Cursor} {received : List ℕ}
      → Flow x replies s received
      → IsFlow x s received
  Flow-IsFlow (opens replies s e) = open_source-IsFlow s e
  Flow-IsFlow (prepares {replies = replies} {s = s} {received = received} f) =
      prepare-IsFlow replies s received (Flow-IsFlow f)
  Flow-IsFlow (reads {replies = replies} {s = s} {received = received} maximum f) =
      read-IsFlow maximum replies s received (Flow-IsFlow f)

  and_then_inv :
      {A B : Type 0} (m : After A) (rest : A → List Reply → Cursor → After B) (b : B)
      → (and_then m rest).0 ≡ done b
      → (a : A) × ((rest a m.1 m.2).0 ≡ done b)
  and_then_inv (done a, replies, s) rest b e = (a, e)
  and_then_inv (failed operation, replies, s) rest b e = absurd (cc)

  -- The whole extent with the declared digest.
  abbrev Matches : List ℕ → Type 0
  Matches taken = (length taken ≡ x.total_bytes) × (hex_text (sha256 taken) ≡ x.flac_sha256)

  check_digest-Matches :
      (replies : List Reply) (s : Cursor) (taken : List ℕ) (final : Hasher)
      → length taken ≡ x.total_bytes
      → (check_digest x replies s (ok (sha256 taken, final))).0 ≡ done tt
      → Matches taken
  unfolding check_digest
  check_digest-Matches replies s taken final size e =
      if_elim (λ (a : After (Unit {0})). a.0 ≡ done tt → Matches taken)
        (text_eq (hex_text (sha256 taken)) x.flac_sha256)
        (λ same_text e. (size, text_eq_sound (hex_text (sha256 taken)) x.flac_sha256 same_text))
        (λ other e. absurd (cc)) e

  check_extent-Verified :
      (replies : List Reply) (s : Cursor) (taken : List ℕ)
      → IsCursor x s taken
      → (check_extent x replies (record s { finished = true })).0 ≡ done tt
      → Matches taken
  unfolding check_extent
  check_extent-Verified replies s taken v e =
      let (final, hashed) = digest-sha256 x.backend same s.hash taken v.absorbed in
      let closed : Cursor = record s { finished = true } in
      if_elim (λ (a : After (Unit {0})). a.0 ≡ done tt → Matches taken)
        ((s.seen_bytes == x.total_bytes) && (s.offset == x.total_bytes))
        (λ counts.
          let size =
            equal_counts s.seen_bytes s.offset (length taken) x.total_bytes counts v.counted in
          subst (λ r. (check_digest x replies closed r).0 ≡ done tt → Matches taken) (sym hashed)
            (check_digest-Matches replies closed taken final size))
        (λ short e. absurd (cc)) e

  finish-Matches :
      (replies : List Reply) (s : Cursor) (taken : List ℕ)
      → IsCursor x s taken
      → (finish x replies s).0 ≡ done tt
      → (back : List ℕ) × Matches (taken ++ back)
  unfolding finish
  finish-Matches replies s taken v e =
      if_elim (λ (a : After (Unit {0})). a.0 ≡ done tt → (back : List ℕ) × Matches (taken ++ back))
        (not s.prepared) (λ unready e. absurd (cc))
        (λ ready.
          if_elim
            (λ (a : After (Unit {0})). a.0 ≡ done tt → (back : List ℕ) × Matches (taken ++ back))
            s.finished (λ closed e. absurd (ground arith))
            (λ running e.
              let drained = drain x replies s in
              let held = drain-Holds x same taken s.prepared replies s (record {
                more = [];
                cursor = subst (IsCursor x s) (sym (append-nil taken)) v;
                kept = refl;
              }) in
              let (_, left) =
                and_then_inv drained
                  (λ _ replies1 s1. check_extent x replies1 (record s1 { finished = true })) tt e in
              (
                held.more,
                check_extent-Verified drained.1 drained.2 (taken ++ held.more) held.cursor left,
              )))
        e

-- Where the finite source finishes, the bytes that the decoder has read are one stretch of a message
-- of the declared size with the declared digest, behind what the preparations took.
pub finish-IsVerified :
    (x : Extent) {replies : List Reply} {s : Cursor} {received : List ℕ}
    → IsSha256 x.backend
    → Flow x replies s received
    → (finish x replies s).0 ≡ done tt
    → IsVerified x received
finish-IsVerified x {replies} {s} {received} same f e =
    let h = Flow-IsFlow x same f in
    let (back, (size, verified)) =
      finish-Matches x same replies s (h.front ++ (received ++ h.back)) h.cursor e in
    let joined : (h.front ++ (received ++ h.back)) ++ back
        ≡ h.front ++ (received ++ (h.back ++ back)) =
      append_assoc h.front (received ++ h.back) back
      ∙ ap (λ r. h.front ++ r) (append_assoc received h.back back) in
    record {
      front = h.front;
      back = h.back ++ back;
      size = sym (ap length joined) ∙ size;
      verified = sym (ap (λ m. hex_text (sha256 m)) joined) ∙ verified;
    }
