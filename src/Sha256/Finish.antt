-- ===== src/Sha256/Finish.antt =====
-- src/stems/sha256.ts: `digest` pads as the specification does.
use engine_web_adapter.Prelude.{
  ℕ, zero, suc, ◌+◌, ◌-◌, ◌*◌, ◌/◌, ◌%◌, ◌^◌, ◌≤◌, ◌<◌, ◌≡◌, refl, sym, ap, ◌∙◌, true, ltb, ltb→lt,
  if_elim, if◌then◌else◌, List, [], ◌∷◌, ◌++◌, append_assoc, arith, length, take, replicate, set_at,
  length-append, length-take, length-set_at, length-replicate, take-set_at, take_past,
}
use engine_web_adapter.Errors.{plain_error, ok, err}
use engine_web_adapter.Sha256.{Words, initial}
use engine_web_adapter.Sha256.Hasher.{
  Backend, Hasher, compress, big_endian, output, mark_end, last_block, digest, update_all, fresh,
}
use engine_web_adapter.Sha256.Padding.{run, zeros_for, padded, sha256}
use engine_web_adapter.Sha256.Runs.{IsSha256}
use engine_web_adapter.Sha256.Absorb.{IsHeld, run-one}
use engine_web_adapter.Sha256.Update.{IsAbsorbed, concat, update_all-IsAbsorbed, fresh-IsAbsorbed}

abbrev zeros : ℕ → List ℕ
zeros n = replicate n 0

-- The eight bytes of a bit length, for a count of bytes.
abbrev length_bytes : ℕ → List ℕ
length_bytes n = big_endian (n * 8 / 2 ^ 32 % 2 ^ 32) ++ big_endian (n * 8 % 2 ^ 32)

zeros-append : (m n k : ℕ) (ys : List ℕ) → m + n ≡ k → zeros m ++ (zeros n ++ ys) ≡ zeros k ++ ys
zeros-append zero n k ys e = ap (λ j. zeros j ++ ys) (omega arith)
zeros-append (suc m) n zero ys e = absurd (omega arith)
zeros-append (suc m) n (suc k) ys e = ap (λ r. 0 ∷ r) (zeros-append m n k ys (omega arith))

-- The last block, behind what the block holds.
last_block_lem :
    (s : Hasher)
    → length s.block ≡ 64
    → s.block_bytes ≤ 56
    → last_block s
      ≡ take s.block_bytes s.block ++ (zeros (56 - s.block_bytes) ++ length_bytes s.total_bytes)
unfolding last_block
last_block_lem s size short =
    let gap : List ℕ = zeros (56 - s.block_bytes) in
    let filler : length gap ≡ 56 - s.block_bytes = length-replicate (56 - s.block_bytes) 0 in
    let first : List ℕ = set_at s.block s.block_bytes gap in
    let first_size : length first ≡ 64 =
      length-set_at s.block gap s.block_bytes (omega arith) ∙ size in
    let high : List ℕ = big_endian (s.total_bytes * 8 / 2 ^ 32 % 2 ^ 32) in
    let low : List ℕ = big_endian (s.total_bytes * 8 % 2 ^ 32) in
    let second : List ℕ = set_at first 56 high in
    let second_size : length second ≡ 64 = length-set_at first high 56 (omega arith) ∙ first_size in
    let third_size : length (set_at second 60 low) ≡ 64 =
      length-set_at second low 60 (omega arith) ∙ second_size in
    sym (take_past 64 (set_at second 60 low) (omega arith))
    ∙ take-set_at second 60 low 64 refl (omega arith)
    ∙ ap (λ b. b ++ low) (take-set_at first 56 high 60 refl (omega arith))
    ∙ ap (λ b. (b ++ high) ++ low)
        (take-set_at s.block s.block_bytes gap 56 (omega arith) (omega arith))
    ∙ append_assoc (take s.block_bytes s.block ++ gap) high low
    ∙ append_assoc (take s.block_bytes s.block) gap (high ++ low)

whole_blocks :
    (bytes : List ℕ) (q : ℕ) (pad : List ℕ)
    → bytes ≡ pad
    → length bytes ≡ q * 64
    → q ≡ length pad / 64
whole_blocks bytes q pad e size = omega (arith, ap length e)

module _ (backend : Backend) (same : IsSha256 backend) (s : Hasher) (message : List ℕ)
    (a : IsAbsorbed s message) where
  abbrev h : IsHeld s.state s.block s.block_bytes message
  h = a.held

  abbrev marked_block : List ℕ
  marked_block = set_at s.block s.block_bytes (0x80 ∷ [])

  marked_length : length marked_block ≡ 64
  marked_length =
      length-set_at s.block (0x80 ∷ []) s.block_bytes (omega (arith, h.room, h.size)) ∙ h.size

  marked_front : take (s.block_bytes + 1) marked_block ≡ h.tail ++ (0x80 ∷ [])
  marked_front =
      take-set_at s.block s.block_bytes (0x80 ∷ []) (s.block_bytes + 1) refl
        (omega (arith, h.room, h.size))
      ∙ ap (λ t. t ++ (0x80 ∷ [])) h.kept

  tail_length : length h.tail ≡ s.block_bytes
  tail_length =
      sym (ap length h.kept) ∙ omega (arith, length-take s.block_bytes s.block, h.room, h.size)

  message_length : length message ≡ h.blocks * 64 + s.block_bytes
  message_length =
      sym (ap length h.joined) ∙ omega (arith, length-append h.whole h.tail, h.aligned, tail_length)

  -- The whole blocks, the tail and a padding, joined.
  pad_joined : (rest : List ℕ) → h.whole ++ (h.tail ++ (0x80 ∷ rest)) ≡ message ++ (0x80 ∷ rest)
  pad_joined rest =
      sym (append_assoc h.whole h.tail (0x80 ∷ rest)) ∙ ap (λ m. m ++ (0x80 ∷ rest)) h.joined

  -- Blocks that join up to the padded message give its state.
  run-padded :
      (bytes : List ℕ) (q : ℕ)
      → bytes
        ≡ message ++ (0x80 ∷ (zeros (zeros_for (length message)) ++ length_bytes (length message)))
      → length bytes ≡ q * 64
      → run initial bytes q ≡ run initial (padded message) (length (padded message) / 64)
  unfolding padded
  run-padded bytes q e size =
      ap (λ b. run initial b q) e
      ∙ ap (run initial (padded message)) (whole_blocks bytes q (padded message) e size)

  -- The length fits into the block that holds the mark.
  abbrev short : Hasher
  short = record s { block = marked_block; block_bytes = s.block_bytes + 1 }

  abbrev short_rest : List ℕ
  short_rest = zeros (56 - (s.block_bytes + 1)) ++ length_bytes s.total_bytes

  short_last : s.block_bytes + 1 ≤ 56 → last_block short ≡ h.tail ++ (0x80 ∷ short_rest)
  short_last fits =
      last_block_lem short marked_length fits
      ∙ ap (λ t. t ++ short_rest) marked_front
      ∙ append_assoc h.tail (0x80 ∷ []) short_rest

  short_digest :
      s.block_bytes + 1 ≤ 56
      → compress backend s.state (last_block short) 0 1
        ≡ run initial (padded message) (length (padded message) / 64)
  short_digest fits =
      let last : List ℕ = last_block short in
      let size : length last ≡ 64 =
        ap length (short_last fits)
        ∙ omega (
          arith,
          length-append h.tail (0x80 ∷ short_rest),
          tail_length,
          length-append (zeros (56 - (s.block_bytes + 1))) (length_bytes s.total_bytes),
          length-replicate {A = ℕ} (56 - (s.block_bytes + 1)) 0,
        ) in
      let fill : 56 - (s.block_bytes + 1) ≡ zeros_for (length message) =
        omega (arith, message_length) in
      run-one backend s.state h.whole last h.blocks same h.aligned size h.hashed
      ∙ run-padded (h.whole ++ last) (h.blocks + 1)
          (ap (λ b. h.whole ++ b) (short_last fits)
            ∙ pad_joined short_rest
            ∙ ap (λ n. message ++ (0x80 ∷ (zeros n ++ length_bytes s.total_bytes))) fill
            ∙ ap (λ n. message ++ (0x80 ∷ (zeros (zeros_for (length message)) ++ length_bytes n)))
                a.total)
          (omega (arith, length-append h.whole last, size, h.aligned))

  -- The length needs a block of its own.
  abbrev long_block : List ℕ
  long_block = set_at marked_block (s.block_bytes + 1) (zeros (64 - (s.block_bytes + 1)))

  abbrev long : Hasher
  long = record s {
    block = long_block;
    block_bytes = 0;
    state = compress backend s.state long_block 0 1;
  }

  long_length : length long_block ≡ 64
  long_length =
      length-set_at marked_block (zeros (64 - (s.block_bytes + 1))) (s.block_bytes + 1) (
        omega (arith, length-replicate {A = ℕ} (64 - (s.block_bytes + 1)) 0, marked_length, h.room))
      ∙ marked_length

  long_front : long_block ≡ h.tail ++ (0x80 ∷ zeros (64 - (s.block_bytes + 1)))
  long_front =
      sym (take_past 64 long_block (omega (arith, long_length)))
      ∙ take-set_at marked_block (s.block_bytes + 1) (zeros (64 - (s.block_bytes + 1))) 64
          (omega (arith, length-replicate {A = ℕ} (64 - (s.block_bytes + 1)) 0, h.room))
          (omega (arith, marked_length))
      ∙ ap (λ t. t ++ zeros (64 - (s.block_bytes + 1))) marked_front
      ∙ append_assoc h.tail (0x80 ∷ []) (zeros (64 - (s.block_bytes + 1)))

  long_digest :
      56 < s.block_bytes + 1
      → compress backend (long).state (last_block long) 0 1
        ≡ run initial (padded message) (length (padded message) / 64)
  long_digest over =
      let last : List ℕ = last_block long in
      let last_eq : last ≡ zeros 56 ++ length_bytes s.total_bytes =
        last_block_lem long long_length (omega arith) in
      let size : length last ≡ 64 = ap length last_eq ∙ refl in
      let whole_size : length (h.whole ++ long_block) ≡ (h.blocks + 1) * 64 =
        omega (arith, length-append h.whole long_block, long_length, h.aligned) in
      let fill : 64 - (s.block_bytes + 1) + 56 ≡ zeros_for (length message) =
        omega (arith, message_length, h.room) in
      run-one backend (long).state (h.whole ++ long_block) last (h.blocks + 1) same whole_size size
        (run-one backend s.state h.whole long_block h.blocks same h.aligned long_length h.hashed)
      ∙ run-padded ((h.whole ++ long_block) ++ last) (h.blocks + 1 + 1)
          (append_assoc h.whole long_block last
            ∙ ap (λ b. h.whole ++ (b ++ last)) long_front
            ∙ ap (λ b. h.whole ++ b)
                (append_assoc h.tail (0x80 ∷ zeros (64 - (s.block_bytes + 1))) last)
            ∙ pad_joined (zeros (64 - (s.block_bytes + 1)) ++ last)
            ∙ ap (λ b. message ++ (0x80 ∷ (zeros (64 - (s.block_bytes + 1)) ++ b))) last_eq
            ∙ ap (λ b. message ++ (0x80 ∷ b))
                (zeros-append (64 - (s.block_bytes + 1)) 56 (zeros_for (length message))
                  (length_bytes s.total_bytes) fill)
            ∙ ap (λ n. message ++ (0x80 ∷ (zeros (zeros_for (length message)) ++ length_bytes n)))
                a.total)
          (omega (arith, length-append (h.whole ++ long_block) last, size, whole_size))

  abbrev Digests : Hasher → Type 0
  Digests b =
      compress backend b.state (last_block b) 0 1
      ≡ run initial (padded message) (length (padded message) / 64)

  mark_end-Digests : Digests (mark_end backend s)
  unfolding mark_end
  mark_end-Digests =
      if_elim Digests (ltb 56 (s.block_bytes + 1))
        (λ e. long_digest (ltb→lt 56 (s.block_bytes + 1) e)) (λ e. short_digest (ground arith))

  pub digest-sha256 : (final : Hasher) × (digest backend s ≡ ok (sha256 message, final))
  unfolding digest sha256
  digest-sha256 =
      let b : Hasher = mark_end backend s in
      let state : Words = compress backend b.state (last_block b) 0 1 in
      let final : Hasher = record b { block = last_block b; state = state; finished = true } in
      (
        final,
        ap (λ f. if f then err plain_error else ok (output state, final)) a.unfinished
            ∙ ap (λ w. ok (output w, final)) mark_end-Digests,
      )

-- Over any backend that compresses like the JavaScript code, a fresh hasher that is updated with
-- chunks of any sizes yields the SHA-256 digest of the joined chunks.
pub digest_of_chunks :
    (backend : Backend) (chunks : List (List ℕ))
    → IsSha256 backend
    → (s final : Hasher) × (update_all backend fresh chunks ≡ ok s)
      × (digest backend s ≡ ok (sha256 (concat chunks), final))
digest_of_chunks backend chunks same =
    let (s, runs, a) = update_all-IsAbsorbed backend chunks fresh [] same fresh-IsAbsorbed in
    let (final, e) = digest-sha256 backend same s (concat chunks) a in (s, final, runs, e)
