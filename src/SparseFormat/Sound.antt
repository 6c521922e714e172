-- ===== src/SparseFormat/Sound.antt =====
-- What the validator accepts is well formed.
use engine_web_adapter.Prelude.{
  ℕ, ◌+◌, ◌*◌, ◌≤◌, ◌≡◌, refl, ap, sym, subst, suc, Bool, true, List, [], ◌∷◌, Text, length, arith,
  codes,
}
use engine_web_adapter.Errors.{Result, ok, err, ◌>>=◌}
use engine_web_adapter.Json.{Value, Fields, number, property, max_safe, null, text, integer}
use engine_web_adapter.Identity.{is_digest, is_stem_identity}
use engine_web_adapter.SparseFormat.{
  Interval, Chunk, exact_object, as_text, digest, identity_of, check_sum, check_product,
  max_chunk_bytes,
}
use engine_web_adapter.SparseFormat.Loops.{
  chunk_keys, validate_interval, validate_intervals, check_chunk, finish_chunk, read_chunk,
  validate_chunk, validate_chunks,
}
use engine_web_adapter.SparseFormat.Shape.{IntervalsFit, ChunkFits, ChunksFit}

-- Inversions of the checks, one for each.
pub integer_ok :
    (v : Value) (minimum n : ℕ)
    → integer v minimum ≡ ok n
    → (v ≡ number n) × (minimum ≤ n) × (n ≤ max_safe)
unfolding integer
integer_ok (number k) minimum n e = ground arith
integer_ok null minimum n e = cc
integer_ok _ minimum n e = cc

pub check_sum_ok : (a b n : ℕ) → check_sum a b ≡ ok n → (n ≡ a + b) × (a + b ≤ max_safe)
unfolding check_sum
check_sum_ok a b n e = ground arith

pub check_product_ok : (a b n : ℕ) → check_product a b ≡ ok n → (n ≡ a * b) × (a * b ≤ max_safe)
unfolding check_product
check_product_ok a b n e = ground arith

as_text_ok : (test : Text → Bool) (v : Value) (t : Text) → as_text test v ≡ ok t → test t ≡ true
unfolding as_text
as_text_ok test (text s) t e = ground arith
as_text_ok test null t e = cc
as_text_ok test _ t e = cc

pub digest_ok : (v : Value) (t : Text) → digest v ≡ ok t → is_digest t ≡ true
unfolding digest
digest_ok v t e = as_text_ok is_digest v t e

pub identity_ok : (v : Value) (t : Text) → identity_of v ≡ ok t → is_stem_identity t ≡ true
unfolding identity_of
identity_ok v t e = as_text_ok is_stem_identity v t e

-- What follows from a successful bind, with its parts as variables.
pub bind_elim {ℓ κ μ} :
    {A : Type ℓ} {B : Type κ} {P : Type μ} (m : Result A) (f : A → Result B) {b : B}
    → (m >>= f) ≡ ok b
    → ((a : A) → m ≡ ok a → f a ≡ ok b → P)
    → P
bind_elim (ok a) f e k = k a refl e
bind_elim (err x) f e k = absurd (cc)

validate_interval_ok :
    (frames earliest expected : ℕ) (v : Value) (i : Interval)
    → validate_interval frames earliest expected v ≡ ok i
    → (earliest ≤ i.start_frame)
      × (1 ≤ i.frames)
      × (i.start_frame + i.frames ≤ frames)
      × (i.packed_frame_offset ≡ expected)
unfolding validate_interval
validate_interval_ok frames earliest expected v i e = grind (arith, integer_ok, check_sum_ok)

check_chunk_ok :
    (max_frames expected_frame expected_offset offset bytes frames packed : ℕ)
    → check_chunk max_frames expected_frame expected_offset offset bytes frames packed ≡ ok tt
    → (bytes ≤ max_chunk_bytes)
      × (frames ≤ max_frames)
      × (packed ≡ expected_frame)
      × (offset ≡ expected_offset)
unfolding check_chunk check_sum
check_chunk_ok max_frames expected_frame expected_offset offset bytes frames packed e = ground arith

finish_chunk_ok :
    (raw : Fields) (offset bytes frames packed : ℕ) (c : Chunk)
    → finish_chunk raw offset bytes frames packed ≡ ok c
    → (c.offset ≡ offset)
      × (c.bytes ≡ bytes)
      × (c.frames ≡ frames)
      × (c.packed_start_frame ≡ packed)
      × (is_digest c.flac_sha256 ≡ true)
      × (is_digest c.pcm_sha256 ≡ true)
unfolding finish_chunk
finish_chunk_ok raw offset bytes frames packed c e = grind (arith, digest_ok)

read_chunk_ok :
    (max_frames expected_frame expected_offset : ℕ) (raw : Fields) (c : Chunk)
    → read_chunk max_frames expected_frame expected_offset raw ≡ ok c
    → ChunkFits max_frames c
      × (c.packed_start_frame ≡ expected_frame)
      × (c.offset ≡ expected_offset)
unfolding read_chunk
read_chunk_ok max_frames expected_frame expected_offset raw c e =
    bind_elim (integer (property (codes "offset") raw) 0) _ e λ offset p e1.
      bind_elim (integer (property (codes "bytes") raw) 1) _ e1 λ bytes q e2.
        bind_elim (integer (property (codes "frames") raw) 1) _ e2 λ frames r e3.
          bind_elim (integer (property (codes "packedStartFrame") raw) 0) _ e3 λ packed s e4.
            bind_elim
              (check_chunk max_frames expected_frame expected_offset offset bytes frames packed) _
              e4
              λ u t e5. ground (
                arith,
                integer_ok (property (codes "bytes") raw) 1 bytes q,
                integer_ok (property (codes "frames") raw) 1 frames r,
                check_chunk_ok max_frames expected_frame expected_offset offset bytes frames packed
                    t,
                finish_chunk_ok raw offset bytes frames packed c e5,
              )

validate_chunk_ok :
    (max_frames expected_frame expected_offset : ℕ) (v : Value) (c : Chunk)
    → validate_chunk max_frames expected_frame expected_offset v ≡ ok c
    → ChunkFits max_frames c
      × (c.packed_start_frame ≡ expected_frame)
      × (c.offset ≡ expected_offset)
unfolding validate_chunk
validate_chunk_ok max_frames expected_frame expected_offset v c e =
    bind_elim (exact_object v chunk_keys) (read_chunk max_frames expected_frame expected_offset) e
      λ raw p e1. read_chunk_ok max_frames expected_frame expected_offset raw c e1

pub ok_injective {ℓ} : {A : Type ℓ} {a b : A} → ok a ≡ ok b → b ≡ a
ok_injective e = cc

-- What follows of the result of a loop step that succeeds.
pub step_elim {ℓ κ μ ν} :
    {A : Type ℓ} {B : Type κ} {C : Type μ} (P : C → Type ν) (r : Result A) (f : A → Result B)
    (g : A → B → C) {c : C}
    → (r >>= λ a. f a >>= λ b. ok (g a b)) ≡ ok c
    → ((a : A) (b : B) → r ≡ ok a → f a ≡ ok b → P (g a b))
    → P c
step_elim P r f g e k =
    bind_elim r (λ a. f a >>= λ b. ok (g a b)) e
      λ a p e1.
        bind_elim (f a) (λ b. ok (g a b)) e1 λ b q e2. subst P (sym (ok_injective e2)) (k a b p q)

pub validate_intervals_ok :
    (frames earliest expected : ℕ) (vs : List Value) (is : List Interval) (final : ℕ)
    → validate_intervals frames earliest expected vs ≡ ok (is, final)
    → IntervalsFit frames final earliest expected is × (length is ≡ length vs)
unfolding validate_intervals
validate_intervals_ok frames earliest expected [] is final e =
    let nothing : is ≡ [] = ap (λ p. p.0) (ok_injective e) in
    rw nothing (sym (ap (λ p. p.1) (ok_injective e)), refl)
validate_intervals_ok frames earliest expected (v ∷ vs) is final e =
    step_elim (λ r. IntervalsFit frames r.1 earliest expected r.0 × (length r.0 ≡ length (v ∷ vs)))
      (validate_interval frames earliest expected v)
      (λ i. validate_intervals frames (i.start_frame + i.frames + 1) (expected + i.frames) vs)
      (λ i r. (i ∷ r.0, r.1)) e
      λ i r p q.
        let (low, pos, high, packed) = validate_interval_ok frames earliest expected v i p in
        let rest =
          validate_intervals_ok frames (i.start_frame + i.frames + 1) (expected + i.frames) vs r.0
            r.1 q in
        ((low, pos, high, packed, rest.0), ap suc rest.1)

pub validate_chunks_ok :
    (max_frames frame offset : ℕ) (vs : List Value) (cs : List Chunk) (last_frame last_offset : ℕ)
    → validate_chunks max_frames frame offset vs ≡ ok (cs, last_frame, last_offset)
    → ChunksFit max_frames last_frame last_offset frame offset cs × (length cs ≡ length vs)
unfolding validate_chunks
validate_chunks_ok max_frames frame offset [] cs last_frame last_offset e =
    let same = ok_injective e in
    let list : cs ≡ [] = ap (λ p. p.0) same in
    rw list ((sym (ap (λ p. p.1) same), sym (ap (λ p. p.2) same)), refl)
validate_chunks_ok max_frames frame offset (v ∷ vs) cs last_frame last_offset e =
    step_elim (λ r. ChunksFit max_frames r.1 r.2 frame offset r.0 × (length r.0 ≡ length (v ∷ vs)))
      (validate_chunk max_frames frame offset v)
      (λ c. validate_chunks max_frames (frame + c.frames) (offset + c.bytes) vs)
      (λ c r. (c ∷ r.0, r.1, r.2)) e
      λ c r p q.
        let (fits, packed, place) = validate_chunk_ok max_frames frame offset v c p in
        let rest =
          validate_chunks_ok max_frames (frame + c.frames) (offset + c.bytes) vs r.0 r.1 r.2 q in
        ((fits, packed, place, rest.0), ap suc rest.1)
