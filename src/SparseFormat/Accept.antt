-- ===== src/SparseFormat/Accept.antt =====
-- `validateSparseStemManifest` accepts well-formed manifests only.
use engine_web_adapter.Prelude.{
  ℕ, ◌+◌, ◌*◌, ◌≤◌, ◌≡◌, refl, sym, subst, ◌⊎◌, Bool, true, false, ◌||◌, List, Option, none, some,
  Text, length, arith, codes, leb, ◌==◌, ==_iff,
}
use mathlib.Core.Path.{subst₂}
use engine_web_adapter.Errors.{Failure, Result, ok, require, ◌>>◌}
use engine_web_adapter.Json.{Value, Fields, property, max_safe, null, array, integer}
use engine_web_adapter.Identity.{is_stem_identity}
use engine_web_adapter.SparseFormat.{
  Interval, Chunk, Manifest, corrupt, exact_object, identity_of, check_sum, check_product,
  check_object_limit, preflight_array, max_object_bytes, max_intervals, max_chunks, max_index_bytes,
  header_bytes, bytes_per_frame,
}
use engine_web_adapter.SparseFormat.Loops.{manifest_keys, validate_intervals, validate_chunks}
use engine_web_adapter.SparseFormat.Encode.{canonical_bytes}
use engine_web_adapter.SparseFormat.Shape.{IntervalsFit, ChunksFit, IsWellFormed, PayloadFits}
use engine_web_adapter.SparseFormat.Validate.{
  is_format, known_rate, known_channels, known_depth, Scalars, validate_scalars, check_payload,
  payload_or, check_size, assemble, validate_manifest,
}
use engine_web_adapter.SparseFormat.Sound.{
  bind_elim, ok_injective, integer_ok, identity_ok, check_product_ok, validate_intervals_ok,
  validate_chunks_ok,
}

pub require_elim {ℓ κ} :
    {B : Type ℓ} {P : Type κ} (c : Bool) (f : Failure) (k : Result B) {b : B}
    → (require c f >> k) ≡ ok b
    → (c ≡ true → k ≡ ok b → P)
    → P
require_elim true f k e go = go refl e
require_elim false f k e go = absurd (cc)

preflight_array_ok :
    (v : Value) (maximum : ℕ) (l : List Value)
    → preflight_array v maximum ≡ ok l
    → length l ≤ maximum
unfolding preflight_array
preflight_array_ok (array vs) maximum l e = ground arith
preflight_array_ok null maximum l e = cc
preflight_array_ok _ maximum l e = cc

record ScalarsFit (s : Scalars) : Type 0 where
  identified : is_stem_identity s.identity ≡ true
  rate : known_rate s.sample_rate_hz ≡ true
  channel_count : known_channels s.channels ≡ true
  depth : known_depth s.bit_depth ≡ true
  frames_pos : 1 ≤ s.frames
  canonical_safe : s.frames * bytes_per_frame s.channels s.bit_depth ≤ max_safe
  interval_count : length s.intervals_raw ≤ max_intervals
  chunk_count : length s.chunks_raw ≤ max_chunks

validate_scalars_ok : (root : Fields) (s : Scalars) → validate_scalars root ≡ ok s → ScalarsFit s
unfolding validate_scalars
validate_scalars_ok root s e =
    require_elim (is_format (property (codes "format") root)) corrupt _ e λ p1 e1.
      bind_elim (preflight_array (property (codes "intervals") root) max_intervals) _ e1 λ is p2 e2.
        bind_elim (preflight_array (property (codes "chunks") root) max_chunks) _ e2 λ cs p3 e3.
          bind_elim (integer (property (codes "sampleRateHz") root) 1) _ e3 λ rate p4 e4.
            require_elim (known_rate rate) corrupt _ e4 λ p5 e5.
              bind_elim (integer (property (codes "channels") root) 1) _ e5 λ channels p6 e6.
                require_elim (known_channels channels) corrupt _ e6 λ p7 e7.
                  bind_elim (integer (property (codes "bitDepth") root) 1) _ e7 λ depth p8 e8.
                    require_elim (known_depth depth) corrupt _ e8 λ p9 e9.
                      bind_elim (integer (property (codes "frames") root) 1) _ e9 λ frames p10 e10.
                        bind_elim (check_product frames (bytes_per_frame channels depth)) _ e10
                          λ n p11 e11.
                            bind_elim (identity_of (property (codes "identity") root)) _ e11
                              λ id p12 e12. subst ScalarsFit (sym (ok_injective e12)) (record {
                                identified = identity_ok (property (codes "identity") root) id p12;
                                rate = p5;
                                channel_count = p7;
                                depth = p9;
                                frames_pos =
                                    (integer_ok (property (codes "frames") root) 1 frames p10).1;
                                canonical_safe = (check_product_ok frames _ n p11).1;
                                interval_count =
                                    preflight_array_ok (property (codes "intervals") root)
                                      max_intervals is p2;
                                chunk_count =
                                    preflight_array_ok (property (codes "chunks") root) max_chunks
                                      cs p3;
                              })

check_payload_ok :
    (payload : Option ℕ) (final : ℕ) (u : Unit {0})
    → check_payload payload final ≡ ok u
    → PayloadFits payload final × (payload_or payload final ≡ final)
unfolding check_payload payload_or integer
check_payload_ok none final u e = (tt, refl)
check_payload_ok (some n) final u e = ground arith

size_bounds :
    (size payload_bytes : ℕ) (u : Unit {0})
    → (require (leb 1 size) corrupt
        >> (require (leb size max_index_bytes) corrupt >> check_object_limit size payload_bytes))
      ≡ ok u
    → (1 ≤ size)
      × (size ≤ max_index_bytes)
      × (header_bytes + size + payload_bytes ≤ max_object_bytes)
unfolding check_object_limit check_sum
size_bounds size payload_bytes u e = ground arith

check_size_ok :
    (m : Manifest) (payload_bytes : ℕ) (u : Unit {0})
    → check_size m payload_bytes ≡ ok u
    → (encoded : Text) × (canonical_bytes m ≡ ok encoded)
      × (1 ≤ length encoded)
      × (length encoded ≤ max_index_bytes)
      × (header_bytes + length encoded + payload_bytes ≤ max_object_bytes)
unfolding check_size
check_size_ok m payload_bytes u e = bind_elim (canonical_bytes m) _ e λ encoded p e1.
    let (low, high, whole) = size_bounds (length encoded) payload_bytes u e1 in
    (encoded, p, low, high, whole)

rate_cases : (r : ℕ) → known_rate r ≡ true → (r ≡ 44100) ⊎ (r ≡ 48000) ⊎ (r ≡ 88200) ⊎ (r ≡ 96000)
rate_cases r e = ground arith

two_cases : (a b n : ℕ) → ((n == a) || (n == b)) ≡ true → (n ≡ a) ⊎ (n ≡ b)
two_cases a b n e = ground arith

-- The facts about the parts, put together.
assemble-IsWellFormed :
    (s : Scalars) (is : List Interval) (cs : List Chunk) (packed bytes : ℕ) (encoded : Text)
    → ScalarsFit s
    → IntervalsFit s.frames packed 0 0 is × (length is ≡ length s.intervals_raw)
    → ChunksFit (s.sample_rate_hz * 30) packed bytes 0 0 cs × (length cs ≡ length s.chunks_raw)
    → canonical_bytes (assemble s is cs) ≡ ok encoded
    → 1 ≤ length encoded
    → length encoded ≤ max_index_bytes
    → header_bytes + length encoded + bytes ≤ max_object_bytes
    → IsWellFormed (assemble s is cs) packed bytes encoded
unfolding assemble
assemble-IsWellFormed s is cs packed bytes encoded f i c e low high whole = record {
  identified = f.identified;
  rate = rate_cases s.sample_rate_hz f.rate;
  channel_count = two_cases 1 2 s.channels f.channel_count;
  depth = two_cases 16 24 s.bit_depth f.depth;
  frames_pos = f.frames_pos;
  canonical_safe = f.canonical_safe;
  interval_count = omega (arith, i.1, f.interval_count);
  chunk_count = omega (arith, c.1, f.chunk_count);
  intervals_fit = i.0;
  chunks_fit = c.0;
  encoding = e;
  encoded_pos = low;
  encoded_bound = high;
  object_bound = whole;
}

abbrev pub Accepted : Option ℕ → Manifest → Type 0
Accepted payload m =
    (packed_frames : ℕ) × (payload_bytes : ℕ) × (encoded : Text) × IsWellFormed m packed_frames
      payload_bytes encoded
    × PayloadFits payload payload_bytes

-- A manifest that the validator accepts is well formed, and agrees with the payload length where
-- one is known.
pub validate_manifest-IsWellFormed :
    (value : Value) (payload : Option ℕ) (m : Manifest)
    → validate_manifest value payload ≡ ok m
    → Accepted payload m
unfolding validate_manifest
validate_manifest-IsWellFormed value payload m e =
    bind_elim (exact_object value manifest_keys) _ e λ root _ e1.
      bind_elim (validate_scalars root) _ e1 λ s p1 e2.
        bind_elim (validate_intervals s.frames 0 0 s.intervals_raw) _ e2 λ is p2 e3.
          bind_elim (check_product s.sample_rate_hz 30) _ e3 λ limit p3 e4.
            bind_elim (validate_chunks limit 0 0 s.chunks_raw) _ e4 λ cs p4 e5.
              require_elim (cs.1 == is.1) corrupt _ e5 λ p5 e6.
                bind_elim (check_payload payload cs.2) _ e6 λ u6 p6 e7.
                  bind_elim (check_size (assemble s is.0 cs.0) (payload_or payload cs.2)) _ e7
                    λ u7 p7 e8.
                      let (encoded, p, low, high, whole) =
                        check_size_ok (assemble s is.0 cs.0) (payload_or payload cs.2) u7 p7 in
                      let (agrees, bytes) = check_payload_ok payload cs.2 u6 p6 in
                      let ends = (==_iff cs.1 is.1).0 p5 in
                      let width = (check_product_ok s.sample_rate_hz 30 limit p3).0 in
                      let chunks = validate_chunks_ok limit 0 0 s.chunks_raw cs.0 cs.1 cs.2 p4 in
                      let fits : ChunksFit (s.sample_rate_hz * 30) is.1 cs.2 0 0 cs.0 =
                        subst₂ (λ w n. ChunksFit w n cs.2 0 0 cs.0) width ends chunks.0 in
                      subst (Accepted payload) (sym (ok_injective e8)) (
                        is.1,
                        cs.2,
                        encoded,
                        assemble-IsWellFormed s is.0 cs.0 is.1 cs.2 encoded
                            (validate_scalars_ok root s p1)
                            (validate_intervals_ok s.frames 0 0 s.intervals_raw is.0 is.1 p2)
                            (fits, chunks.1) p low high
                            (subst (λ n. header_bytes + length encoded + n ≤ max_object_bytes) bytes
                              whole),
                        agrees,
                      )
