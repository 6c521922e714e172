-- ===== src/SparsePcm/Admitted.antt =====
-- What `validateSparsePcmIndex` admits, `readSparsePcmWindow` serves.
use engine_web_adapter.Prelude.{
  ℕ, ◌+◌, ◌*◌, ◌≤◌, ◌≡◌, refl, sym, subst, Bool, true, false, leb, List, [], ◌∷◌, Option, none,
  arith, length, Text, codes,
}
use engine_web_adapter.Errors.{ok}
use engine_web_adapter.Json.{Value, Fields, number, property, as_record, integer, is_safe, max_safe}
use engine_web_adapter.SparseFormat.{
  corrupt, preflight_array, max_intervals, max_index_bytes, Manifest,
}
use engine_web_adapter.SparseFormat.Shape.{IsWellFormed}
use engine_web_adapter.SparseFormat.Validate.{validate_manifest}
use engine_web_adapter.SparseFormat.Sound.{bind_elim, ok_injective, integer_ok}
use engine_web_adapter.SparseFormat.Accept.{Accepted, require_elim, validate_manifest-IsWellFormed}
use engine_web_adapter.SparsePcm.{Interval, Index, bytes_per_frame, max_window_frames, read_window}
use engine_web_adapter.SparsePcm.Layout.{Placed}
use engine_web_adapter.SparsePcm.Serve.{IsAdmitted, Holds, read_window-Holds}
use engine_web_adapter.SparsePcm.Admit.{
  exact_keys, interval_text, admit_interval, admit_intervals, absent_or, is_pcm_format,
  scalar_source, encoded_bytes, packed_fits, admit_rest, validate_index, pcm_interval_keys,
  pcm_index_keys, pcm_required_keys,
}

admit_interval_ok :
    (frames fb : ℕ) (some_before : Bool) (previous offset : ℕ) (v : Value) (i : Interval)
    → admit_interval frames fb some_before previous offset v ≡ ok i
    → (previous ≤ i.start_frame)
      × (1 ≤ i.frames)
      × (i.start_frame + i.frames ≤ frames)
      × (i.byte_offset ≡ offset)
      × (i.byte_offset + i.frames * fb ≤ max_safe)
unfolding admit_interval
admit_interval_ok frames fb some_before previous offset v i e =
    bind_elim (as_record v) _ e λ raw _ e1.
      bind_elim (exact_keys raw pcm_interval_keys pcm_interval_keys) _ e1 λ u _ e2.
        bind_elim (integer (property (codes "startFrame") raw) 0) _ e2 λ start p e3.
          bind_elim (integer (property (codes "frames") raw) 1) _ e3 λ count q e4.
            bind_elim (integer (property (codes "byteOffset") raw) 0) _ e4 λ place r e5.
              let one = integer_ok (property (codes "frames") raw) 1 count q in ground arith

-- The loop, from a timeline end inside the source and a safe offset.
admit_intervals_ok :
    (frames fb : ℕ) (some_before : Bool) (previous offset metadata : ℕ) (vs : List Value)
    (r : List Interval × ℕ × ℕ)
    → previous ≤ frames
    → offset ≤ max_safe
    → admit_intervals frames fb some_before previous offset metadata vs ≡ ok r
    → Placed fb frames r.1 previous offset r.0 × (r.1 ≤ max_safe)
unfolding admit_intervals
admit_intervals_ok frames fb some_before previous offset metadata [] r low safe e =
    subst (λ r. Placed fb frames r.1 previous offset r.0 × (r.1 ≤ max_safe)) (sym (ok_injective e))
      ((low, refl), safe)
admit_intervals_ok frames fb some_before previous offset metadata (v ∷ vs) r low safe e =
    bind_elim (admit_interval frames fb some_before previous offset v) _ e λ i p e1.
      require_elim (leb (metadata + length (interval_text i)) max_index_bytes) corrupt _ e1 λ _ e2.
        bind_elim
          (admit_intervals frames fb true (i.start_frame + i.frames) (i.byte_offset + i.frames * fb)
            (metadata + length (interval_text i)) vs)
          _ e2
          λ rest q e3.
            let (after, one, inside, place, small) =
              admit_interval_ok frames fb some_before previous offset v i p in
            let (placed, bound) =
              admit_intervals_ok frames fb true (i.start_frame + i.frames)
                (i.byte_offset + i.frames * fb) (metadata + length (interval_text i)) vs rest inside
                small q in
            subst (λ r. Placed fb frames r.1 previous offset r.0 × (r.1 ≤ max_safe))
              (sym (ok_injective e3))
              (
                (
                  after,
                  one,
                  place,
                  subst
                      (λ n.
                        Placed fb frames rest.1 (i.start_frame + i.frames) (n + i.frames * fb)
                          rest.0)
                      place placed,
                ),
                bound,
              )

frames_bound :
    (m : Manifest) (packed_frames payload_bytes : ℕ) (encoded : Text)
    → IsWellFormed m packed_frames payload_bytes encoded
    → m.frames ≤ max_safe
frames_bound m packed_frames payload_bytes encoded w =
    ground (arith, w.canonical_safe, w.channel_count, w.depth)

admit_rest_ok :
    (root : Fields) (known : Option ℕ) (m : Manifest) (raws : List Value) (index : Index)
    (packed : List ℕ)
    → Accepted none m
    → admit_rest root known m raws ≡ ok index
    → length packed ≡ index.active_bytes
    → IsAdmitted index packed
unfolding admit_rest
admit_rest_ok root known m raws index packed (frames, bytes, encoded, w, fit) e size =
    let fb = bytes_per_frame m.channels m.bit_depth in
    require_elim (is_safe (m.frames * fb)) corrupt _ e λ _ e1.
      bind_elim (admit_intervals m.frames fb false 0 0 0 raws) _ e1 λ r p e2.
        require_elim (absent_or (property (codes "activeBytes") root) r.1) corrupt _ e2 λ _ e3.
          require_elim (absent_or (property (codes "canonicalBytes") root) (m.frames * fb)) corrupt
            _ e3
            λ _ e4. require_elim (packed_fits known r.1) corrupt _ e4 λ _ e5.
              require_elim
                (leb (encoded_bytes m r.1 (m.frames * fb) (length r.0) r.2) max_index_bytes) corrupt
                _ e5
                λ _ e6.
                  let (placed, bound) =
                    admit_intervals_ok m.frames fb false 0 0 0 raws r (omega arith) (omega arith)
                      p in
                  subst (λ n. n.active_bytes ≡ length packed → IsAdmitted n packed)
                    (sym (ok_injective e6))
                    (λ s. record {
                      channels_known = w.channel_count;
                      depth_known = w.depth;
                      frames_safe = frames_bound m frames bytes encoded w;
                      active = s;
                      active_safe = subst (λ n. n ≤ max_safe) s bound;
                      placed = subst (λ n. Placed fb m.frames n 0 0 r.0) s placed;
                    })
                    (sym size)

-- A validated index describes its packed bytes, when they have the recorded length.
pub validate_index-IsAdmitted :
    (value : Value) (known : Option ℕ) (index : Index) (packed : List ℕ)
    → validate_index value known ≡ ok index
    → length packed ≡ index.active_bytes
    → IsAdmitted index packed
unfolding validate_index
validate_index-IsAdmitted value known index packed e size =
    bind_elim (as_record value) _ e λ root _ e1.
      bind_elim (exact_keys root pcm_index_keys pcm_required_keys) _ e1 λ u _ e2.
        require_elim (is_pcm_format (property (codes "format") root)) corrupt _ e2 λ _ e3.
          bind_elim (validate_manifest (scalar_source root) none) _ e3 λ m p e4.
            bind_elim (preflight_array (property (codes "intervals") root) max_intervals) _ e4
              λ raws _ e5.
                admit_rest_ok root known m raws index packed
                  (validate_manifest-IsWellFormed (scalar_source root) none m p) e5 size

-- A window of 1 to 8192 frames inside the source is served from a validated index and packed bytes
-- of the recorded length, and what is returned is the canonical PCM of these frames.
pub validate_index-serves :
    (value : Value) (known : Option ℕ) (index : Index) (packed : List ℕ) (start count : ℕ)
    → validate_index value known ≡ ok index
    → length packed ≡ index.active_bytes
    → 1 ≤ count
    → count ≤ max_window_frames
    → start + count ≤ index.frames
    → (out : List ℕ) × (read_window true index packed (number start) (number count) ≡ ok out)
      × Holds
          (bytes_per_frame index.channels index.bit_depth)
          index.intervals
          packed
          start
          (start + count)
          out
validate_index-serves value known index packed start count e size one many inside =
    read_window-Holds index packed start count
      (validate_index-IsAdmitted value known index packed e size) one many inside
