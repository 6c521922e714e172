-- ===== src/SparsePcm/Serve.antt =====
-- `readSparsePcmWindow`, from its arguments to the bytes that it returns.
use engine_web_adapter.Prelude.{
  ℕ, ◌⊎◌, suc, ◌+◌, ◌-◌, ◌*◌, ◌≤◌, ◌<◌, ◌≡◌, ap, sym, ◌∙◌, inl, inr, true, false, List, ◌∷◌, some,
  none, leb, ==_iff, le→leb, Bool-cases, Option-cases, arith, length, get_elem?, get_elem?-drop,
  get_or, drop, replicate, length-replicate, get_or-replicate, drop-get_elem?, drop_past,
  get_elem?-none,
}
use engine_web_adapter.Errors.{ok}
use engine_web_adapter.Json.{number, max_safe}
use engine_web_adapter.SparsePcm.{
  Interval, Index, first_intersecting, last_from, read_range, read_bytes, read_window,
  bytes_per_frame, max_window_frames,
}
use engine_web_adapter.SparsePcm.Layout.{
  Placed, Placed-Ordered, Placed-drop, canonical_or, canonical_byte, canonical_before, mul_mono,
}
use engine_web_adapter.SparsePcm.Search.{EndBefore, EndAfter, first_intersecting-Finds}
use engine_web_adapter.SparsePcm.Window.{reach, last_from-reach, get_elem?-reach, canonical-drop}
use engine_web_adapter.SparsePcm.Read.{read_range_lem}

-- A buffer that holds the canonical bytes of frames `start ..< stop`.
abbrev pub Holds : ℕ → List Interval → List ℕ → ℕ → ℕ → List ℕ → Type 0
Holds fb is packed start stop out =
    (length out ≡ stop * fb - start * fb)
    × ((j : ℕ)
        → start * fb + j < stop * fb
        → get_or out j 0 ≡ canonical_byte fb is packed (start * fb + j))

module _ (fb frames start stop : ℕ) (is : List Interval) (packed : List ℕ) (positive : 1 ≤ fb)
    (forward : start < stop) (safe : length packed ≤ max_safe)
    (placed : Placed fb frames (length packed) 0 0 is) where
  abbrev zeros : List ℕ
  zeros = replicate (stop * fb - start * fb) 0

  -- Where no interval reaches into the window, the zeros are right.
  zeros-Holds :
      (n : ℕ)
      → EndBefore is n start
      → ((k : ℕ) → k < stop * fb → canonical_or fb (drop n is) packed 0 k ≡ 0)
      → Holds fb is packed start stop zeros
  zeros-Holds n before silent = (
    length-replicate (stop * fb - start * fb) 0,
    λ j h.
        get_or-replicate (stop * fb - start * fb) 0 j
        ∙ sym (silent (start * fb + j) h)
        ∙ canonical-drop fb start is n packed 0 (start * fb + j) before (omega arith),
  )

  -- One case for each way that the selection can go.
  serve_none :
      (first : ℕ)
      → EndBefore is first start
      → get_elem? is first ≡ none
      → length is ≤ first
      → Holds fb is packed start stop zeros
  serve_none first before e past =
      zeros-Holds first before
        (λ k h. ap (λ l. canonical_or fb l packed 0 k) (drop_past is first past))

  serve_late :
      (first : ℕ) (fi : Interval)
      → EndBefore is first start
      → get_elem? is first ≡ some fi
      → stop ≤ fi.start_frame
      → Holds fb is packed start stop zeros
  serve_late first fi before e late =
      let (p, o, placed_suffix) = Placed-drop fb frames (length packed) 0 0 is first fi placed e in
      let suffix = drop-get_elem? is first fi e in
      let ordered =
        Placed-Ordered fb frames (length packed) p o (fi ∷ drop (suc first) is) placed_suffix in
      zeros-Holds first before (λ k h.
        ap (λ l. canonical_or fb l packed 0 k) suffix
        ∙ canonical_before fb fi.start_frame (fi ∷ drop (suc first) is) packed 0 k
            (omega arith, ordered.1, ordered.2)
            (omega (arith, mul_mono stop fi.start_frame fb late)))

  serve_range :
      (first : ℕ) (fi : Interval)
      → EndBefore is first start
      → EndAfter is first start
      → get_elem? is first ≡ some fi
      → fi.start_frame < stop
      → (li : Interval) × (out : List ℕ) × (get_elem? is
            (last_from (drop (first + 1) is) stop first)
          ≡ some li)
        × (read_range fb is packed start stop zeros first fi
              (last_from (drop (first + 1) is) stop first)
              li
            ≡ ok out)
        × Holds fb is packed start stop out
  serve_range first fi before after e early =
      let (p, o, placed_suffix) = Placed-drop fb frames (length packed) 0 0 is first fi placed e in
      let suffix = drop-get_elem? is first fi e in
      let up : first + 1 ≡ suc first = omega arith in
      let last =
        ap (λ n. last_from (drop n is) stop first) up
        ∙ last_from-reach (drop (suc first) is) stop first in
      let (li, at_last, hl) = get_elem?-reach fi (drop (suc first) is) stop early in
      let (out, runs, len, get) =
        read_range_lem fb start stop packed positive safe frames p o first is (drop (suc first) is)
          fi li zeros placed_suffix suffix at_last early hl (after first fi (omega arith) e) forward
          (length-replicate (stop * fb - start * fb) 0) in
      (
        li,
        out,
        ap (get_elem? is) last
            ∙ sym (get_elem?-drop is first (reach (drop (suc first) is) stop))
            ∙ ap (λ l. get_elem? l (reach (drop (suc first) is) stop)) suffix
            ∙ at_last,
        ap (λ n. read_range fb is packed start stop zeros first fi n li) last ∙ runs,
        (
          len,
          λ j h.
              get j h
              ∙ ap (λ d. canonical_or fb (fi ∷ drop (suc first) is) packed d (start * fb + j))
                  (get_or-replicate (stop * fb - start * fb) 0 j)
              ∙ ap (λ l. canonical_or fb l packed 0 (start * fb + j)) (sym suffix)
              ∙ canonical-drop fb start is first packed 0 (start * fb + j) before (omega arith),
        ),
      )

  read_bytes_range :
      (fi li : Interval) (out : List ℕ)
      → get_elem? is (first_intersecting is start) ≡ some fi
      → leb stop fi.start_frame ≡ false
      → get_elem? is
          (last_from (drop (first_intersecting is start + 1) is) stop (first_intersecting is start))
        ≡ some li
      → read_range fb is packed start stop zeros
          (first_intersecting is start)
          fi
          (last_from (drop (first_intersecting is start + 1) is) stop (first_intersecting is start))
          li
        ≡ ok out
      → read_bytes fb is packed start stop zeros ≡ ok out
  unfolding read_bytes
  read_bytes_range fi li out e early l runs = rw (e, early, l, read_bytes) runs

  pub read_bytes-Holds :
      (out : List ℕ) × (read_bytes fb is packed start stop zeros ≡ ok out)
      × Holds fb is packed start stop out
  unfolding read_bytes
  read_bytes-Holds =
      let first = first_intersecting is start in
      let (before, after, within) =
        first_intersecting-Finds 0 start is
          (Placed-Ordered fb frames (length packed) 0 0 is placed) in
      elim (Option-cases (get_elem? is first)) [
        | inl e ↦ (zeros, rw (e, read_bytes), serve_none first before e (get_elem?-none is first e))
        | inr (fi, e) ↦ elim (Bool-cases (leb stop fi.start_frame)) [
          | inl late ↦
              (zeros, rw (e, late, read_bytes), serve_late first fi before e (ground arith))
          | inr early ↦
              let (li, out, at_last, runs, holds) =
                serve_range first fi before after e (ground arith) in
              (out, read_bytes_range fi li out e early at_last runs, holds)
        ]
      ]

-- What admission guarantees of an index and of the packed bytes that belong to it.
pub record IsAdmitted (index : Index) (packed : List ℕ) : Type 0 where
  pub channels_known : (index.channels ≡ 1) ⊎ (index.channels ≡ 2)
  pub depth_known : (index.bit_depth ≡ 16) ⊎ (index.bit_depth ≡ 24)
  pub frames_safe : index.frames ≤ max_safe
  pub active : index.active_bytes ≡ length packed
  pub active_safe : length packed ≤ max_safe
  pub placed :
      Placed
        (bytes_per_frame index.channels index.bit_depth)
        index.frames
        (length packed)
        0
        0
        index.intervals

frame_bytes_bounds :
    (channels depth : ℕ)
    → (channels ≡ 1) ⊎ (channels ≡ 2)
    → (depth ≡ 16) ⊎ (depth ≡ 24)
    → (1 ≤ bytes_per_frame channels depth) × (bytes_per_frame channels depth ≤ 6)
frame_bytes_bounds channels depth (inl c) (inl d) = rw (c, d) (omega arith)
frame_bytes_bounds channels depth (inl c) (inr d) = rw (c, d) (omega arith)
frame_bytes_bounds channels depth (inr c) (inl d) = rw (c, d) (omega arith)
frame_bytes_bounds channels depth (inr c) (inr d) = rw (c, d) (omega arith)

pub read_window-Holds :
    (index : Index) (packed : List ℕ) (start count : ℕ)
    → IsAdmitted index packed
    → 1 ≤ count
    → count ≤ max_window_frames
    → start + count ≤ index.frames
    → (out : List ℕ) × (read_window true index packed (number start) (number count) ≡ ok out)
      × Holds
          (bytes_per_frame index.channels index.bit_depth)
          index.intervals
          packed
          start
          (start + count)
          out
unfolding read_window
read_window-Holds index packed start count v one many inside =
    let fb = bytes_per_frame index.channels index.bit_depth in
    let (low, high) =
      frame_bytes_bounds index.channels index.bit_depth v.channels_known v.depth_known in
    let bound : count * fb ≤ max_safe = omega (arith, mul_mono count 8192 fb many) in
    let span : (start + count) * fb - start * fb ≡ count * fb = omega arith in
    let (out, runs, holds) =
      read_bytes-Holds fb index.frames start (start + count) index.intervals packed low
        (omega arith) v.active_safe v.placed in
    (
      out,
      rw
          (
            le→leb (length packed) max_safe v.active_safe,
            (==_iff (length packed) index.active_bytes).1 (sym v.active),
            le→leb start max_safe (omega arith),
            le→leb count max_safe (omega arith),
            le→leb 0 start (omega arith),
            le→leb 1 count one,
            le→leb count max_window_frames many,
            le→leb (start + count) index.frames inside,
            le→leb (count * fb) max_safe bound,
            ← span,
          )
          runs,
      holds,
    )
