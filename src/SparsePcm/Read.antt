-- ===== src/SparsePcm/Read.antt =====
-- The copied range of a window read, once the intervals that it spans are known.
use engine_web_adapter.Prelude.{
  ℕ, zero, suc, ◌+◌, ◌-◌, ◌*◌, ◌≤◌, ◌<◌, ◌≡◌, ◌∙◌, List, ◌∷◌, some, min, max, arith, le→leb, ==_iff,
  length, get_elem?, get_or, take, drop, subarray, length-subarray,
}
use engine_web_adapter.Errors.{ok}
use engine_web_adapter.Json.{max_safe}
use engine_web_adapter.SparsePcm.{Interval, end_frame, copy_intervals, read_range}
use engine_web_adapter.SparsePcm.Layout.{
  Placed, Placed-Ordered, Ordered-take, canonical_or, offset_bounds, mul_mono,
}
use engine_web_adapter.SparsePcm.Copy.{
  AllFit, length-copy_intervals, get_or-copy_intervals, sub_mul, max_mul, min_mul,
}
use engine_web_adapter.SparsePcm.Window.{reach, canonical-reach, take-AllFit}

-- The first and one past the last byte that the read fetches.
abbrev packed_start : ℕ → ℕ → Interval → ℕ
packed_start fb start fi = fi.byte_offset + (max start fi.start_frame - fi.start_frame) * fb

abbrev packed_end : ℕ → ℕ → Interval → ℕ
packed_end fb stop li = li.byte_offset + (min stop (end_frame li) - li.start_frame) * fb

-- The fetched bytes do not run backwards.
fetch_ordered :
    (fb frames bytes previous offset S P : ℕ) (fi : Interval) (rest : List Interval) (n : ℕ)
    (li : Interval)
    → Placed fb frames bytes previous offset (fi ∷ rest)
    → get_elem? (fi ∷ rest) n ≡ some li
    → S ≤ end_frame fi * fb
    → S ≤ P
    → fi.start_frame * fb ≤ P
    → li.start_frame * fb ≤ P
    → fi.byte_offset + (max S (fi.start_frame * fb) - fi.start_frame * fb)
      ≤ li.byte_offset + (min P (end_frame li * fb) - li.start_frame * fb)
fetch_ordered fb frames bytes previous offset S P fi rest zero li placed e hs hsp hf hl =
    ground arith
fetch_ordered fb frames bytes previous offset S P fi rest (suc n) li placed e hs hsp hf hl =
    let b =
      offset_bounds fb frames bytes (end_frame fi) (offset + fi.frames * fb) rest n li placed.3 e in
    omega arith

module _ (fb start stop : ℕ) (packed : List ℕ) (positive : 1 ≤ fb)
    (safe : length packed ≤ max_safe) where
  read_range_bounds :
      (frames previous offset n : ℕ) (rest : List Interval) (fi li : Interval)
      → Placed fb frames (length packed) previous offset (fi ∷ rest)
      → get_elem? (fi ∷ rest) n ≡ some li
      → fi.start_frame < stop
      → li.start_frame < stop
      → start < end_frame fi
      → start < stop
      → (packed_start fb start fi ≤ packed_end fb stop li)
        × (packed_end fb stop li ≤ length packed)
        × AllFit fb
            (start * fb)
            (stop * fb)
            (packed_start fb start fi)
            (packed_end fb stop li)
            (take (suc n) (fi ∷ rest))
  read_range_bounds frames previous offset n rest fi li placed at_last hf hl he forward =
      let ps_eq : packed_start fb start fi
          ≡ fi.byte_offset + (max (start * fb) (fi.start_frame * fb) - fi.start_frame * fb) =
        rw
          (sub_mul (max start fi.start_frame) fi.start_frame fb, max_mul start fi.start_frame fb) in
      let pe_eq : packed_end fb stop li
          ≡ li.byte_offset + (min (stop * fb) (end_frame li * fb) - li.start_frame * fb) =
        rw (sub_mul (min stop (end_frame li)) li.start_frame fb, min_mul stop (end_frame li) fb) in
      let b =
        offset_bounds fb frames (length packed) previous offset (fi ∷ rest) n li placed at_last in
      let s1 = mul_mono start (end_frame fi) fb (omega arith) in
      let s2 = mul_mono li.start_frame stop fb (omega arith) in
      (
        (let ordered =
              fetch_ordered fb frames (length packed) previous offset (start * fb) (stop * fb) fi
                rest n li placed at_last s1 (mul_mono start stop fb (omega arith))
                (mul_mono fi.start_frame stop fb (omega arith)) s2 in
            omega arith),
        omega arith,
        take-AllFit fb frames (length packed) previous offset (start * fb) (stop * fb)
            (packed_start fb start fi) (packed_end fb stop li) fi rest n li positive placed at_last
            (omega arith) s1 pe_eq s2,
      )

  -- The guards pass, so the range is copied.
  read_range_runs :
      (first n : ℕ) (is rest : List Interval) (fi li : Interval) (out : List ℕ)
      → packed_start fb start fi ≤ packed_end fb stop li
      → packed_end fb stop li ≤ length packed
      → drop first is ≡ rest
      → read_range fb is packed start stop out first fi (first + n) li
        ≡ ok (
            copy_intervals fb start stop
              (packed_start fb start fi)
              (subarray packed (packed_start fb start fi) (packed_end fb stop li))
              (take (suc n) rest)
              out)
  unfolding read_range
  read_range_runs first n is rest fi li out hpe hl suffix =
      let ps = packed_start fb start fi in
      let pe = packed_end fb stop li in
      let count : first + n + 1 - first ≡ suc n = omega arith in
      rw (
        le→leb ps max_safe (omega arith),
        le→leb pe max_safe (omega arith),
        le→leb ps pe hpe,
        (==_iff (length (subarray packed ps pe)) (pe - ps)).1
            (omega (arith, length-subarray packed ps pe)),
        suffix,
        count,
      )

  -- The read once the first interval is known: `fi ∷ rest` is the list from that interval on.
  pub read_range_lem :
      (frames previous offset first : ℕ) (is rest : List Interval) (fi li : Interval) (out : List ℕ)
      → Placed fb frames (length packed) previous offset (fi ∷ rest)
      → drop first is ≡ fi ∷ rest
      → get_elem? (fi ∷ rest) (reach rest stop) ≡ some li
      → fi.start_frame < stop
      → li.start_frame < stop
      → start < end_frame fi
      → start < stop
      → length out ≡ stop * fb - start * fb
      → (result : List ℕ) × (read_range fb is packed start stop out first fi
            (first + reach rest stop)
            li
          ≡ ok result)
        × (length result ≡ stop * fb - start * fb)
        × ((j : ℕ)
            → start * fb + j < stop * fb
            → get_or result j 0
              ≡ canonical_or fb (fi ∷ rest) packed (get_or out j 0) (start * fb + j))
  read_range_lem frames previous offset first is rest fi li out placed suffix at_last hf hl he
        forward e =
      let ps = packed_start fb start fi in
      let pe = packed_end fb stop li in
      let mid = take (suc (reach rest stop)) (fi ∷ rest) in
      let b =
        read_range_bounds frames previous offset (reach rest stop) rest fi li placed at_last hf hl
          he forward in
      let ordered = Placed-Ordered fb frames (length packed) previous offset (fi ∷ rest) placed in
      (
        copy_intervals fb start stop ps (subarray packed ps pe) mid out,
        read_range_runs first (reach rest stop) is (fi ∷ rest) fi li out b.0 b.1 suffix,
        length-copy_intervals fb start stop ps pe packed positive b.1 mid out b.2 e ∙ e,
        λ j h.
            get_or-copy_intervals fb start stop ps pe packed positive b.1 previous mid out j
              (Ordered-take (suc (reach rest stop)) previous (fi ∷ rest) ordered) b.2 e h
            ∙ rw (
                canonical-reach fb (end_frame fi) stop rest packed (get_or out j 0) (start * fb + j)
                  ordered.2 h),
      )
