-- ===== src/SparseResponse/Intact.antt =====
-- src/stems/sparse-response.ts: reads that succeed give the bytes of the views in their order,
-- whatever the reader answers.
use engine_web_adapter.Prelude.{
  ℕ, zero, suc, ◌+◌, ◌-◌, ◌≤◌, ◌<◌, ◌≡◌, refl, sym, ap, subst, ◌∙◌, inl, inr, Bool, false, not,
  ◌&&◌, ◌||◌, ltb, ◌==◌, if_elim, Bool-cases, Option, none, some, List, [], ◌∷◌, ◌++◌, append_assoc,
  append-nil, arith, length, take, drop, min, drop_past, drop-drop, subarray, subarray-take,
  take-append-drop, take-append_all, length-append, length-take, length-drop,
}
use engine_web_adapter.Errors.{ok, err, Failure, Ran, and_next}
use engine_web_adapter.Json.{is_safe}
use engine_web_adapter.SparseFormat.Sound.{ok_injective}
use engine_web_adapter.SparseResponse.Offers.{carried, carried_none, carry_value}
use engine_web_adapter.SparseResponse.{
  Reply, settled, rejected, View, Response, Cursor, State, max_input_bytes, admit_view, take_reply,
  read_reply, has_carry, next_body, needed, take_chunk, read_loop, read_exact, fresh,
}

-- The bytes of all views that the reader will answer with.
abbrev pub content : List Reply → List ℕ
content [] = []
content (settled done (some view) aborted ∷ replies) = view.bytes ++ content replies
content (settled done none aborted ∷ replies) = content replies
content (rejected thrown ∷ replies) = content replies

abbrev coming : State → List ℕ
coming st = carried (st.1).carry (st.1).carry_offset ++ content st.0

-- A view is the next part of what is coming.
data Passed (before : List ℕ) : Ran State (Option (List ℕ)) → Type 0 where
  failed : (thrown : Failure) (st : State) → Passed before (err thrown, st)
  dried : (st : State) → before ≡ coming st → Passed before (ok none, st)
  passed :
      (st : State) (value : List ℕ)
      → (st.1).carry ≡ some value
      → (st.1).carry_offset < length value
      → before ≡ coming st
      → Passed before (ok (some value), st)

module _ (r : Response) where
  admit_view-Passed :
      (done : Bool) (view : View) (replies : List Reply) (s : Cursor)
      → Passed
          (view.bytes ++ content replies)
          (admit_view r done view (replies, record s { carry = none; carry_offset = 0 }))
  unfolding admit_view
  admit_view-Passed done view replies s =
      if_elim (Passed (view.bytes ++ content replies))
        (r.byob
          && (ltb max_input_bytes (length view.bytes) || ltb max_input_bytes view.buffer_bytes))
        (λ _. failed _ _)
        (λ _.
          if_elim (Passed (view.bytes ++ content replies)) done
            (λ _.
              if_elim (Passed (view.bytes ++ content replies)) (length view.bytes == 0)
                (λ e. dried _ (ap (λ b. b ++ content replies) (empty view.bytes (ground arith))))
                (λ e. passed _ view.bytes refl (ground arith) refl))
            (λ _.
              if_elim (Passed (view.bytes ++ content replies)) (ltb (length view.bytes) 1)
                (λ _. failed _ _) (λ e. passed _ view.bytes refl (ground arith) refl)))
    where
      empty : (bytes : List ℕ) → length bytes ≡ 0 → bytes ≡ []
      empty [] e = refl
      empty (b ∷ bytes) e = absurd (omega arith)

  read_reply-Passed :
      (replies : List Reply) (s : Cursor)
      → Passed
          (content replies)
          (read_reply r (replies, record s { carry = none; carry_offset = 0 }))
  unfolding read_reply take_reply
  read_reply-Passed [] s = failed _ _
  read_reply-Passed (rejected thrown ∷ replies) s = failed _ _
  read_reply-Passed (settled done none aborted ∷ replies) s =
      if_elim (Passed (content replies)) (done && aborted) (λ _. failed _ _)
        (λ _.
          if_elim (Passed (content replies)) (not done || r.byob) (λ _. failed _ _)
            (λ _. dried _ refl))
  read_reply-Passed (settled done (some view) aborted ∷ replies) s =
      if_elim (Passed (view.bytes ++ content replies)) (done && aborted) (λ _. failed _ _)
        (λ _. admit_view-Passed done view replies s)

  next_body-Passed : (st : State) → Passed (coming st) (next_body r st)
  unfolding next_body
  next_body-Passed (replies, s) =
      if_elim (Passed (coming (replies, s))) (has_carry s.carry s.carry_offset)
        (λ e.
          let (value, same, inside) = carry_value s.carry s.carry_offset e in
          subst (λ c. Passed (coming (replies, s)) (ok c, (replies, s))) (sym same)
            (passed (replies, s) value same inside refl))
        (λ e.
          let nothing = ap (λ c. c ++ content replies) (carried_none s.carry s.carry_offset e) in
          if_elim (Passed (coming (replies, s))) s.eof (λ _. dried _ nothing)
            (λ _.
              subst
                (λ b.
                  Passed b (read_reply r (replies, record s { carry = none; carry_offset = 0 })))
                (sym nothing) (read_reply-Passed replies s)))

took_part :
    (left : ℕ) (value : List ℕ) (st : State)
    → (st.1).carry ≡ some value
    → (st.1).carry_offset < length value
    → let got = take_chunk left value st.1 in
      (coming st ≡ got.0 ++ coming (st.0, got.1))
      × (length got.0 ≡ min (length value - (st.1).carry_offset) left)
unfolding take_chunk
took_part left value (replies, s) same inside =
    let offset = s.carry_offset in
    let count = min (length value - offset) left in
    let size = length-drop offset value in
    let part = subarray-take value offset count in
    let whole = ap (λ c. carried c offset ++ content replies) same in
    let split = sym (take-append-drop count (drop offset value)) in
    (
      elim (Bool-cases (offset + count == length value)) [
        | inl e ↦
            let nothing : drop count (drop offset value) ≡ [] =
              drop_past (drop offset value) count (ground arith) in
            rw e (
              whole
              ∙ ap (λ b. b ++ content replies)
                  (split
                    ∙ ap (λ b. take count (drop offset value) ++ b) nothing
                    ∙ append-nil _
                    ∙ sym part))
        | inr e ↦ rw e (
            whole
            ∙ ap (λ b. b ++ content replies) split
            ∙ append_assoc (take count (drop offset value)) (drop count (drop offset value))
                (content replies)
            ∙ ap (λ b. b ++ (drop count (drop offset value) ++ content replies)) (sym part)
            ∙ ap (λ b. subarray value offset (offset + count) ++ (b ++ content replies))
                (drop-drop offset count value)
            ∙ sym (
                ap
                  (λ c.
                    subarray value offset (offset + count)
                    ++ (carried c (offset + count) ++ content replies))
                  same))
      ],
      ap length part ∙ length-take count (drop offset value) ∙ omega arith,
    )

-- What a read that succeeds gives: the next bytes, and as many as asked.
record Gives (before : List ℕ) (left : ℕ) (m : Ran State (List ℕ)) : Type 0 where
  given : (bytes : List ℕ) → m.0 ≡ ok bytes → (before ≡ bytes ++ coming m.1) × (length bytes ≡ left)

Gives-failed :
    (before : List ℕ) (left : ℕ) (thrown : Failure) (st : State)
    → Gives before left (err thrown, st)
Gives-failed before left thrown st = record { given = λ bytes e. absurd (cc) }

Gives-none :
    (before : List ℕ) (left : ℕ) (st : State)
    → before ≡ coming st
    → left ≡ 0
    → Gives before left (ok [], st)
Gives-none before left st same zero_ = record {
  given = λ bytes e.
      let nothing : bytes ≡ [] = ok_injective e in
      (same ∙ ap (λ b. b ++ coming st) (sym nothing), ap length nothing ∙ sym zero_);
}

-- The bytes of a turn before those of the turns behind it.
Gives-then :
    (before part : List ℕ) (left : ℕ) (m : Ran State (List ℕ)) (middle : List ℕ)
    → before ≡ part ++ middle
    → length part ≤ left
    → Gives middle (left - length part) m
    → Gives before left (and_next m λ more st. (ok (part ++ more), st))
Gives-then before part left (err thrown, st) middle split fits h =
    Gives-failed before left thrown st
Gives-then before part left (ok more, st) middle split fits h = record {
  given = λ bytes e.
      let whole : bytes ≡ part ++ more = ok_injective e in
      let (rest, size) = h.given more refl in
      (
        split
            ∙ ap (λ b. part ++ b) rest
            ∙ sym (append_assoc part more (coming st))
            ∙ ap (λ b. b ++ coming st) (sym whole),
        ap length whole ∙ length-append part more ∙ omega arith,
      );
}

module _ (r : Response) where
  read_loop-Gives :
      (fuel left : ℕ) (st : State) → left ≤ fuel → Gives (coming st) left (read_loop r fuel left st)
  unfolding read_loop
  read_loop-Gives zero left st enough = Gives-none (coming st) left st refl (omega arith)
  read_loop-Gives (suc fuel) left st enough =
      if_elim (Gives (coming st) left) (left == 0)
        (λ e. Gives-none (coming st) left st refl (ground arith))
        (λ e. turn e (read_loop-Gives fuel) (next_body r st) (next_body-Passed r st))
    where
      turn :
          (left == 0) ≡ false
          → ((left : ℕ) (st : State)
              → left ≤ fuel
              → Gives (coming st) left (read_loop r fuel left st))
          → (m : Ran State (Option (List ℕ))) → Passed (coming st) m
          → Gives (coming st) left (
              and_next (needed m) λ value st1.
                let got = take_chunk left value st1.1 in
                and_next
                  (read_loop r fuel (left - length got.0) (st1.0, got.1))
                  λ more st2. (ok (got.0 ++ more), st2))
      turn e again _ (failed thrown st1) = Gives-failed (coming st) left thrown st1
      turn e again _ (dried st1 same) = Gives-failed (coming st) left _ st1
      turn e again _ (passed st1 value same inside next) =
          let got = take_chunk left value st1.1 in
          let (split, size) = took_part left value st1 same inside in
          Gives-then (coming st) got.0 left (read_loop r fuel (left - length got.0) (st1.0, got.1))
            (coming (st1.0, got.1)) (next ∙ split) (omega arith)
            (again (left - length got.0) (st1.0, got.1) (ground arith))

  read_exact-Gives : (size : ℕ) (st : State) → Gives (coming st) size (read_exact r size st)
  unfolding read_exact
  read_exact-Gives size st =
      if_elim (Gives (coming st) size) (not (is_safe size))
        (λ _. Gives-failed (coming st) size _ st) (λ _. read_loop-Gives size size st (omega arith))

  -- Reads of some sizes, one after the other.
  abbrev pub read_sizes : List ℕ → State → Ran State (List ℕ)
  read_sizes [] st = (ok [], st)
  read_sizes (size ∷ sizes) st =
      and_next (read_exact r size st)
        λ bytes st1. and_next (read_sizes sizes st1) λ more st2. (ok (bytes ++ more), st2)

  abbrev pub total : List ℕ → ℕ
  total [] = 0
  total (size ∷ sizes) = size + total sizes

  read_sizes-Gives :
      (sizes : List ℕ) (st : State) → Gives (coming st) (total sizes) (read_sizes sizes st)
  read_sizes-Gives [] st = Gives-none (coming st) 0 st refl refl
  read_sizes-Gives (size ∷ sizes) st =
      behind (read_exact r size st) (read_exact-Gives size st) (read_sizes-Gives sizes)
    where
      behind :
          (m : Ran State (List ℕ))
          → Gives (coming st) size m
          → ((st : State) → Gives (coming st) (total sizes) (read_sizes sizes st))
          → Gives (coming st) (size + total sizes) (
              and_next m
                λ bytes st1. and_next (read_sizes sizes st1) λ more st2. (ok (bytes ++ more), st2))
      behind (err thrown, st1) h rest = Gives-failed (coming st) (size + total sizes) thrown st1
      behind (ok bytes, st1) h rest =
          let (split, count) = h.given bytes refl in
          let left : size + total sizes - length bytes ≡ total sizes = omega arith in
          Gives-then (coming st) bytes (size + total sizes) (read_sizes sizes st1) (coming st1)
            split (omega arith)
            (subst (λ n. Gives (coming st1) n (read_sizes sizes st1)) (sym left) (rest st1))

  -- Whatever the reader answers, the bytes of reads that all succeed are the first ones of the
  -- views in their order, as many as the reads asked for.
  pub read_sizes-take :
      (sizes : List ℕ) (replies : List Reply) (bytes : List ℕ)
      → (read_sizes sizes (replies, fresh)).0 ≡ ok bytes
      → (bytes ≡ take (total sizes) (content replies)) × (length bytes ≡ total sizes)
  read_sizes-take sizes replies bytes e =
      let (split, count) = (read_sizes-Gives sizes (replies, fresh)).given bytes e in
      let behind = coming (read_sizes sizes (replies, fresh)).1 in
      (
        sym (take-append_all bytes behind)
            ∙ ap (take (length bytes)) (sym split)
            ∙ ap (λ n. take n (content replies)) count,
        count,
      )
