-- ===== src/SparseResponse/Turns.antt =====
-- src/stems/sparse-response.ts: a read of the cursor, turn by turn, gives what the stream serves.
use engine_web_adapter.Prelude.{
  ℕ, zero, suc, ◌+◌, ◌-◌, ◌≤◌, ◌<◌, ◌≡◌, refl, sym, ap, subst, ◌∙◌, inl, inr, Bool, true, false,
  leb, ◌==◌, if_elim, if◌then◌else◌, Bool-cases, Option, some, List, [], ◌++◌, arith, length, take,
  drop, min, drop_past, subarray-take, take-append, drop-append, length-append, length-take,
  length-drop, take-split, drop-drop,
}
use engine_web_adapter.Errors.{ok, err, failure, stem_delivery_range, Ran, and_next}
use engine_web_adapter.SparseResponse.Stream.{Stream, serve}
use engine_web_adapter.SparseResponse.Offers.{
  carried, Agrees, Offered, dry, offers, next_body-Offered,
}
use engine_web_adapter.SparseResponse.{Response, State, next_body, needed, take_chunk, read_loop}

-- One answer, and variables that agree behind it.
pub record Same (byob : Bool) {A : Type 0} (m : Ran State A) (n : Ran Stream A) : Type 0 where
  pub answer : m.0 ≡ n.0
  pub agrees : Agrees byob m.1 n.1

pub and_next-Same :
    (byob : Bool) {A B : Type 0} (m : Ran State A) (n : Ran Stream A) (f : A → State → Ran State B)
    (g : A → Stream → Ran Stream B)
    → Same byob m n
    → ((x : A) (st : State) (a : Stream) → Agrees byob st a → Same byob (f x st) (g x a))
    → Same byob (and_next m f) (and_next n g)
and_next-Same byob (err e, st) (err e2, a) f g h next =
    let same : err e ≡ err e2 = h.answer in record { answer = cc; agrees = h.agrees }
and_next-Same byob (ok x, st) (ok y, a) f g h next =
    let same : ok x ≡ ok y = h.answer in
    let equal : x ≡ y = cc in subst (λ y. Same byob (f x st) (g y a)) equal (next x st a h.agrees)
and_next-Same byob (err e, st) (ok y, a) f g h next =
    let same : err e ≡ ok y = h.answer in absurd (cc)
and_next-Same byob (ok x, st) (err e, a) f g h next =
    let same : ok x ≡ err e = h.answer in absurd (cc)

pub if_Same :
    (byob : Bool) {A : Type 0} {m m2 : Ran State A} {n n2 : Ran Stream A} (b c : Bool)
    → b ≡ c
    → (c ≡ true → Same byob m n)
    → (c ≡ false → Same byob m2 n2)
    → Same byob (if b then m else m2) (if c then n else n2)
if_Same byob true true e up down = up refl
if_Same byob false false e up down = down refl
if_Same byob true false e up down = absurd (cc)
if_Same byob false true e up down = absurd (cc)

-- The stream behind its next bytes.
abbrev skip_ahead : ℕ → Stream → Stream
skip_ahead count a = record a { left = drop count a.left; position = a.position + count }

serve_split :
    (count left : ℕ) (a : Stream)
    → count ≤ left
    → count ≤ length a.left
    → serve left a
      ≡ and_next
          (serve (left - count) (skip_ahead count a))
          (λ more a2. (ok (take count a.left ++ more), a2))
unfolding serve
serve_split count left a within inside =
    let size = length-drop count a.left in
    elim (Bool-cases (leb left (length a.left))) [
      | inl e ↦
          let rest : leb (left - count) (length (drop count a.left)) ≡ true = ground arith in
          let sum : count + (left - count) ≡ left = omega arith in
          let front = take-split count (left - count) a.left ∙ ap (λ n. take n a.left) sum in
          let back = drop-drop count (left - count) a.left ∙ ap (λ n. drop n a.left) sum in
          let place : a.position + count + (left - count) ≡ a.position + left = omega arith in
          rw (e, rest, front, back, place) refl
      | inr e ↦
          let rest : leb (left - count) (length (drop count a.left)) ≡ false = ground arith in
          let place : a.position + count + length (drop count a.left) ≡ a.position + length a.left =
            omega arith in
          rw (e, rest, place) refl
    ]

took :
    (byob : Bool) (left : ℕ) (value : List ℕ) (st : State) (a : Stream)
    → Agrees byob st a
    → (st.1).carry ≡ some value
    → (st.1).carry_offset < length value
    → let count = min (length value - (st.1).carry_offset) left in
      let got = take_chunk left value st.1 in
      (got.0 ≡ take count a.left)
      × (count ≤ length a.left)
      × Agrees byob (st.0, got.1) (skip_ahead count a)
unfolding take_chunk
took byob left value (replies, s) a h same inside =
    let offset = s.carry_offset in
    let count = min (length value - offset) left in
    let bytes : a.left ≡ drop offset value ++ h.tail =
      h.bytes ∙ ap (λ c. carried c offset ++ h.tail) same in
    let size = length-drop offset value in
    let room : count ≤ length (drop offset value) = omega arith in
    let total : length a.left ≡ length (drop offset value) + length h.tail =
      ap length bytes ∙ length-append (drop offset value) h.tail in
    (
      subarray-take value offset count
          ∙ sym (ap (take count) bytes ∙ take-append count (drop offset value) h.tail room),
      omega arith,
      elim (Bool-cases (offset + count == length value)) [
        | inl e ↦
            let whole : offset + count ≡ length value = ground arith in
            let nothing : drop count (drop offset value) ≡ [] =
              drop_past (drop offset value) count (omega arith) in
            rw e (record {
              tail = h.tail;
              awaits = h.awaits;
              bytes =
                  ap (drop count) bytes
                  ∙ drop-append count (drop offset value) h.tail room
                  ∙ ap (λ c. c ++ h.tail) nothing;
              place = ap (λ n. n + count) h.place;
              borrow = h.borrow;
            })
        | inr e ↦ rw e (record {
          tail = h.tail;
          awaits = h.awaits;
          bytes =
              ap (drop count) bytes
              ∙ drop-append count (drop offset value) h.tail room
              ∙ ap (λ c. c ++ h.tail) (drop-drop offset count value)
              ∙ sym (ap (λ c. carried c (offset + count) ++ h.tail) same);
          place = ap (λ n. n + count) h.place;
          borrow = h.borrow;
        })
      ],
    )

module _ (r : Response) where
  serve_none :
      (left : ℕ) (st : State) (a : Stream)
      → left ≡ 0
      → Agrees r.byob st a
      → Same r.byob (ok [], st) (serve left a)
  unfolding serve
  serve_none left st a none_ h =
      let fits : leb 0 (length a.left) ≡ true = ground arith in
      rw (none_, fits)
        (record {
          answer = refl;
          agrees = record {
            tail = h.tail;
            awaits = h.awaits;
            bytes = h.bytes;
            place = omega (arith, h.place);
            borrow = h.borrow;
          };
        })

  serve_dry :
      (left : ℕ) (st : State) (a : Stream)
      → (left == 0) ≡ false
      → a.left ≡ []
      → Agrees r.byob st a
      → Same r.byob (err (failure stem_delivery_range), st) (serve left a)
  unfolding serve
  serve_dry left st a some_ nothing h =
      let short : leb left (length a.left) ≡ false = ground (arith, ap length nothing) in
      rw short (record {
        answer = refl;
        agrees = record {
          tail = h.tail;
          awaits = h.awaits;
          bytes = sym nothing ∙ h.bytes;
          place = omega (arith, h.place, ap length nothing);
          borrow = h.borrow;
        };
      })

  pub read_loop-Same :
      (fuel left : ℕ) (st : State) (a : Stream)
      → left ≤ fuel
      → Agrees r.byob st a
      → Same r.byob (read_loop r fuel left st) (serve left a)
  unfolding read_loop
  read_loop-Same zero left st a enough h = serve_none left st a (omega arith) h
  read_loop-Same (suc fuel) left st a enough h =
      if_elim (λ (m : Ran State (List ℕ)). Same r.byob m (serve left a)) (left == 0)
        (λ e. serve_none left st a (ground arith) h)
        (λ e. turn e (read_loop-Same fuel) (next_body r st) (next_body-Offered r st a h))
    where
      rest : ℕ → List ℕ → State → Ran State (List ℕ)
      rest left value st1 =
          let got = take_chunk left value st1.1 in
          and_next (read_loop r fuel (left - length got.0) (st1.0, got.1))
            λ more st2. (ok (got.0 ++ more), st2)

      turn :
          (left == 0) ≡ false
          → ((left : ℕ) (st : State) (a : Stream)
              → left ≤ fuel
              → Agrees r.byob st a
              → Same r.byob (read_loop r fuel left st) (serve left a))
          → (m : Ran State (Option (List ℕ))) → Offered r.byob a m
          → Same r.byob (and_next (needed m) (rest left)) (serve left a)
      turn e again _ (dry st1 h1 nothing) = serve_dry left st1 a e nothing h1
      turn e again _ (offers st1 value same inside h1) =
          let count = min (length value - (st1.1).carry_offset) left in
          let got = take_chunk left value st1.1 in
          let (front, room, h2) = took r.byob left value st1 a h1 same inside in
          let size : length got.0 ≡ count =
            ap length front ∙ length-take count a.left ∙ omega arith in
          let more =
            subst
              (λ n.
                Same r.byob (read_loop r fuel (left - n) (st1.0, got.1))
                  (serve (left - count) (skip_ahead count a)))
              (sym size)
              (again (left - count) (st1.0, got.1) (skip_ahead count a) (ground arith) h2) in
          subst (Same r.byob (rest left value st1))
            (sym (serve_split count left a (omega arith) room))
            (and_next-Same r.byob (read_loop r fuel (left - length got.0) (st1.0, got.1))
              (serve (left - count) (skip_ahead count a)) _ _ more
              λ x st2 a2 h3. record { answer = ap (λ g. ok (g ++ x)) front; agrees = h3 })
