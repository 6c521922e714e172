-- ===== src/SparseResponse/Refine.antt =====
-- src/stems/sparse-response.ts: the cursor over a body that arrives whole is the stream of its bytes.
use engine_web_adapter.Prelude.{
  ℕ, ◌≡◌, refl, ap, ◌∙◌, inl, inr, Bool, true, false, not, ◌||◌, ltb, ◌==◌, if◌then◌else◌,
  Bool-cases, Option, List, [], ◌∷◌, ◌++◌, arith, length, drop, length-append, length-drop,
}
use engine_web_adapter.Errors.{
  ok, err, failure, stem_delivery_range, stem_delivery_http, Ran, and_next,
}
use engine_web_adapter.Json.{is_safe}
use engine_web_adapter.SparseFormat.Sound.{ok_injective, bind_elim}
use engine_web_adapter.SparseFormat.Accept.{require_elim}
use engine_web_adapter.SparseResponse.Borrow.{idle, lend, release}
use engine_web_adapter.SparseResponse.Stream.{
  Stream, stream_exact, stream_chunk, Call, exact, chunk, content_length, releasing, eof, without,
  ask_stream, ask_cursor, answers, Delivers,
}
use engine_web_adapter.SparseResponse.Offers.{
  carried, waiting, Agrees, Offered, dry, offers, next_body-Offered,
}
use engine_web_adapter.SparseResponse.Turns.{Same, and_next-Same, if_Same, read_loop-Same}
use engine_web_adapter.SparseResponse.{
  Reply, Response, Cursor, State, Head, open_response, is_encoded, parse_content_length, fresh,
  reached_eof, max_input_bytes, next_body, read_exact, read_chunk, assert_content_length,
  assert_eof,
}

module _ (r : Response) where
  read_exact-Same :
      (size : ℕ) (st : State) (a : Stream)
      → Agrees r.byob st a
      → Same r.byob (read_exact r size st) (stream_exact size a)
  unfolding read_exact stream_exact
  read_exact-Same size st a h = elim (Bool-cases (is_safe size)) [
    | inl e ↦ rw e (read_loop-Same r size size st a (omega arith) h)
    | inr e ↦ rw e (record { answer = refl; agrees = h })
  ]

  read_chunk-Same :
      (size : ℕ) (st : State) (a : Stream)
      → Agrees r.byob st a
      → Same r.byob (read_chunk r size st) (stream_chunk size a)
  unfolding read_chunk stream_chunk
  read_chunk-Same size st a h =
      if_Same r.byob refused refused refl (λ e. record { answer = refl; agrees = h })
        (λ e.
          if_Same r.byob ((st.1).scratch).live (a.scratch).live (ap (λ s. s.live) h.borrow)
            (λ e2. record { answer = refl; agrees = h })
            (λ e2.
              and_next-Same r.byob (read_exact r size st) (stream_exact size a) _ _
                (read_exact-Same size st a h)
                λ bytes st1 a1 h1. record {
                  answer = refl;
                  agrees = record {
                    tail = h1.tail;
                    awaits = h1.awaits;
                    bytes = h1.bytes;
                    place = h1.place;
                    borrow = ap lend h1.borrow;
                  };
                }))
    where
      refused : Bool
      refused = not (is_safe size) || (ltb size 1 || ltb max_input_bytes size)

  without-Same :
      (m : Ran State (Unit {0})) (n : Ran Stream (Unit {0}))
      → Same r.byob m n
      → Same r.byob (without m) (without n)
  without-Same m n h =
      and_next-Same r.byob m n _ _ h λ _ st a h1. record { answer = refl; agrees = h1 }

  reached_eof-Same :
      (m : Ran State (Option (List ℕ))) (a : Stream)
      → Offered r.byob a m
      → Same r.byob
          (and_next m reached_eof)
          (if length a.left == 0 then (ok tt, a) else (err (failure stem_delivery_range), a))
  reached_eof-Same _ a (dry st h nothing) =
      let zero_ : (length a.left == 0) ≡ true = ground (arith, ap length nothing) in
      rw zero_ (record { answer = refl; agrees = h })
  reached_eof-Same _ a (offers st value same inside h) =
      let offset = (st.1).carry_offset in
      let bytes : a.left ≡ drop offset value ++ h.tail =
        h.bytes ∙ ap (λ c. carried c offset ++ h.tail) same in
      let some_ : (length a.left == 0) ≡ false = ground (
        arith,
        ap length bytes,
        length-append (drop offset value) h.tail,
        length-drop offset value,
      ) in
      rw some_ (record { answer = refl; agrees = h })

  assert_eof-Same :
      (st : State) (a : Stream)
      → Agrees r.byob st a
      → Same r.byob
          (assert_eof r st)
          (if length a.left == 0 then (ok tt, a) else (err (failure stem_delivery_range), a))
  unfolding assert_eof
  assert_eof-Same st a h = reached_eof-Same (next_body r st) a (next_body-Offered r st a h)

  ask-Same :
      (call : Call) (st : State) (a : Stream)
      → Agrees r.byob st a
      → Same r.byob (ask_cursor r call st) (ask_stream r.content_length call a)
  unfolding ask_cursor ask_stream
  ask-Same (exact size) st a h = read_exact-Same size st a h
  ask-Same (chunk size) st a h = read_chunk-Same size st a h
  ask-Same (content_length expected) st a h =
      without-Same (assert_content_length r.content_length expected, st)
        (assert_content_length r.content_length expected, a) (record { answer = refl; agrees = h })
  ask-Same (releasing i) st a h = record {
    answer = refl;
    agrees = record {
      tail = h.tail;
      awaits = h.awaits;
      bytes = h.bytes;
      place = h.place;
      borrow = ap (release i) h.borrow;
    };
  }
  ask-Same eof st a h = without-Same (assert_eof r st) _ (assert_eof-Same st a h)

  answers-same :
      (calls : List Call) (st : State) (a : Stream)
      → Agrees r.byob st a
      → answers (ask_cursor r) calls st ≡ answers (ask_stream r.content_length) calls a
  unfolding answers
  answers-same [] st a h = refl
  answers-same (call ∷ calls) st a h =
      let step = ask-Same call st a h in
      let more =
        answers-same calls (ask_cursor r call st).1 (ask_stream r.content_length call a).1
          step.agrees in
      rw (step.answer, more) refl

-- The stream of a body that was not read yet.
unfoldable pub start : List ℕ → Stream
start body = record { left = body; position = 0; scratch = idle }

fresh-Agrees :
    (r : Response) (replies : List Reply) (body : List ℕ)
    → Delivers r.byob replies body
    → Agrees r.byob (replies, fresh) (start body)
unfolding start
fresh-Agrees r replies body d = record {
  tail = body;
  awaits = waiting d;
  bytes = refl;
  place = refl;
  borrow = refl;
}

open_response-fresh :
    (head : Head) (opened : Response × Cursor) → open_response head ≡ ok opened → opened.1 ≡ fresh
unfolding open_response
open_response-fresh head opened e =
    require_elim (head.status == 200) (failure stem_delivery_http) _ e λ p1 e1.
      require_elim (not (is_encoded head.encoding)) (failure stem_delivery_http) _ e1 λ p2 e2.
        bind_elim (parse_content_length head.length_text) _ e2 λ given p3 e3.
          require_elim head.has_body (failure stem_delivery_http) _ e3
            λ p4 e4. ap (λ o. o.1) (ok_injective e4)

-- Where a response opens and its reader gives the body whole, in views of any sizes within the input
-- bound, every sequence of calls of the cursor and of releases of its chunks is answered as by the
-- stream of the bytes of the body, failures included: reads take the next bytes, a read past the end
-- and an end that is not reached fail, and a chunk needs the scratch free.
pub cursor-stream :
    (head : Head) (opened : Response × Cursor) (replies : List Reply) (body : List ℕ)
    (calls : List Call)
    → open_response head ≡ ok opened
    → Delivers (opened.0).byob replies body
    → answers (ask_cursor opened.0) calls (replies, opened.1)
      ≡ answers (ask_stream (opened.0).content_length) calls (start body)
cursor-stream head (r, s) replies body calls e d =
    let new : s ≡ fresh = open_response-fresh head (r, s) e in
    rw new (answers-same r calls (replies, fresh) (start body) (fresh-Agrees r replies body d))
