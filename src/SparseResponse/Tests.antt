-- ===== src/SparseResponse/Tests.antt =====
-- A response of five bytes in two views, read at concrete calls, and the scratch after a loan.
use engine_web_adapter.Prelude.{ℕ, ◌≡◌, refl, true, false, some, List, [], ◌∷◌, codes, take, length}
use engine_web_adapter.Errors.{
  ok, err, failure, plain_error, stem_delivery_range, stem_delivery_http,
}
use engine_web_adapter.SparseResponse.Borrow.{
  idle, lend, release, begins, lends, releases, held, Lends-held,
}
use engine_web_adapter.SparseResponse.Stream.{
  Call, exact, chunk, content_length, releasing, eof, ask_stream, ask_cursor, answers, Delivers,
  gives, ends_with,
}
use engine_web_adapter.SparseResponse.Intact.{content, read_sizes-take}
use engine_web_adapter.SparseResponse.Refine.{start, cursor-stream}
use engine_web_adapter.SparseResponse.{
  Reply, settled, rejected, read_exact, Response, Cursor, Head, open_response, parse_content_length,
  fresh,
}

abbrev five_head : Head
five_head = record {
  status = 200;
  encoding = some (codes "Identity");
  length_text = some (codes "5");
  has_body = true;
  offers_byob = true;
}

abbrev opened_five : Response × Cursor
opened_five = (record { byob = true; content_length = some 5 }, fresh)

abbrev five_replies : List Reply
five_replies =
    settled false (some (record { bytes = 1 ∷ 2 ∷ []; buffer_bytes = 64 })) false
    ∷ settled true (some (record { bytes = 3 ∷ 4 ∷ 5 ∷ []; buffer_bytes = 64 })) false
    ∷ []

abbrev five_calls : List Call
five_calls =
    content_length 5
    ∷ exact 1
    ∷ chunk 3
    ∷ chunk 1
    ∷ releasing 0
    ∷ eof
    ∷ chunk 1
    ∷ eof
    ∷ exact 1
    ∷ []

five_delivered : Delivers true five_replies (1 ∷ 2 ∷ 3 ∷ 4 ∷ 5 ∷ [])
five_delivered = gives 1 (2 ∷ []) 64 false refl refl (ends_with 3 (4 ∷ 5 ∷ []) 64 [] refl refl)

cursor-stream_example :
    answers (ask_cursor opened_five.0) five_calls (five_replies, fresh)
    ≡ answers (ask_stream (some 5)) five_calls (start (1 ∷ 2 ∷ 3 ∷ 4 ∷ 5 ∷ []))
unfolding open_response parse_content_length
cursor-stream_example =
    cursor-stream five_head opened_five five_replies (1 ∷ 2 ∷ 3 ∷ 4 ∷ 5 ∷ []) five_calls refl
      five_delivered

five_answers :
    answers (ask_cursor opened_five.0) five_calls (five_replies, fresh)
    ≡ ok []
      ∷ ok (1 ∷ [])
      ∷ ok (2 ∷ 3 ∷ 4 ∷ [])
      ∷ err (failure stem_delivery_range)
      ∷ ok []
      ∷ err (failure stem_delivery_range)
      ∷ ok (5 ∷ [])
      ∷ ok []
      ∷ err (failure stem_delivery_range)
      ∷ []
unfolding answers ask_cursor lend release
five_answers = refl

bad_length : parse_content_length (some (codes "5 ")) ≡ err (failure stem_delivery_http)
unfolding parse_content_length
bad_length = refl

Lends-held_example : held ((release 0 (lend (release 0 (lend idle)))).released) ≡ 1
unfolding lend release
Lends-held_example = Lends-held (releases 0 (lends refl (releases 0 (lends refl begins))))

-- A reader that fails behind its second view.
abbrev failing_replies : List Reply
failing_replies =
    settled false (some (record { bytes = 1 ∷ 2 ∷ []; buffer_bytes = 64 })) false
    ∷ settled false (some (record { bytes = 3 ∷ 4 ∷ 5 ∷ []; buffer_bytes = 64 })) true
    ∷ rejected plain_error
    ∷ []

read_sizes-take_example :
    (1 ∷ 2 ∷ 3 ∷ 4 ∷ [] ≡ take 4 (content failing_replies))
    × (length {A = ℕ} (1 ∷ 2 ∷ 3 ∷ 4 ∷ []) ≡ 4)
unfolding read_exact
read_sizes-take_example =
    read_sizes-take opened_five.0 (1 ∷ 3 ∷ []) failing_replies (1 ∷ 2 ∷ 3 ∷ 4 ∷ []) refl
