-- ===== src/SparseResponse/Stream.antt =====
-- src/stems/sparse-response.ts: what the cursor promises, as a stream of the bytes of the body.
use engine_web_adapter.Prelude.{
  ℕ, ◌+◌, Bool, true, false, not, ◌||◌, leb, ltb, ◌==◌, if◌then◌else◌, Option, none, some, List, [],
  ◌∷◌, ◌++◌, ◌≡◌, length, take, drop,
}
use engine_web_adapter.Errors.{Result, ok, err, failure, stem_delivery_range, Ran, and_next}
use engine_web_adapter.Json.{is_safe}
use engine_web_adapter.SparseResponse.Borrow.{Scratch, lend, release}
use engine_web_adapter.SparseResponse.{
  Reply, settled, Response, State, max_input_bytes, read_exact, read_chunk, assert_content_length,
  assert_eof,
}

-- The bytes of the body that are not read, the count of those that are, and the scratch.
pub record Stream : Type 0 where
  pub left : List ℕ
  pub position : ℕ
  pub scratch : Scratch

-- Where bytes are missing, those that are left are lost.
unfoldable pub serve : ℕ → Stream → Ran Stream (List ℕ)
serve size a =
    if leb size (length a.left)
    then (ok (take size a.left), record a { left = drop size a.left; position = a.position + size })
    else (
      err (failure stem_delivery_range),
      record a { left = []; position = a.position + length a.left },
    )

unfoldable pub stream_exact : ℕ → Stream → Ran Stream (List ℕ)
unfolding serve
stream_exact size a =
    if not (is_safe size) then (err (failure stem_delivery_range), a) else serve size a

unfoldable pub stream_chunk : ℕ → Stream → Ran Stream (List ℕ)
unfolding stream_exact
stream_chunk size a =
    if not (is_safe size) || (ltb size 1 || ltb max_input_bytes size)
    then (err (failure stem_delivery_range), a)
    else if (a.scratch).live
    then (err (failure stem_delivery_range), a)
    else and_next (stream_exact size a)
        λ bytes a1. (ok bytes, record a1 { scratch = lend a1.scratch })

-- A call of the cursor, or of a lease that it gave.
pub data Call : Type 0 where
  exact chunk content_length : ℕ → Call
  releasing : ℕ → Call
  eof : Call

-- What a call answers: bytes, or nothing.
abbrev pub without {ℓ} : {S : Type ℓ} → Ran S (Unit {0}) → Ran S (List ℕ)
without r = and_next r λ _ s. (ok [], s)

unfoldable pub ask_stream : Option ℕ → Call → Stream → Ran Stream (List ℕ)
unfolding stream_chunk assert_content_length
ask_stream given (exact size) a = stream_exact size a
ask_stream given (chunk size) a = stream_chunk size a
ask_stream given (content_length expected) a = without (assert_content_length given expected, a)
ask_stream given (releasing i) a = (ok [], record a { scratch = release i a.scratch })
ask_stream given eof a =
    without (if length a.left == 0 then (ok tt, a) else (err (failure stem_delivery_range), a))

unfoldable pub ask_cursor : Response → Call → State → Ran State (List ℕ)
unfolding read_chunk assert_content_length assert_eof
ask_cursor r (exact size) st = read_exact r size st
ask_cursor r (chunk size) st = read_chunk r size st
ask_cursor r (content_length expected) st =
    without (assert_content_length r.content_length expected, st)
ask_cursor r (releasing i) st = (ok [], (st.0, record st.1 { scratch = release i (st.1).scratch }))
ask_cursor r eof st = without (assert_eof r st)

-- A sequence of calls, with their answers; the caller may go on after a failure.
unfoldable pub answers {ℓ} :
    {S : Type ℓ} → (Call → S → Ran S (List ℕ)) → List Call → S → List (Result (List ℕ))
answers ask [] s = []
answers ask (call ∷ calls) s = let (answer, next) = ask call s in answer ∷ answers ask calls next

-- The replies of a reader that gives a body whole: views that are not empty and within the bound,
-- the last of them or an empty one with `done`, or `done` alone where the reader is not byob.
pub data Delivers (byob : Bool) : List Reply → List ℕ → Type 0 where
  ends :
      (replies : List Reply) → byob ≡ false → Delivers byob (settled true none false ∷ replies) []
  ends_empty :
      (buffer_bytes : ℕ) (replies : List Reply)
      → leb buffer_bytes max_input_bytes ≡ true
      → Delivers byob
          (settled true (some (record { bytes = []; buffer_bytes = buffer_bytes })) false ∷ replies)
          []
  ends_with :
      (b : ℕ) (bytes : List ℕ) (buffer_bytes : ℕ) (replies : List Reply)
      → leb (length (b ∷ bytes)) max_input_bytes ≡ true
      → leb buffer_bytes max_input_bytes ≡ true
      → Delivers byob
          (settled true (some (record { bytes = b ∷ bytes; buffer_bytes = buffer_bytes })) false
            ∷ replies)
          (b ∷ bytes)
  gives :
      (b : ℕ) (bytes : List ℕ) (buffer_bytes : ℕ) {replies : List Reply} {body : List ℕ}
      (aborted : Bool)
      → leb (length (b ∷ bytes)) max_input_bytes ≡ true
      → leb buffer_bytes max_input_bytes ≡ true
      → Delivers byob replies body
      → Delivers byob
          (settled false (some (record { bytes = b ∷ bytes; buffer_bytes = buffer_bytes })) aborted
            ∷ replies)
          ((b ∷ bytes) ++ body)
