-- ===== src/SparseResponse.antt =====
-- src/stems/sparse-response.ts: the cursor of `openSparseResponse` over one complete response. What
-- the body reader will answer is a list of replies; a list that has run out stands for a read that
-- fails. Lengths are natural numbers; the progress reports and the reuse of the reader's buffer are
-- left out.
use engine_web_adapter.Prelude.{
  ℕ, zero, suc, ◌+◌, ◌-◌, ◌*◌, min, Bool, true, false, not, ◌&&◌, ◌||◌, leb, ltb, ◌==◌,
  if◌then◌else◌, Option, none, some, List, [], ◌∷◌, ◌++◌, length, get_or, map, subarray, Text,
  text_eq, codes,
}
use engine_web_adapter.Errors.{
  Result, ok, err, Failure, adapter, failure, stem_cancelled, stem_delivery_http,
  stem_delivery_range, require, ◌>>=◌, ◌>>◌, Ran, and_next,
}
use engine_web_adapter.Json.{is_safe}
pub mod Borrow
pub mod Stream
pub mod Offers
pub mod Intact
pub mod Turns
pub mod Refine
pub mod Tests
use Borrow.{Scratch, idle, lend}

-- `SPARSE_RESPONSE_MAX_INPUT_BYTES`.
abbrev pub max_input_bytes : ℕ
max_input_bytes = 256 * 1024

-- A view of the body, with the size of the buffer behind it.
pub record View : Type 0 where
  pub bytes : List ℕ
  pub buffer_bytes : ℕ

-- How a read of the reader ends: `done`, `value`, and whether the operation is aborted by then; or a
-- rejection, which a missed deadline and an abort are too.
pub data Reply : Type 0 where
  settled : Bool → Option View → Bool → Reply
  rejected : Failure → Reply

-- What the response fixes: the kind of its reader, and its Content-Length.
pub record Response : Type 0 where
  pub byob : Bool
  pub content_length : Option ℕ

-- The variables behind the cursor; those of the scratch borrow are a record of their own.
pub record Cursor : Type 0 where
  pub carry : Option (List ℕ)
  pub carry_offset : ℕ
  pub position : ℕ
  pub eof : Bool
  pub scratch : Scratch

abbrev pub State : Type 0
State = List Reply × Cursor

-- The head of a response, as `openSparseResponse` reads it.
pub record Head : Type 0 where
  pub status : ℕ
  pub encoding : Option Text
  pub length_text : Option Text
  pub has_body : Bool
  pub offers_byob : Bool

-- `toLowerCase`, for the letters that a text of ASCII letters can come from.
abbrev lower : ℕ → ℕ
lower c = if leb 65 c && leb c 90 then c + 32 else c

abbrev pub is_encoded : Option Text → Bool
is_encoded none = false
is_encoded (some t) = not (text_eq t []) && not (text_eq (map lower t) (codes "identity"))

abbrev is_digit : ℕ → Bool
is_digit c = leb 48 c && leb c 57

abbrev pub all_digits : Text → Bool
all_digits [] = true
all_digits (c ∷ t) = is_digit c && all_digits t

-- `Number` of a text of digits.
abbrev pub number_of : ℕ → Text → ℕ
number_of n [] = n
number_of n (c ∷ t) = number_of (10 * n + (c - 48)) t

unfoldable pub parse_content_length : Option Text → Result (Option ℕ)
parse_content_length none = ok none
parse_content_length (some t) = do
  require (leb 1 (length t) && all_digits t) (failure stem_delivery_http)
  require (is_safe (number_of 0 t)) (failure stem_delivery_http)
  ok (some (number_of 0 t))

abbrev pub fresh : Cursor
fresh = record { carry = none; carry_offset = 0; position = 0; eof = false; scratch = idle }

-- The tests on the head, and the first values of the variables.
unfoldable pub open_response : Head → Result (Response × Cursor)
unfolding parse_content_length
open_response head = do
  require (head.status == 200) (failure stem_delivery_http)
  require (not (is_encoded head.encoding)) (failure stem_delivery_http)
  content_length ← parse_content_length head.length_text
  require head.has_body (failure stem_delivery_http)
  ok (record { byob = head.offers_byob; content_length = content_length }, fresh)

-- `preserveEffectFailure`.
unfoldable pub preserve : Failure → Failure
preserve (adapter e) = adapter e
preserve _ = failure stem_delivery_http

-- The last tests of `nextBody`; `none` is its `done`.
unfoldable pub admit_view : Response → Bool → View → State → Ran State (Option (List ℕ))
admit_view r done view (replies, s) =
    if r.byob && (ltb max_input_bytes (length view.bytes) || ltb max_input_bytes view.buffer_bytes)
    then (err (failure stem_delivery_range), (replies, s))
    else if done
    then if length view.bytes == 0
      then (ok none, (replies, record s { eof = true }))
      else (ok (some view.bytes), (replies, record s { eof = true; carry = some view.bytes }))
    else if ltb (length view.bytes) 1
    then (err (failure stem_delivery_range), (replies, s))
    else (ok (some view.bytes), (replies, record s { carry = some view.bytes }))

unfoldable pub take_reply : Response → Reply → State → Ran State (Option (List ℕ))
unfolding preserve admit_view
take_reply r (rejected thrown) st = (err (preserve thrown), st)
take_reply r (settled done value aborted) st =
    if done && aborted then (err (failure stem_cancelled), st) else take_value value
  where
    take_value : Option View → Ran State (Option (List ℕ))
    take_value none =
        if not done || r.byob
        then (err (failure stem_delivery_range), st)
        else (ok none, (st.0, record st.1 { eof = true }))
    take_value (some view) = admit_view r done view st

unfoldable pub read_reply : Response → State → Ran State (Option (List ℕ))
unfolding take_reply
read_reply r ([], s) = (err (failure stem_delivery_http), ([], s))
read_reply r (reply ∷ replies, s) = take_reply r reply (replies, s)

-- `carry !== undefined && carryOffset < carry.byteLength`.
abbrev pub has_carry : Option (List ℕ) → ℕ → Bool
has_carry none offset = false
has_carry (some bytes) offset = ltb offset (length bytes)

-- `nextBody`.
unfoldable pub next_body : Response → State → Ran State (Option (List ℕ))
unfolding read_reply
next_body r (replies, s) =
    if has_carry s.carry s.carry_offset
    then (ok s.carry, (replies, s))
    else let cleared = record s { carry = none; carry_offset = 0 } in
      if s.eof then (ok none, (replies, cleared)) else read_reply r (replies, cleared)

-- The end of the body within an admitted section.
abbrev pub needed : Ran State (Option (List ℕ)) → Ran State (List ℕ)
needed (err thrown, st) = (err thrown, st)
needed (ok none, st) = (err (failure stem_delivery_range), st)
needed (ok (some value), st) = (ok value, st)

-- The statements of `readExact` behind a view, with `left` for `length - written`.
unfoldable pub take_chunk : ℕ → List ℕ → Cursor → List ℕ × Cursor
take_chunk left value s =
    let count = min (length value - s.carry_offset) left in
    let offset = s.carry_offset + count in
    let used = offset == length value in
    (
      subarray value s.carry_offset offset,
      record s {
        carry = if used then none else s.carry;
        carry_offset = if used then 0 else offset;
        position = s.position + count;
      },
    )

-- The loop of `readExact`. Every turn that does not fail takes a byte, so that `length` is fuel
-- enough.
unfoldable pub read_loop : Response → ℕ → ℕ → State → Ran State (List ℕ)
unfolding next_body take_chunk
read_loop r zero left st = (ok [], st)
read_loop r (suc fuel) left st =
    if left == 0
    then (ok [], st)
    else and_next (needed (next_body r st)) λ value st1.
      let got = take_chunk left value st1.1 in
      and_next (read_loop r fuel (left - length got.0) (st1.0, got.1))
        λ more st2. (ok (got.0 ++ more), st2)

-- `readExact`.
unfoldable pub read_exact : Response → ℕ → State → Ran State (List ℕ)
unfolding read_loop
read_exact r size st =
    if not (is_safe size) then (err (failure stem_delivery_range), st) else read_loop r size size st

-- `readChunk`; the lease of its result is the last of the scratch.
unfoldable pub read_chunk : Response → ℕ → State → Ran State (List ℕ)
unfolding read_exact
read_chunk r size st =
    if not (is_safe size) || (ltb size 1 || ltb max_input_bytes size)
    then (err (failure stem_delivery_range), st)
    else if (st.1).scratch.live
    then (err (failure stem_delivery_range), st)
    else and_next (read_exact r size st)
        λ bytes st1. (ok bytes, (st1.0, record st1.1 { scratch = lend (st1.1).scratch }))

abbrev pub agrees : Option ℕ → ℕ → Bool
agrees none expected = true
agrees (some given) expected = given == expected

-- `assertContentLength`.
unfoldable pub assert_content_length : Option ℕ → ℕ → Result (Unit {0})
assert_content_length content_length expected =
    require (agrees content_length expected) (failure stem_delivery_http)

-- Bytes behind an admitted payload.
abbrev pub reached_eof : Option (List ℕ) → State → Ran State (Unit {0})
reached_eof none st1 = (ok tt, st1)
reached_eof (some value) st1 = (err (failure stem_delivery_range), st1)

-- `assertEof`.
unfoldable pub assert_eof : Response → State → Ran State (Unit {0})
unfolding next_body
assert_eof r st = and_next (next_body r st) reached_eof
