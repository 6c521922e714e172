-- ===== src/Json.antt =====
-- The values that untyped input is made of, as the validators of src/stems see them: what
-- JSON.parse returns, and what a caller written in JavaScript may pass instead.
use engine_web_adapter.Prelude.{
  ℕ, ◌-◌, ◌^◌, Bool, ◌&&◌, List, [], ◌∷◌, leb, if◌then◌else◌, Text, text_eq,
}
use engine_web_adapter.Errors.{stem_corrupt, failure, Result, ok, err}

-- `number n` is a nonnegative integer that a double holds; `other_number` is any other number,
-- -0 among them. `foreign` is a function, a symbol, a bigint, or an object whose prototype is not
-- plain or that has symbol keys.
mutual
  pub data Value : Type 0 where
    null undefined other_number foreign : Value
    boolean : Bool → Value
    number : ℕ → Value
    text : Text → Value
    array : Items → Value
    object : Fields → Value

  pub data Items : Type 0 where
    nil : Items
    cons : Value → Items → Items

  pub data Fields : Type 0 where
    end : Fields
    field : Text → Value → Fields → Fields

-- `Number.MAX_SAFE_INTEGER`.
abbrev pub max_safe : ℕ
max_safe = 2 ^ 53 - 1

abbrev pub is_safe : ℕ → Bool
is_safe n = leb n max_safe

abbrev pub items : Items → List Value
items nil = []
items (cons v vs) = v ∷ items vs

-- `Object.keys`.
abbrev pub keys : Fields → List Text
keys end = []
keys (field k v fs) = k ∷ keys fs

-- `record[key]`.
abbrev pub property : Text → Fields → Value
property k end = undefined
property k (field j v fs) = if text_eq j k then v else property k fs

-- `isRecord`.
unfoldable pub as_record : Value → Result Fields
as_record (object fs) = ok fs
as_record null = err (failure stem_corrupt)
as_record _ = err (failure stem_corrupt)

-- `integer(value, path, minimum)`.
unfoldable pub integer : Value → ℕ → Result ℕ
integer (number n) minimum = if is_safe n && leb minimum n then ok n else err (failure stem_corrupt)
integer null minimum = err (failure stem_corrupt)
integer _ minimum = err (failure stem_corrupt)
