-- ===== src/CanonicalJson.antt =====
-- src/stems/canonical-json.ts: JSON with sorted keys and no spaces, the one encoding that the
-- sparse formats accept. Texts are ASCII, and numbers the safe integers that the formats hold, so a
-- text has one byte for each code unit and a number is its decimal digits.
use engine_web_adapter.Prelude.{
  ℕ, zero, suc, ◌+◌, ◌-◌, ◌/◌, ◌%◌, ◌≡◌, refl, Bool, true, false, if◌then◌else◌, ltb, ◌==◌, List,
  [], ◌∷◌, ◌++◌, map, Text, codes,
}
use engine_web_adapter.Errors.{plain_error, Result, ok, err, ◌>>=◌}
use engine_web_adapter.Json.{
  Value, null, undefined, other_number, foreign, boolean, number, text, array, object, Items, nil,
  cons, Fields, end, field,
}

-- `String(n)`: the digits of a number, the last one first found. What is left falls with each round.
decimal_from : ℕ → ℕ → Text → Text
decimal_from zero n tail = tail
decimal_from (suc fuel) n tail =
    let more = decimal_from fuel (n / 10) ((b'0' + n % 10) ∷ tail) in
    if ltb n 10 then (b'0' + n) ∷ tail else more

unfoldable pub decimal : ℕ → Text
unfolding decimal_from
decimal n = decimal_from (suc n) n []

-- The order of `Array.prototype.sort` on texts: by code units.
unfoldable pub text_less : Text → Text → Bool
text_less [] [] = false
text_less [] (b ∷ t) = true
text_less (a ∷ s) [] = false
text_less (a ∷ s) (b ∷ t) = if a == b then text_less s t else ltb a b

-- A stable sort by key.
insert_by {ℓ} : {A : Type ℓ} → (A → Text) → A → List A → List A
unfolding text_less
insert_by key x [] = x ∷ []
insert_by key x (y ∷ ys) = if text_less (key y) (key x) then y ∷ insert_by key x ys else x ∷ y ∷ ys

unfoldable pub sort_by {ℓ} : {A : Type ℓ} → (A → Text) → List A → List A
unfolding insert_by
sort_by key [] = []
sort_by key (x ∷ xs) = insert_by key x (sort_by key xs)

-- `JSON.stringify` of one code unit of a text.
hex_digit : ℕ → ℕ
hex_digit n = if ltb n 10 then b'0' + n else b'a' + (n - 10)

escaped : ℕ → Text
unfolding hex_digit
escaped c =
    if c == 0x22
    then 0x5c ∷ 0x22 ∷ []
    else if c == 0x5c
    then 0x5c ∷ 0x5c ∷ []
    else if c == 8
    then 0x5c ∷ b'b' ∷ []
    else if c == 9
    then 0x5c ∷ b't' ∷ []
    else if c == 10
    then 0x5c ∷ b'n' ∷ []
    else if c == 12
    then 0x5c ∷ b'f' ∷ []
    else if c == 13
    then 0x5c ∷ b'r' ∷ []
    else if ltb c 32
    then 0x5c ∷ b'u' ∷ b'0' ∷ b'0' ∷ hex_digit (c / 16) ∷ hex_digit (c % 16) ∷ []
    else c ∷ []

escape : Text → Text
unfolding escaped
escape [] = []
escape (c ∷ t) = escaped c ++ escape t

unfoldable pub quote : Text → Text
unfolding escape
quote t = (0x22 ∷ escape t) ++ (0x22 ∷ [])

-- `texts.join(",")`.
unfoldable pub join : List Text → Text
join [] = []
join (t ∷ []) = t
join (t ∷ u ∷ ts) = t ++ (b',' ∷ join (u ∷ ts))

member : Text × Text → Text
unfolding quote
member (k, v) = quote k ++ (b':' ∷ v)

-- The clause for objects: members by sorted key.
object_text : List (Text × Text) → Text
unfolding member join sort_by
object_text members = (b'{' ∷ join (map member (sort_by (λ m. m.0) members))) ++ (b'}' ∷ [])

array_text : List Text → Text
unfolding join
array_text texts = (b'[' ∷ join texts) ++ (b']' ∷ [])

-- `canonicalJson`, with its loops over the items and over the members.
unfoldable mutual
  unfolding decimal quote object_text array_text

  pub canonical_json : Value → Result Text
  canonical_json null = ok (codes "null")
  canonical_json (text t) = ok (quote t)
  canonical_json (number n) = ok (decimal n)
  canonical_json (array vs) = do texts ← canonical_items vs; ok (array_text texts)
  canonical_json (object fs) = do members ← canonical_fields fs; ok (object_text members)
  canonical_json undefined = err plain_error
  canonical_json other_number = err plain_error
  canonical_json foreign = err plain_error
  canonical_json (boolean b) = err plain_error

  pub canonical_items : Items → Result (List Text)
  canonical_items nil = ok []
  canonical_items (cons v vs) = do t ← canonical_json v; ts ← canonical_items vs; ok (t ∷ ts)

  pub canonical_fields : Fields → Result (List (Text × Text))
  canonical_fields end = ok []
  canonical_fields (field k v fs) = do
    t ← canonical_json v
    ts ← canonical_fields fs
    ok ((k, t) ∷ ts)

sample_json :
    canonical_json (
      object (
        field
          (codes "b")
          (number 120)
          (field (codes "a") (array (cons (text (codes "x\"")) (cons null nil))) end)))
    ≡ ok (codes "{\"a\":[\"x\\\"\",null],\"b\":120}")
unfolding canonical_json
sample_json = refl
