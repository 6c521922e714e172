-- ===== src/SparseFormat/PackageTests.antt =====
-- src/stems/sparse-format.ts: a package of one chunk of four bytes, serialized and parsed.
use engine_web_adapter.Prelude.{
  ℕ, ◌+◌, ◌≡◌, refl, arith, Bool, true, ◌&&◌, ltb, Option, some, List, [], ◌∷◌, ◌++◌, replicate,
  length, take,
}
use engine_web_adapter.Errors.{Result, ok, err, failure, stem_invalid_declaration}
use engine_web_adapter.Json.{Value}
use engine_web_adapter.SparseFormat.{corrupt}
use engine_web_adapter.SparseFormat.Encode.{manifest_value, canonical_bytes}
use engine_web_adapter.SparseFormat.Validate.{validate_manifest}
use engine_web_adapter.SparseFormat.Tests.{sample}
use engine_web_adapter.SparseFormat.Package.{
  admit_header, header_of, package_bytes, serialize_package, parse_package, Parsed,
}
use engine_web_adapter.Identity.{int16}
use engine_web_adapter.SparseFormat.Binding.{
  declared_source, bigint_frames, same_frames, assert_binding, SourceExpectation,
}
use engine_web_adapter.SparseFormat.Reread.{AreBytes, IsReread, parse_package-IsReread}

-- A parser that knows one text.
abbrev knows_sample : List ℕ → Option Value
knows_sample bytes = some (manifest_value sample)

abbrev payload : List ℕ
payload = replicate 40 5

abbrev got : Result (List ℕ) → List ℕ
got (ok bytes) = bytes
got (err thrown) = []

abbrev index : List ℕ
index = got (canonical_bytes sample)

abbrev blob : List ℕ
blob = package_bytes index payload

abbrev parsed : Parsed
parsed = record { manifest = sample; data_start = 16 + length index; payload_bytes = 40 }

serializes : serialize_package (manifest_value sample) payload ≡ ok blob
unfolding serialize_package validate_manifest manifest_value canonical_bytes
serializes = refl

parses : parse_package knows_sample blob ≡ ok parsed
unfolding parse_package validate_manifest manifest_value canonical_bytes
parses = refl

long_payload_refused :
    parse_package knows_sample (package_bytes index (replicate 41 5)) ≡ err corrupt
unfolding parse_package validate_manifest manifest_value canonical_bytes
long_payload_refused = refl

nonzero_reserve_refused : admit_header (take 12 (header_of 9) ++ (1 ∷ 0 ∷ 0 ∷ 0 ∷ [])) ≡ err corrupt
unfolding admit_header
nonzero_reserve_refused = refl

-- The test of a list for bytes.
abbrev all_bytes : List ℕ → Bool
all_bytes [] = true
all_bytes (b ∷ bs) = ltb b 256 && all_bytes bs

all_bytes-AreBytes : (bs : List ℕ) → all_bytes bs ≡ true → AreBytes bs
all_bytes-AreBytes [] e = tt
all_bytes-AreBytes (b ∷ bs) e = (ground arith, all_bytes-AreBytes bs (ground arith))

blob-AreBytes : AreBytes blob
unfolding manifest_value canonical_bytes
blob-AreBytes = all_bytes-AreBytes blob refl

parse_package-IsReread_example : IsReread blob parsed
parse_package-IsReread_example =
    parse_package-IsReread knows_sample blob parsed blob-AreBytes parses

abbrev source : SourceExpectation
source = declared_source 48000 sample.identity 1 int16 (bigint_frames 10)

longer_source_refused :
    assert_binding
      (manifest_value sample)
      (declared_source 48000 sample.identity 1 int16 (bigint_frames 11))
    ≡ err (failure stem_invalid_declaration)
unfolding assert_binding validate_manifest manifest_value same_frames
longer_source_refused = refl
