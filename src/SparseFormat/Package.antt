-- ===== src/SparseFormat/Package.antt =====
-- src/stems/sparse-format.ts: the package, a header of 16 bytes, the canonical manifest and the
-- payload. A blob is the list of its bytes; every character of a canonical manifest is one byte.
use engine_web_adapter.Prelude.{
  ℕ, ◌+◌, ◌-◌, ◌*◌, ◌/◌, ◌%◌, ◌&&◌, leb, ◌==◌, Option, none, some, List, [], ◌∷◌, ◌++◌, text_eq,
  codes, length, take, get_or, subarray,
}
use engine_web_adapter.Errors.{Result, ok, err, require, ◌>>=◌, ◌>>◌}
use engine_web_adapter.Json.{Value, number, integer, is_safe}
use engine_web_adapter.SparseFormat.{
  Manifest, corrupt, header_bytes, max_index_bytes, max_object_bytes, check_object_limit,
}
use engine_web_adapter.SparseFormat.Encode.{canonical_bytes}
use engine_web_adapter.SparseFormat.Validate.{validate_manifest}

abbrev pub magic : List ℕ
magic = codes "MISOSTM1"

-- `getUint32(offset, true)` and `setUint32(8, value, true)`.
abbrev pub u32_at : List ℕ → ℕ → ℕ
u32_at bytes offset =
    get_or bytes offset 0
    + get_or bytes (offset + 1) 0 * 256
    + get_or bytes (offset + 2) 0 * 65536
    + get_or bytes (offset + 3) 0 * 16777216

abbrev pub u32_bytes : ℕ → List ℕ
u32_bytes n = n % 256 ∷ n / 256 % 256 ∷ n / 65536 % 256 ∷ n / 16777216 % 256 ∷ []

-- `SparseStemHeaderAdmission`.
pub record HeaderAdmission : Type 0 where
  pub manifest_bytes : ℕ
  pub payload_start : ℕ

-- `admitSparseStemHeader`.
unfoldable pub admit_header : List ℕ → Result HeaderAdmission
admit_header header =
    let manifest_bytes = u32_at header 8 in
    do
      require (length header == header_bytes) corrupt
      require (text_eq (take 8 header) magic) corrupt
      require (leb 1 manifest_bytes && leb manifest_bytes max_index_bytes) corrupt
      require (u32_at header 12 == 0) corrupt
      require (is_safe (header_bytes + manifest_bytes)) corrupt
      ok (record { manifest_bytes = manifest_bytes; payload_start = header_bytes + manifest_bytes })

-- `if (payloadBytes !== undefined)`.
unfoldable pub check_known : ℕ → Option ℕ → Result (Unit {0})
unfolding check_object_limit integer
check_known encoded none = ok tt
check_known encoded (some payload_bytes) =
    integer (number payload_bytes) 0 >>= λ bytes. check_object_limit encoded bytes

abbrev pub decoded_or : Option Value → Result Value
decoded_or none = err corrupt
decoded_or (some v) = ok v

-- `ParsedSparseStemPackage`.
pub record Parsed : Type 0 where
  pub manifest : Manifest
  pub data_start : ℕ
  pub payload_bytes : ℕ

-- `decode` is `JSON.parse` of the fatal UTF-8 decoder: it gives a value, or it throws.
module _ (decode : List ℕ → Option Value) where
  -- `admitSparseStemManifest`.
  unfoldable pub admit_manifest : List ℕ → Option ℕ → Result Manifest
  unfolding check_known validate_manifest canonical_bytes
  admit_manifest encoded payload_bytes = do
    require (leb 1 (length encoded) && leb (length encoded) max_index_bytes) corrupt
    _ ← check_known (length encoded) payload_bytes
    value ← decoded_or (decode encoded)
    manifest ← validate_manifest value payload_bytes
    canonical ← canonical_bytes manifest
    require (text_eq canonical encoded) corrupt
    ok manifest

  -- `parseSparseStemPackage` on a blob.
  unfoldable pub parse_package : List ℕ → Result Parsed
  unfolding admit_header admit_manifest
  parse_package blob = do
    require
        (is_safe (length blob)
          && (leb header_bytes (length blob) && leb (length blob) max_object_bytes))
        corrupt
    require (length (subarray blob 0 header_bytes) == header_bytes) corrupt
    admission ← admit_header (subarray blob 0 header_bytes)
    require (leb admission.payload_start (length blob)) corrupt
    let encoded = subarray blob header_bytes admission.payload_start
    require (length encoded == admission.manifest_bytes) corrupt
    manifest ← admit_manifest encoded (some (length blob - admission.payload_start))
    ok (record {
      manifest = manifest;
      data_start = admission.payload_start;
      payload_bytes = length blob - admission.payload_start;
    })

-- The header that `serializeSparseStemPackage` writes, and the blob that it builds.
abbrev pub header_of : ℕ → List ℕ
header_of manifest_bytes = magic ++ (u32_bytes manifest_bytes ++ (0 ∷ 0 ∷ 0 ∷ 0 ∷ []))

abbrev pub package_bytes : List ℕ → List ℕ → List ℕ
package_bytes index payload = header_of (length index) ++ (index ++ payload)

-- `serializeSparseStemIndex`.
unfoldable pub serialize_index : Value → Result (List ℕ)
unfolding validate_manifest canonical_bytes
serialize_index value = validate_manifest value none >>= λ m. canonical_bytes m

-- `serializeSparseStemPackage`.
unfoldable pub serialize_package : Value → List ℕ → Result (List ℕ)
unfolding validate_manifest canonical_bytes check_object_limit
serialize_package value payload = do
  manifest ← validate_manifest value (some (length payload))
  index ← canonical_bytes manifest
  _ ← check_object_limit (length index) (length payload)
  ok (package_bytes index payload)
