-- ===== src/FlacMetadata.antt =====
-- src/stems/native-flac-metadata.ts, `NativeFlacMetadataScanner`: the walk over the metadata blocks
-- of a native FLAC stream behind its STREAMINFO.
pub mod Walk
mod Tests
use engine_web_adapter.Prelude.{
  ℕ, ◌+◌, ◌*◌, ◌%◌, ◌/◌, Bool, true, false, not, leb, ltb, if◌then◌else◌, ◌==◌, List, [], ◌∷◌,
  length, get_or,
}
use engine_web_adapter.Errors.{
  stem_flac_invalid, stem_flac_resource_limit, Failure, failure, Result, ok, err, require, ◌>>=◌,
  ◌>>◌,
}
use engine_web_adapter.Json.{Value, is_safe}

abbrev pub probe_bytes : ℕ
probe_bytes = 42

abbrev pub max_blocks : ℕ
max_blocks = 128

abbrev pub invalid : Failure
invalid = failure stem_flac_invalid

-- The private fields of the scanner.
pub record Scanner : Type 0 where
  pub next_offset : ℕ
  pub block_count : ℕ
  pub complete : Bool

-- `NativeFlacMetadataHeader`.
pub record Header : Type 0 where
  pub kind : ℕ
  pub bytes : ℕ
  pub final : Bool
  pub offset : ℕ
  pub next_offset : ℕ

-- The constructor.
unfoldable pub scanner : Bool → Scanner
scanner stream_info_is_final = record {
  next_offset = probe_bytes;
  block_count = 1;
  complete = stream_info_is_final;
}

-- `u24`, of three bytes.
abbrev pub u24 : List ℕ → ℕ → ℕ
u24 bytes offset =
    get_or bytes offset 0 * 65536 + get_or bytes (offset + 1) 0 * 256 + get_or bytes (offset + 2) 0

-- `get nextHeaderOffset`.
unfoldable pub next_header_offset : Scanner → Result ℕ
next_header_offset s = if s.complete then err invalid else ok s.next_offset

-- `acceptHeader`: the header that is returned and the scanner that is left.
unfoldable pub accept_header : Scanner → List ℕ → ℕ → Result (Header × Scanner)
accept_header s header total_object_bytes =
    let kind = get_or header 0 0 % 128 in
    let final = leb 128 (get_or header 0 0 % 256) in
    let bytes = u24 header 1 in
    let next_offset = s.next_offset + 4 + bytes in
    do
      require (not s.complete) invalid
      require (length header == 4) invalid
      require (is_safe total_object_bytes) invalid
      require (ltb 0 total_object_bytes) invalid
      require (ltb s.block_count max_blocks) (failure stem_flac_resource_limit)
      require (not (kind == 0)) invalid
      require (leb kind 6) invalid
      require (is_safe next_offset) invalid
      require (ltb next_offset total_object_bytes) invalid
      ok (
        record {
          kind = kind;
          bytes = bytes;
          final = final;
          offset = s.next_offset;
          next_offset = next_offset;
        },
        record { next_offset = next_offset; block_count = s.block_count + 1; complete = final },
      )

-- A caller that passes each four-byte header in turn, for one stable object size.
unfoldable pub walk : ℕ → List (List ℕ) → Scanner → Result (List Header × Scanner)
unfolding accept_header
walk total_object_bytes [] s = ok ([], s)
walk total_object_bytes (bytes ∷ more) s = accept_header s bytes total_object_bytes >>= λ first.
    walk total_object_bytes more first.1 >>= λ rest. ok (first.0 ∷ rest.0, rest.1)
