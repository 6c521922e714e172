-- ===== src/Errors.antt =====
-- src/errors.ts: the closed set of failure codes, the table that gives each its phase and whether
-- a retry may succeed, and the one error class of the adapter boundary. Messages, remedies and the
-- details other than `retryable` are text for people and are left out.
use engine_web_adapter.Prelude.{Bool, true, false, if◌then◌else◌}

-- `EngineWebAdapterErrorCode`, in the order of the union.
pub data ErrorCode : Type 0 where
  capability_audio_worklet : ErrorCode
  capability_cross_origin_isolation : ErrorCode
  capability_module_worker : ErrorCode
  capability_opfs : ErrorCode
  capability_shared_array_buffer : ErrorCode
  capability_simd128 : ErrorCode
  capability_web_locks : ErrorCode
  console_lease_refused : ErrorCode
  console_not_attached : ErrorCode
  console_refused : ErrorCode
  session_closed : ErrorCode
  session_busy : ErrorCode
  session_seek : ErrorCode
  session_declaration_mismatch : ErrorCode
  session_input_path : ErrorCode
  session_open : ErrorCode
  session_playback : ErrorCode
  stem_cancelled : ErrorCode
  stem_corrupt : ErrorCode
  stem_decode_asset : ErrorCode
  stem_decode_flac : ErrorCode
  stem_decode_output : ErrorCode
  stem_decode_stall : ErrorCode
  stem_decode_worker : ErrorCode
  stem_delivery_address : ErrorCode
  stem_delivery_http : ErrorCode
  stem_delivery_range : ErrorCode
  stem_delivery_retry_exhausted : ErrorCode
  stem_delivery_stall : ErrorCode
  stem_flac_invalid : ErrorCode
  stem_flac_resource_limit : ErrorCode
  stem_flac_shape : ErrorCode
  stem_invalid_declaration : ErrorCode
  stem_not_found : ErrorCode
  stem_quota : ErrorCode
  stem_read_deadline : ErrorCode

-- `EngineWebAdapterErrorPhase`; `opening` is "open".
pub data Phase : Type 0 where
  capability opening delivery decode store console lifecycle : Phase

-- The `phase` column of `CODES`.
unfoldable pub code_phase : ErrorCode → Phase
code_phase session_playback = lifecycle
code_phase session_busy = lifecycle
code_phase session_seek = lifecycle
code_phase capability_audio_worklet = capability
code_phase capability_cross_origin_isolation = capability
code_phase capability_module_worker = capability
code_phase capability_opfs = capability
code_phase capability_shared_array_buffer = capability
code_phase capability_simd128 = capability
code_phase capability_web_locks = capability
code_phase console_lease_refused = console
code_phase console_not_attached = console
code_phase console_refused = console
code_phase session_closed = lifecycle
code_phase session_declaration_mismatch = opening
code_phase session_input_path = opening
code_phase session_open = opening
code_phase stem_cancelled = lifecycle
code_phase stem_corrupt = store
code_phase stem_decode_asset = decode
code_phase stem_decode_flac = decode
code_phase stem_decode_output = decode
code_phase stem_decode_stall = decode
code_phase stem_decode_worker = decode
code_phase stem_delivery_address = delivery
code_phase stem_delivery_http = delivery
code_phase stem_delivery_range = delivery
code_phase stem_delivery_retry_exhausted = delivery
code_phase stem_delivery_stall = delivery
code_phase stem_flac_invalid = decode
code_phase stem_flac_resource_limit = decode
code_phase stem_flac_shape = decode
code_phase stem_invalid_declaration = opening
code_phase stem_not_found = store
code_phase stem_quota = store
code_phase stem_read_deadline = store

-- The `transient` column of `CODES`.
unfoldable pub code_transient : ErrorCode → Bool
code_transient session_playback = false
code_transient session_busy = true
code_transient session_seek = false
code_transient capability_audio_worklet = false
code_transient capability_cross_origin_isolation = false
code_transient capability_module_worker = false
code_transient capability_opfs = false
code_transient capability_shared_array_buffer = false
code_transient capability_simd128 = false
code_transient capability_web_locks = false
code_transient console_lease_refused = false
code_transient console_not_attached = false
code_transient console_refused = false
code_transient session_closed = false
code_transient session_declaration_mismatch = false
code_transient session_input_path = false
code_transient session_open = false
code_transient stem_cancelled = false
code_transient stem_corrupt = false
code_transient stem_decode_asset = false
code_transient stem_decode_flac = false
code_transient stem_decode_output = false
code_transient stem_decode_stall = true
code_transient stem_decode_worker = false
code_transient stem_delivery_address = false
code_transient stem_delivery_http = true
code_transient stem_delivery_range = false
code_transient stem_delivery_retry_exhausted = true
code_transient stem_delivery_stall = true
code_transient stem_flac_invalid = false
code_transient stem_flac_resource_limit = false
code_transient stem_flac_shape = false
code_transient stem_invalid_declaration = false
code_transient stem_not_found = false
code_transient stem_quota = true
code_transient stem_read_deadline = true

-- The fields of `EngineWebAdapterError` that a program reads.
pub record AdapterError : Type 0 where
  pub code : ErrorCode
  pub phase : Phase
  pub transient : Bool
  pub retryable : Bool

-- The constructor. `retryable` is `details.retryable === true`, which outranks the table.
unfoldable pub adapter_error : ErrorCode → Bool → AdapterError
adapter_error code retryable = record {
  code = code;
  phase = code_phase code;
  transient = if retryable then true else code_transient code;
  retryable = retryable;
}

-- What a function of the package throws or rejects with.
pub data Failure : Type 0 where
  adapter : AdapterError → Failure
  range_error type_error plain_error abort_error quota_error timeout_error : Failure

-- `new EngineWebAdapterError(code, ...)` with no `retryable` among its details.
abbrev pub failure : ErrorCode → Failure
failure code = adapter (adapter_error code false)

pub data Result {ℓ} (A : Type ℓ) : Type ℓ where
  ok : A → Result A
  err : Failure → Result A

-- `if (!condition) throw e`.
abbrev pub require : Bool → Failure → Result (Unit {0})
require true e = ok tt
require false e = err e

-- A throw in `m` leaves the rest of the statements.
infixl 5 ◌>>=◌ ◌>>◌
abbrev pub ◌>>=◌ {ℓ κ} : {A : Type ℓ} {B : Type κ} (m : Result A) (rest : A → Result B) → Result B
err thrown >>= rest = err thrown
ok value >>= rest = rest value

abbrev pub ◌>>◌ {ℓ} : {B : Type ℓ} (m : Result (Unit {0})) (rest : Result B) → Result B
m >> rest = m >>= λ _. rest

-- What statements that change variables leave: a result, and the variables, which a throw keeps.
abbrev pub Ran {ℓ κ} : Type ℓ → Type κ → Type (ℓ ⊔ κ)
Ran S A = Result A × S

abbrev pub and_next {ℓ κ μ} :
    {S : Type ℓ} {A : Type κ} {B : Type μ} → Ran S A → (A → S → Ran S B) → Ran S B
and_next (err thrown, s) rest = (err thrown, s)
and_next (ok a, s) rest = rest a s
