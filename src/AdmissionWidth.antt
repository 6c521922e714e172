-- ===== src/AdmissionWidth.antt =====
-- src/stems/flac-admission.ts: how many decodes, downloads and verifications may run at once.
-- `hardware` is the floor of a finite `hardwareConcurrency`, 0 for a negative one. A finite positive
-- `deviceMemory` is the floor of its 2^24-fold, so that `Math.floor(deviceMemory * 2^23)` is its
-- half. An option is `none` where it is absent, and a number of bytes or workers where it is given.
mod Bounds
mod Tests
use engine_web_adapter.Prelude.{
  ℕ, ◌+◌, ◌-◌, ◌*◌, ◌/◌, Bool, true, ◌&&◌, leb, ltb, if◌then◌else◌, min, max, Option, none, some,
}
use engine_web_adapter.Errors.{range_error, Result, ok, err, require, ◌>>=◌, ◌>>◌}
use engine_web_adapter.Json.{is_safe}

abbrev pub reservation_bytes : ℕ
reservation_bytes = 8 * 1024 * 1024

abbrev pub default_budget : ℕ
default_budget = 16 * 1024 * 1024

abbrev pub minimum_budget : ℕ
minimum_budget = 8 * 1024 * 1024

abbrev pub maximum_budget : ℕ
maximum_budget = 32 * 1024 * 1024

-- `a ?? b`.
abbrev pub default_to : Option ℕ → ℕ → ℕ
default_to none b = b
default_to (some a) b = a

-- `defaultFlacMemoryBudgetBytes`.
unfoldable pub default_memory_budget : Option ℕ → ℕ
default_memory_budget none = default_budget
default_memory_budget (some scaled) = min maximum_budget (max minimum_budget (scaled / 2))

-- `automaticMemory` in `flacPipelineWidths`.
unfoldable pub automatic_memory : Option ℕ → ℕ
automatic_memory none = default_budget
automatic_memory (some scaled) = min (128 * 1024 * 1024) (max minimum_budget scaled)

-- `flacAdmissionWidth`, with its two defaults resolved by the caller's `??`.
unfoldable pub admission_width : Option ℕ → Option ℕ → Option ℕ → Result ℕ
admission_width hardware_concurrency memory_budget_bytes maximum_option =
    let hardware = default_to hardware_concurrency 2 in
    let memory_budget = default_to memory_budget_bytes default_budget in
    let maximum = default_to maximum_option 4 in
    do
      require (is_safe memory_budget) range_error
      require (leb reservation_bytes memory_budget) range_error
      require (is_safe maximum) range_error
      require (leb 1 maximum) range_error
      ok (max 1 (min (min (max 1 (hardware - 1)) (memory_budget / reservation_bytes)) maximum))

-- `FlacProcessingOptions`.
pub record Processing : Type 0 where
  pub maximum_workers : Option ℕ
  pub memory_budget_bytes : Option ℕ
  pub maximum_verifications : Option ℕ

-- `FlacAdmissionOptions`; `admission` is the limit of a shared admission, and the two hints are
-- those that `navigator` completes.
pub record Options : Type 0 where
  pub admission : Option ℕ
  pub hardware_concurrency : Option ℕ
  pub device_memory : Option ℕ
  pub memory_budget_bytes : Option ℕ
  pub maximum_workers : Option ℕ
  pub processing : Option Processing

pub record Widths : Type 0 where
  pub processing : ℕ
  pub downloads : ℕ
  pub verification : ℕ

-- The loop over the two maxima.
abbrev pub check_maximum : ℕ → ℕ → Result (Unit {0})
check_maximum value ceiling =
    require (is_safe value && (leb 1 value && leb value ceiling)) range_error

abbrev pub at_most : Option ℕ → ℕ → Bool
at_most none ceiling = true
at_most (some limit) ceiling = leb limit ceiling

-- `flacPipelineWidths` where `processing` is given.
unfoldable pub policy_widths : Options → ℕ → Processing → Result Widths
unfolding admission_width automatic_memory
policy_widths options legacy p = do
  check_maximum (default_to p.maximum_workers 16) 16
  check_maximum (default_to p.maximum_verifications 4) 4
  processing ←
      admission_width options.hardware_concurrency
        (some (default_to p.memory_budget_bytes (automatic_memory options.device_memory)))
        (some (default_to p.maximum_workers 16))
  require (at_most options.admission processing) range_error
  ok (record {
    processing = default_to options.admission processing;
    downloads = min 4 legacy;
    verification = min (min 4 legacy) (default_to p.maximum_verifications 4);
  })

-- The two ways of `flacPipelineWidths`.
unfoldable pub widths_for : Options → ℕ → Option Processing → Result Widths
unfolding policy_widths
widths_for options legacy none =
    let width = default_to options.admission legacy in
    ok (record { processing = width; downloads = width; verification = width })
widths_for options legacy (some p) = policy_widths options legacy p

unfoldable pub pipeline_widths : Options → Result Widths
unfolding admission_width default_memory_budget widths_for
pipeline_widths options = do
  legacy ←
      admission_width options.hardware_concurrency
        (some
          (default_to options.memory_budget_bytes (default_memory_budget options.device_memory)))
        options.maximum_workers
  widths_for options legacy options.processing
