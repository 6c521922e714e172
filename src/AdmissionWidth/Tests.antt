-- ===== src/AdmissionWidth/Tests.antt =====
-- The widths of a machine with eight threads and no memory hint, under a processing policy.
use engine_web_adapter.Prelude.{◌≡◌, refl, none, some, arith}
use engine_web_adapter.Errors.{ok}
use engine_web_adapter.AdmissionWidth.{Options, Processing, Widths, pipeline_widths}
use engine_web_adapter.AdmissionWidth.Bounds.{IsBounded, pipeline_widths-IsBounded}

abbrev policy : Processing
policy = record {
  maximum_workers = none;
  memory_budget_bytes = none;
  maximum_verifications = some 1;
}

abbrev eight_threads : Options
eight_threads = record {
  admission = none;
  hardware_concurrency = some 8;
  device_memory = none;
  memory_budget_bytes = none;
  maximum_workers = none;
  processing = some policy;
}

abbrev two_workers : Widths
two_workers = record { processing = 2; downloads = 2; verification = 1 }

eight_threads_widths : pipeline_widths eight_threads ≡ ok two_workers
unfolding pipeline_widths
eight_threads_widths = refl

pipeline_widths-IsBounded_example : IsBounded eight_threads policy two_workers
pipeline_widths-IsBounded_example =
    pipeline_widths-IsBounded eight_threads policy two_workers refl (omega arith)
      eight_threads_widths
