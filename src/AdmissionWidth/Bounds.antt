-- ===== src/AdmissionWidth/Bounds.antt =====
-- src/stems/flac-admission.ts: what the widths are bounded by.
use engine_web_adapter.Prelude.{ℕ, ◌*◌, ◌≤◌, ◌≡◌, sym, subst, true, Option, none, some, arith}
use engine_web_adapter.Errors.{range_error, ok}
use engine_web_adapter.SparseFormat.Sound.{bind_elim, ok_injective}
use engine_web_adapter.SparseFormat.Accept.{require_elim}
use engine_web_adapter.AdmissionWidth.{
  reservation_bytes, default_to, default_budget, admission_width, Options, Processing, Widths,
  policy_widths, widths_for, pipeline_widths, automatic_memory, check_maximum, at_most,
  default_memory_budget,
}

admission_width_ok :
    (hardware memory maximum : Option ℕ) (width : ℕ)
    → admission_width hardware memory maximum ≡ ok width
    → (1 ≤ width)
      × (width * reservation_bytes ≤ default_to memory default_budget)
      × (width ≤ default_to maximum 4)
unfolding admission_width
admission_width_ok hardware memory maximum width e = ground arith

-- A processing policy bounds the workers by its maximum, by 16 and by its memory budget, the
-- downloads by 4, and the verifications by the downloads and by their maximum.
pub record IsBounded (o : Options) (p : Processing) (w : Widths) : Type 0 where
  pub processing_pos : 1 ≤ w.processing
  pub downloads_pos : 1 ≤ w.downloads
  pub verification_pos : 1 ≤ w.verification
  pub by_maximum : w.processing ≤ default_to p.maximum_workers 16
  pub by_ceiling : w.processing ≤ 16
  pub by_memory :
      w.processing * reservation_bytes
      ≤ default_to p.memory_budget_bytes (automatic_memory o.device_memory)
  pub by_downloads : w.downloads ≤ 4
  pub verified : w.verification ≤ w.downloads
  pub by_verifications : w.verification ≤ default_to p.maximum_verifications 4

admitted_width :
    (admission : Option ℕ) (width : ℕ)
    → at_most admission width ≡ true
    → 1 ≤ default_to admission 1
    → 1 ≤ width
    → (1 ≤ default_to admission width) × (default_to admission width ≤ width)
admitted_width none width fits pos low = ground arith
admitted_width (some limit) width fits pos low = ground arith

policy_widths-IsBounded :
    (o : Options) (legacy : ℕ) (p : Processing) (w : Widths)
    → 1 ≤ legacy
    → 1 ≤ default_to o.admission 1
    → policy_widths o legacy p ≡ ok w
    → IsBounded o p w
unfolding policy_widths
policy_widths-IsBounded o legacy p w low shared e =
    bind_elim (check_maximum (default_to p.maximum_workers 16) 16) _ e λ u c1 e1.
      bind_elim (check_maximum (default_to p.maximum_verifications 4) 4) _ e1 λ u2 c2 e2.
        bind_elim
          (admission_width o.hardware_concurrency
            (some (default_to p.memory_budget_bytes (automatic_memory o.device_memory)))
            (some (default_to p.maximum_workers 16)))
          _ e2
          λ processing c3 e3.
            require_elim (at_most o.admission processing) range_error _ e3 λ fits e4.
              let (one, memory, most) =
                admission_width_ok o.hardware_concurrency
                  (some (default_to p.memory_budget_bytes (automatic_memory o.device_memory)))
                  (some (default_to p.maximum_workers 16)) processing c3 in
              let (pos, under) = admitted_width o.admission processing fits shared one in
              subst (IsBounded o p) (sym (ok_injective e4)) (record {
                processing_pos = pos;
                downloads_pos = omega arith;
                verification_pos = ground (arith, c2);
                by_maximum = omega arith;
                by_ceiling = ground (arith, c1);
                by_memory = omega arith;
                by_downloads = omega arith;
                verified = omega arith;
                by_verifications = omega arith;
              })

-- The widths of a processing policy are positive and within its bounds, for a shared admission of
-- at least one slot.
pub pipeline_widths-IsBounded :
    (o : Options) (p : Processing) (w : Widths)
    → o.processing ≡ some p
    → 1 ≤ default_to o.admission 1
    → pipeline_widths o ≡ ok w
    → IsBounded o p w
unfolding pipeline_widths widths_for
pipeline_widths-IsBounded o p w given shared e =
    bind_elim
      (admission_width o.hardware_concurrency
        (some (default_to o.memory_budget_bytes (default_memory_budget o.device_memory)))
        o.maximum_workers)
      _ e
      λ legacy c e1.
        policy_widths-IsBounded o legacy p w
          (admission_width_ok o.hardware_concurrency
            (some (default_to o.memory_budget_bytes (default_memory_budget o.device_memory)))
            o.maximum_workers legacy c).0
          shared (subst (λ q. widths_for o legacy q ≡ ok w) given e1)
