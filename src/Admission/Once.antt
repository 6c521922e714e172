-- ===== src/Admission/Once.antt =====
-- src/stems/flac-admission.ts: no promise of `acquire` is lost, and none is settled twice.
use engine_web_adapter.Prelude.{
  ℕ, ◌+◌, ◌-◌, ◌≡◌, refl, ◌∙◌, inl, inr, Bool, true, false, ltb, if◌then◌else◌, Bool-cases, if_elim,
  some, List, [], ◌∷◌, ◌++◌, arith, get_elem?, Option-cases,
}
use engine_web_adapter.Admission.{
  Admission, Settled, Outcome, granted, cancelled, refused, settle, grant, admission, acquire,
  abort_waiter, release, close, admit_next, admit_waiting, waits, mark, refuse_all,
}
use engine_web_adapter.Admission.Count.{
  hit, times, settlements, times-append, settlements-append, settlements-refuse_all, times-without,
}
use engine_web_adapter.Admission.Steps.{
  Step, acquires, aborts, releases, closes, Reachable, made, moves,
}

abbrev pub tally : ℕ → Admission → ℕ
tally t s = times t s.queued + settlements t s.settled

-- A ticket that was issued is queued or settled, once in all.
abbrev pub IsOnce : Admission → Type 0
IsOnce s = (t : ℕ) → tally t s ≡ (if ltb t s.issued then 1 else 0)

-- The same tickets are queued or settled in both.
abbrev Keeps : Admission → Admission → Type 0
Keeps s next = (next.issued ≡ s.issued) × ((t : ℕ) → tally t next ≡ tally t s)

Keeps-IsOnce : (s next : Admission) → Keeps s next → IsOnce s → IsOnce next
Keeps-IsOnce s next k once = λ t. rw (k.0) (k.1 t ∙ once t)

settle_tally :
    (t w : ℕ) (o : Outcome) (xs : List Settled)
    → settlements t (xs ++ (record { ticket = w; outcome = o } ∷ [])) ≡ settlements t xs + hit t w
settle_tally t w o xs =
    omega (arith, settlements-append t xs (record { ticket = w; outcome = o } ∷ []))

close-Keeps : (why : ℕ) (s : Admission) → Keeps s (close why s)
unfolding close
close-Keeps why s =
    if_elim (Keeps s) s.closed (λ e. (refl, λ t. refl))
      λ e. (
        refl,
        λ t. omega (
          arith,
          settlements-append t s.settled (refuse_all (some why) s.queued),
          settlements-refuse_all t (some why) s.queued,
        ),
      )

abort_waiter-Keeps : (w : ℕ) (s : Admission) → Keeps s (abort_waiter w s)
unfolding abort_waiter
abort_waiter-Keeps w s =
    if_elim (Keeps s) (waits w s.queued)
      (λ e. (
        refl,
        λ t. omega (arith, settle_tally t w cancelled s.settled, times-without t w s.queued e),
      ))
      (λ e. (refl, λ t. refl))

-- The loop, where `ws` is left of the queue.
abbrev Serves : List ℕ → Admission → Admission → Type 0
Serves ws s next =
    (next.issued ≡ s.issued) × ((t : ℕ) → tally t next ≡ times t ws + settlements t s.settled)

admit_waiting-Serves :
    (aborted : ℕ → Bool) (ws : List ℕ) (s : Admission) → Serves ws s (admit_waiting aborted ws s)
unfolding admit_waiting
admit_waiting-Serves aborted [] s = (refl, λ t. refl)
admit_waiting-Serves aborted (w ∷ ws) s = elim (Bool-cases (aborted w)) [
  | inl gone ↦
      let r = admit_waiting-Serves aborted ws (settle s w cancelled) in
      rw gone (
        if_elim (Serves (w ∷ ws) s) (ltb s.active s.limit)
          (λ e. (r.0, λ t. omega (arith, r.1 t, settle_tally t w cancelled s.settled)))
          (λ e. (refl, λ t. refl)))
  | inr here ↦
      let r = admit_waiting-Serves aborted ws (grant s w) in
      rw here (
        if_elim (Serves (w ∷ ws) s) (ltb s.active s.limit)
          (λ e. (r.0, λ t. omega (arith, r.1 t, settle_tally t w granted s.settled)))
          (λ e. (refl, λ t. refl)))
]

admit_next-Keeps : (aborted : ℕ → Bool) (s : Admission) → Keeps s (admit_next aborted s)
unfolding admit_next
admit_next-Keeps aborted s =
    if_elim (Keeps s) s.closed (λ e. (refl, λ t. refl))
      (λ e. admit_waiting-Serves aborted s.queued s)

release-Keeps : (aborted : ℕ → Bool) (i : ℕ) (s : Admission) → Keeps s (release aborted i s)
unfolding release
release-Keeps aborted i s = elim (Option-cases (get_elem? s.leases i)) [
  | inl e ↦ rw (e, release) (refl, λ t. refl)
  | inr (true, e) ↦ rw (e, release) (refl, λ t. refl)
  | inr (false, e) ↦
      rw (e, release)
        (admit_next-Keeps aborted (record s { leases = mark i s.leases; active = s.active - 1 }))
]

settle_new :
    (s : Admission)
    → IsOnce s
    → (o : Outcome) → IsOnce (settle (record s { issued = s.issued + 1 }) s.issued o)
settle_new s once o = λ t. ground (arith, once t, settle_tally t s.issued o s.settled)

acquire-IsOnce : (aborted : ℕ → Bool) (s : Admission) → IsOnce s → IsOnce (acquire aborted s)
unfolding acquire
acquire-IsOnce aborted s once =
    if_elim IsOnce s.closed (λ shut. settle_new s once (refused s.reason))
      λ still.
        if_elim IsOnce (aborted s.issued) (λ gone. settle_new s once cancelled)
          λ here.
            if_elim IsOnce (ltb s.active s.limit) (λ free. settle_new s once granted)
              λ full. λ t. ground (arith, once t, times-append t s.queued (s.issued ∷ []))

Step-IsOnce : {s next : Admission} → Step s next → IsOnce s → IsOnce next
Step-IsOnce {s = s} (acquires aborted) v = acquire-IsOnce aborted s v
Step-IsOnce {s = s} (aborts t) v = Keeps-IsOnce s (abort_waiter t s) (abort_waiter-Keeps t s) v
Step-IsOnce {s = s} (releases aborted i) v =
    Keeps-IsOnce s (release aborted i s) (release-Keeps aborted i s) v
Step-IsOnce {s = s} (closes why) v = Keeps-IsOnce s (close why s) (close-Keeps why s) v

-- In every order of steps after the construction, a ticket that `acquire` issued is queued or
-- settled exactly once, and one that was not issued is neither.
pub Reachable-IsOnce : {limit : ℕ} {s : Admission} → Reachable limit s → IsOnce s
unfolding admission
Reachable-IsOnce (made s e) = λ t. ground arith
Reachable-IsOnce (moves r step) = Step-IsOnce step (Reachable-IsOnce r)
