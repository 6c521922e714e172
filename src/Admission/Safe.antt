-- ===== src/Admission/Safe.antt =====
-- src/stems/flac-admission.ts: the invariant of `BoundedStemAdmission` and that each method keeps it.
use engine_web_adapter.Prelude.{
  ℕ, ◌+◌, ◌-◌, ◌≤◌, ◌≡◌, refl, sym, ap, subst, ◌∙◌, ◌⊎◌, inl, inr, Bool, true, false, ltb,
  Bool-cases, if_elim, Option, some, List, [], ◌∷◌, ◌++◌, append_assoc, append-nil, arith,
  get_elem?, Option-cases,
}
use engine_web_adapter.Admission.{
  Admission, Settled, Outcome, granted, cancelled, refused, settle, grant, admission, acquire,
  abort_waiter, release, close, admit_next, admit_waiting, waits, without, mark, refuse_all,
}
use engine_web_adapter.Admission.Live.{live, live-append, live-mark}
use engine_web_adapter.Admission.Line.{
  Ascends, grants, grants-append, grants-refuse_all, Ascends-leave, Ascends-raise, Ascends-snoc,
  Ascends-front, Ascends-without,
}
use engine_web_adapter.Admission.Steps.{
  Step, acquires, aborts, releases, closes, Reachable, made, moves,
}

-- What holds in the loop of `#admitNext`, where `waiting` is left of the queue.
pub record IsCounted (s : Admission) (waiting : List ℕ) : Type 0 where
  -- No more leases are live than the limit, and `#active` is their number.
  pub bounded : s.active ≤ s.limit
  pub counted : s.active ≡ live s.leases
  -- Leases were granted in the order of the calls, and those who wait called after them.
  pub ordered : Ascends 0 s.issued (grants s.settled ++ waiting)

pub record IsSound (s : Admission) : Type 0 where
  pub core : IsCounted s s.queued
  -- Nobody waits while a slot is free, and nobody waits after the closing.
  pub busy : (s.queued ≡ []) ⊎ (s.active ≡ s.limit)
  pub drained : s.closed ≡ true → s.queued ≡ []

grants-granted :
    (xs : List Settled) (t : ℕ) (ts : List ℕ)
    → grants (xs ++ (record { ticket = t; outcome = granted } ∷ [])) ++ ts ≡ grants xs ++ (t ∷ ts)
grants-granted xs t ts =
    ap (λ r. r ++ ts) (grants-append xs (record { ticket = t; outcome = granted } ∷ []))
    ∙ append_assoc (grants xs) (t ∷ []) ts

grants-cancelled :
    (xs : List Settled) (t : ℕ)
    → grants (xs ++ (record { ticket = t; outcome = cancelled } ∷ [])) ≡ grants xs
grants-cancelled xs t =
    grants-append xs (record { ticket = t; outcome = cancelled } ∷ []) ∙ append-nil (grants xs)

grants-refused :
    (xs : List Settled) (why : Option ℕ) (ws : List ℕ)
    → grants (xs ++ refuse_all why ws) ≡ grants xs
grants-refused xs why ws =
    grants-append xs (refuse_all why ws)
    ∙ ap (λ r. grants xs ++ r) (grants-refuse_all why ws)
    ∙ append-nil (grants xs)

grant-IsCounted :
    (s : Admission) (w : ℕ) (ws : List ℕ)
    → ltb s.active s.limit ≡ true
    → IsCounted s (w ∷ ws)
    → IsCounted (grant s w) ws
grant-IsCounted s w ws e c = record {
  bounded = ground arith;
  counted = omega (arith, c.counted, live-append s.leases);
  ordered = subst (Ascends 0 s.issued) (sym (grants-granted s.settled w ws)) c.ordered;
}

cancel-IsCounted :
    (s : Admission) (w : ℕ) (ws : List ℕ)
    → IsCounted s (w ∷ ws)
    → IsCounted (settle s w cancelled) ws
cancel-IsCounted s w ws c = record {
  bounded = c.bounded;
  counted = c.counted;
  ordered =
      subst (λ r. Ascends 0 s.issued (r ++ ws)) (sym (grants-cancelled s.settled w))
        (Ascends-leave s.issued (grants s.settled) w ws 0 c.ordered);
}

-- After the loop the queue is empty or every slot is taken.
record IsServed (before s : Admission) : Type 0 where
  core : IsCounted s s.queued
  busy : (s.queued ≡ []) ⊎ (s.active ≡ s.limit)
  still : s.closed ≡ before.closed

admit_waiting-IsServed :
    (aborted : ℕ → Bool) (ws : List ℕ) (s : Admission)
    → IsCounted s ws
    → IsServed s (admit_waiting aborted ws s)
unfolding admit_waiting
admit_waiting-IsServed aborted [] s c = record {
  core = record { bounded = c.bounded; counted = c.counted; ordered = c.ordered };
  busy = inl refl;
  still = refl;
}
admit_waiting-IsServed aborted (w ∷ ws) s c = elim (Bool-cases (ltb s.active s.limit)) [
  | inl e ↦ elim (Bool-cases (aborted w)) [
    | inl gone ↦
        let r =
          admit_waiting-IsServed aborted ws (settle s w cancelled) (cancel-IsCounted s w ws c) in
        rw (e, gone) (record { core = r.core; busy = r.busy; still = r.still })
    | inr here ↦
        let r = admit_waiting-IsServed aborted ws (grant s w) (grant-IsCounted s w ws e c) in
        rw (e, here) (record { core = r.core; busy = r.busy; still = r.still })
  ]
  | inr e ↦ rw e (record {
    core = record { bounded = c.bounded; counted = c.counted; ordered = c.ordered };
    busy = inr (ground (arith, c.bounded));
    still = refl;
  })
]

admission-IsSound : (limit : ℕ) (s : Admission) → admission limit ≡ some s → IsSound s
unfolding admission
admission-IsSound limit s e = record {
  core = record { bounded = ground arith; counted = ground arith; ordered = ground arith };
  busy = inl (ground arith);
  drained = λ c. ground arith;
}

close-IsSound : (why : ℕ) (s : Admission) → IsSound s → IsSound (close why s)
unfolding close
close-IsSound why s v =
    if_elim IsSound s.closed (λ e. v)
      λ e. record {
        core = record {
          bounded = v.core.bounded;
          counted = v.core.counted;
          ordered =
              subst (Ascends 0 s.issued)
                (sym (
                  append-nil (grants (s.settled ++ refuse_all (some why) s.queued))
                  ∙ grants-refused s.settled (some why) s.queued))
                (Ascends-front s.issued (grants s.settled) s.queued 0 v.core.ordered);
        };
        busy = inl refl;
        drained = λ c. refl;
      }

without_nil : (t : ℕ) (ts : List ℕ) → ts ≡ [] → without t ts ≡ []
without_nil t [] e = refl
without_nil t (w ∷ ts) e = ground arith

abort_waiter-IsSound : (t : ℕ) (s : Admission) → IsSound s → IsSound (abort_waiter t s)
unfolding abort_waiter
abort_waiter-IsSound t s v = elim (Bool-cases (waits t s.queued)) [
  | inr e ↦ rw e v
  | inl e ↦ rw e (record {
    core = record {
      bounded = v.core.bounded;
      counted = v.core.counted;
      ordered =
          subst (λ r. Ascends 0 s.issued (r ++ without t s.queued))
            (sym (grants-cancelled s.settled t))
            (Ascends-without s.issued (grants s.settled) t s.queued 0 v.core.ordered);
    };
    busy = elim v.busy [ inl q ↦ inl (without_nil t s.queued q) | inr full ↦ inr full ];
    drained = λ c. without_nil t s.queued (v.drained c);
  })
]

admit_next-IsSound :
    (aborted : ℕ → Bool) (s : Admission)
    → IsCounted s s.queued
    → (s.closed ≡ true → s.queued ≡ [])
    → IsSound (admit_next aborted s)
unfolding admit_next
admit_next-IsSound aborted s c drained =
    if_elim IsSound s.closed (λ e. record { core = c; busy = inl (drained e); drained = drained })
      λ e.
        let r = admit_waiting-IsServed aborted s.queued s c in
        record { core = r.core; busy = r.busy; drained = λ shut. absurd (cc (r.still, e, shut)) }

release-IsSound :
    (aborted : ℕ → Bool) (i : ℕ) (s : Admission) → IsSound s → IsSound (release aborted i s)
unfolding release
release-IsSound aborted i s v = elim (Option-cases (get_elem? s.leases i)) [
  | inl e ↦ rw (e, release) v
  | inr (true, e) ↦ rw (e, release) v
  | inr (false, e) ↦
      rw (e, release)
        (admit_next-IsSound aborted (record s { leases = mark i s.leases; active = s.active - 1 })
          (record {
            bounded = omega (arith, v.core.bounded);
            counted = omega (arith, v.core.counted, live-mark i s.leases e);
            ordered = v.core.ordered;
          })
          v.drained)
]

module _ (s : Admission) (v : IsSound s) where
  settle_new :
      (o : Outcome)
      → (grants (s.settled ++ (record { ticket = s.issued; outcome = o } ∷ [])) ≡ grants s.settled)
      → IsSound (settle (record s { issued = s.issued + 1 }) s.issued o)
  settle_new o e = record {
    core = record {
      bounded = v.core.bounded;
      counted = v.core.counted;
      ordered =
          subst (λ r. Ascends 0 (s.issued + 1) (r ++ s.queued)) (sym e)
            (Ascends-raise s.issued (grants s.settled ++ s.queued) 0 v.core.ordered);
    };
    busy = v.busy;
    drained = v.drained;
  }

  grant_new :
      ltb s.active s.limit ≡ true → IsSound (grant (record s { issued = s.issued + 1 }) s.issued)
  grant_new e =
      let empty : s.queued ≡ [] = elim v.busy [ inl q ↦ q | inr full ↦ absurd (ground arith) ] in
      record {
        core = record {
          bounded = ground arith;
          counted = omega (arith, v.core.counted, live-append s.leases);
          ordered =
              subst (Ascends 0 (s.issued + 1))
                (sym (
                  ap
                    (λ r.
                      grants (s.settled ++ (record { ticket = s.issued; outcome = granted } ∷ []))
                      ++ r)
                    empty
                  ∙ grants-granted s.settled s.issued []))
                (Ascends-snoc s.issued (grants s.settled) 0
                  (Ascends-front s.issued (grants s.settled) s.queued 0 v.core.ordered));
        };
        busy = inl empty;
        drained = v.drained;
      }

  queue_new :
      s.closed ≡ false
      → ltb s.active s.limit ≡ false
      → IsSound (record s { issued = s.issued + 1; queued = s.queued ++ (s.issued ∷ []) })
  queue_new open_ full = record {
    core = record {
      bounded = v.core.bounded;
      counted = v.core.counted;
      ordered =
          subst (Ascends 0 (s.issued + 1))
            (append_assoc (grants s.settled) s.queued (s.issued ∷ []))
            (Ascends-snoc s.issued (grants s.settled ++ s.queued) 0 v.core.ordered);
    };
    busy = inr (ground (arith, v.core.bounded));
    drained = λ shut. absurd (cc (open_, shut));
  }

acquire-IsSound : (aborted : ℕ → Bool) (s : Admission) → IsSound s → IsSound (acquire aborted s)
unfolding acquire
acquire-IsSound aborted s v =
    if_elim IsSound s.closed
      (λ shut.
        settle_new s v (refused s.reason) (grants-refused s.settled s.reason (s.issued ∷ [])))
      λ still.
        if_elim IsSound (aborted s.issued)
          (λ gone. settle_new s v cancelled (grants-cancelled s.settled s.issued))
          λ here.
            if_elim IsSound (ltb s.active s.limit) (λ free. grant_new s v free)
              (λ full. queue_new s v still full)

Step-IsSound : {s next : Admission} → Step s next → IsSound s → IsSound next
Step-IsSound (acquires aborted) v = acquire-IsSound aborted _ v
Step-IsSound (aborts t) v = abort_waiter-IsSound t _ v
Step-IsSound (releases aborted i) v = release-IsSound aborted i _ v
Step-IsSound (closes why) v = close-IsSound why _ v

-- In every order of calls, aborts, releases and closings that follows the construction: `#active` is
-- the number of live leases and at most the limit, nobody waits while a slot is free or after the
-- closing, and leases were granted in the order of the calls, ahead of all who still wait.
pub Reachable-IsSound : {limit : ℕ} {s : Admission} → Reachable limit s → IsSound s
Reachable-IsSound (made s e) = admission-IsSound _ s e
Reachable-IsSound (moves r step) = Step-IsSound step (Reachable-IsSound r)
