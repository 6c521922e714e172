-- ===== src/OutputCredits/Sound.antt =====
-- src/stems/flac-output-credits.ts: no credit is lost, and no wake.
use engine_web_adapter.Prelude.{
  ℕ, ◌+◌, ◌-◌, ◌≡◌, refl, sym, subst, Bool, true, false, leb, ◌==◌, ==_iff, if_elim, if_inv,
  if◌then◌else◌, arith,
}
use engine_web_adapter.Errors.{ok}
use engine_web_adapter.SparseFormat.Sound.{ok_injective}
use engine_web_adapter.OutputCredits.{
  output_credits, Credits, credits, give, cancel, Round, taken, refused, waits, take_round,
}

-- The worker between two calls of `take`, asleep in one, or woken in one.
pub data Taker : Type 0 where
  resting sleeping woken : Taker

-- The credits, the worker, and the credits that it holds.
pub record System : Type 0 where
  pub state : Credits
  pub taker : Taker
  pub held : ℕ

abbrev pub roused : Bool → Taker → Taker
roused true sleeping = woken
roused true resting = resting
roused true woken = woken
roused false t = t

-- The worker and its credits behind a round.
abbrev pub ended : Round → Taker
ended taken = resting
ended refused = resting
ended waits = sleeping

abbrev pub now_held : Round → ℕ → ℕ
now_held taken held = held + 1
now_held refused held = held
now_held waits held = held

abbrev pub after_round : System → Credits × Round → System
after_round y r = record { state = r.0; taker = ended r.1; held = now_held r.1 y.held }

abbrev pub after_give : System → Credits × Bool → System
after_give y r = record {
  state = r.0;
  taker = roused r.1 y.taker;
  held = if (y.state).cancelled then y.held else y.held - 1;
}

-- A round starts with a call of `take` or behind a wake.
pub data Step : System → System → Type 0 where
  takes : (y : System) → y.taker ≡ resting → Step y (after_round y (take_round y.state))
  resumes : (y : System) → y.taker ≡ woken → Step y (after_round y (take_round y.state))
  gives : (y : System) (r : Credits × Bool) → give y.state ≡ ok r → Step y (after_give y r)
  cancels :
      (y : System)
      → Step y (record y { state = (cancel y.state).0; taker = roused (cancel y.state).1 y.taker })

pub data Reachable : System → Type 0 where
  starts : Reachable (record { state = credits; taker = resting; held = 0 })
  stepped : {y z : System} → Reachable y → Step y z → Reachable z

-- Every credit is available or held, and a worker sleeps only where there is nothing to take, no
-- cancellation, and a wake is set.
pub record IsBalanced (y : System) : Type 0 where
  pub total : (y.state).available + y.held ≡ output_credits
  pub asleep :
      y.taker ≡ sleeping
      → ((y.state).available ≡ 0) × ((y.state).waiting ≡ true) × ((y.state).cancelled ≡ false)

round-IsBalanced : (y : System) → IsBalanced y → IsBalanced (after_round y (take_round y.state))
unfolding take_round
round-IsBalanced y v =
    let s : Credits = y.state in
    if_elim (λ (r : Credits × Round). IsBalanced (after_round y r)) s.cancelled
      (λ e. record { total = v.total; asleep = λ a. absurd (cc) })
      (λ running.
        if_elim (λ (r : Credits × Round). IsBalanced (after_round y r)) (s.available == 0)
          (λ none_left. record {
            total = v.total;
            asleep = λ a. ((==_iff s.available 0).0 none_left, refl, running);
          })
          (λ some_left. record { total = ground (arith, v.total); asleep = λ a. absurd (cc) }))

roused_sleeping : (b : Bool) (t : Taker) → roused b t ≡ sleeping → (b ≡ false) × (t ≡ sleeping)
roused_sleeping true resting e = absurd (cc)
roused_sleeping true sleeping e = absurd (cc)
roused_sleeping true woken e = absurd (cc)
roused_sleeping false t e = (refl, e)

returned_credit :
    (a h : ℕ)
    → leb output_credits a ≡ false
    → a + h ≡ output_credits
    → a + 1 + (h - 1) ≡ output_credits
returned_credit a h room e = ground arith

give-IsBalanced :
    (y : System) (r : Credits × Bool)
    → give y.state ≡ ok r
    → IsBalanced y
    → IsBalanced (after_give y r)
unfolding give
give-IsBalanced y r e v =
    let s : Credits = y.state in
    if_inv s.cancelled e
      (λ over e1.
        subst (λ r. IsBalanced (after_give y r)) (sym (ok_injective e1))
          (record { total = rw over v.total; asleep = v.asleep }))
      (λ running e1.
        if_inv (leb output_credits s.available) e1 (λ full e2. absurd (cc))
          (λ room e2.
            subst (λ r. IsBalanced (after_give y r)) (sym (ok_injective e2))
              (record {
                total = rw running (returned_credit s.available y.held room v.total);
                asleep = λ a.
                    let (b, t) = roused_sleeping s.waiting y.taker a in
                    let (_, set, _) = v.asleep t in absurd (cc);
              })))

cancel-IsBalanced :
    (y : System)
    → IsBalanced y
    → IsBalanced
        (record y { state = (cancel y.state).0; taker = roused (cancel y.state).1 y.taker })
unfolding cancel
cancel-IsBalanced y v =
    let s : Credits = y.state in
    if_elim
      (λ (r : Credits × Bool). IsBalanced (record y { state = r.0; taker = roused r.1 y.taker }))
      s.cancelled (λ over. record { total = v.total; asleep = v.asleep })
      (λ running. record {
        total = v.total;
        asleep = λ a.
            let (b, t) = roused_sleeping s.waiting y.taker a in
            let (_, set, _) = v.asleep t in absurd (cc);
      })

Step-IsBalanced : {y z : System} → Step y z → IsBalanced y → IsBalanced z
Step-IsBalanced (takes y e) v = round-IsBalanced y v
Step-IsBalanced (resumes y e) v = round-IsBalanced y v
Step-IsBalanced (gives y r e) v = give-IsBalanced y r e v
Step-IsBalanced (cancels y) v = cancel-IsBalanced y v

-- In every order of takes, wakes, gives and cancellations with one worker, every credit is available
-- or held, and the worker sleeps only where no credit is available, nothing is cancelled and its wake
-- is set.
pub Reachable-IsBalanced : {y : System} → Reachable y → IsBalanced y
Reachable-IsBalanced starts = record { total = refl; asleep = λ a. absurd (cc) }
Reachable-IsBalanced (stepped reached step) = Step-IsBalanced step (Reachable-IsBalanced reached)

-- In every reachable system with a sleeping worker, a credit that is given is accepted and wakes the
-- worker, and the next round of the worker takes it; a cancellation wakes the worker, and its next
-- round ends.
pub sleeper-wakes :
    {y : System}
    → Reachable y
    → y.taker ≡ sleeping
    → ((r : Credits × Bool) × (give y.state ≡ ok r)
        × (roused r.1 y.taker ≡ woken)
        × ((take_round r.0).1 ≡ taken))
      × (roused (cancel y.state).1 y.taker ≡ woken)
      × ((take_round (cancel y.state).0).1 ≡ refused)
unfolding give cancel take_round
sleeper-wakes {y} reached asleep =
    let (none_left, set, running) = (Reachable-IsBalanced reached).asleep asleep in
    (
      (
        (
          record (y.state) { available = (y.state).available + 1; waiting = false },
          (y.state).waiting,
        ),
        rw (running, none_left) refl,
        rw (set, asleep) refl,
        rw (running, none_left) refl,
      ),
      rw (running, set, asleep) refl,
      rw running refl,
    )
