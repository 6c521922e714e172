-- ===== src/SparseResponse/Borrow.antt =====
-- src/stems/sparse-response.ts: the borrow of the decoder scratch. A lease is the closure `release`
-- of one `readChunk`, known by its place; its flag is `released`.
use engine_web_adapter.Prelude.{
  ℕ, zero, suc, ◌+◌, ◌≡◌, refl, Bool, true, false, if◌then◌else◌, List, [], ◌∷◌, ◌++◌, get_or,
  if_elim, arith,
}

pub record Scratch : Type 0 where
  pub live : Bool
  pub released : List Bool

abbrev pub idle : Scratch
idle = record { live = false; released = [] }

-- `scratchLive = true; let released = false`.
unfoldable pub lend : Scratch → Scratch
lend s = record { live = true; released = s.released ++ (false ∷ []) }

abbrev pub set_released : List Bool → ℕ → List Bool
set_released [] i = []
set_released (b ∷ bs) zero = true ∷ bs
set_released (b ∷ bs) (suc i) = b ∷ set_released bs i

-- `release` of one lease.
unfoldable pub release : ℕ → Scratch → Scratch
release i s =
    if get_or s.released i true
    then s
    else record { live = false; released = set_released s.released i }

-- A scratch after any loans, each of an idle scratch, and releases in any order, also twice.
pub data Lends : Scratch → Type 0 where
  begins : Lends idle
  lends : {s : Scratch} → s.live ≡ false → Lends s → Lends (lend s)
  releases : {s : Scratch} (i : ℕ) → Lends s → Lends (release i s)

-- How many leases are not released.
abbrev pub held : List Bool → ℕ
held [] = 0
held (b ∷ bs) = (if b then 0 else 1) + held bs

held-append : (bs cs : List Bool) → held (bs ++ cs) ≡ held bs + held cs
held-append [] cs = omega arith
held-append (b ∷ bs) cs = omega (arith, held-append bs cs)

held-set_released :
    (bs : List Bool) (i : ℕ) → get_or bs i true ≡ false → held bs ≡ held (set_released bs i) + 1
held-set_released [] i e = absurd (cc)
held-set_released (b ∷ bs) zero e = ground arith
held-set_released (b ∷ bs) (suc i) e = omega (arith, held-set_released bs i e)

-- In every order of loans of an idle scratch and of releases, a release twice included, the scratch
-- is live exactly while one lease is not released, and two never are.
pub Lends-held : {s : Scratch} → Lends s → held s.released ≡ (if s.live then 1 else 0)
unfolding lend release
Lends-held begins = refl
Lends-held (lends {s = s} free l) =
    let before = Lends-held l in ground (arith, held-append s.released (false ∷ []))
Lends-held (releases {s = s} i l) =
    let before = Lends-held l in
    if_elim (λ (t : Scratch). held t.released ≡ (if t.live then 1 else 0))
      (get_or s.released i true) (λ e. before)
      (λ e. ground (arith, held-set_released s.released i e))
