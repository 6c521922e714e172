-- ===== src/Store/Leased.antt =====
-- src/stems/store.ts: a lease serves its stems, verified, whatever the store does meanwhile.
use engine_web_adapter.Prelude.{ℕ, ◌≡◌, refl, Bool, true, false, Option, List, Text, text_eq}
use engine_web_adapter.Errors.{ok, Failure, Ran}
use engine_web_adapter.Identity.{is_stem_identity}
use engine_web_adapter.Store.{Disk, Stem, offline_pin, release_pin, set_offline_pin, read_stem}
use engine_web_adapter.Store.Ingest.{Ensuring, ensure}
use engine_web_adapter.Store.Session.{Opening, Lease, session_pin}
use engine_web_adapter.Store.Held.{Held}
use engine_web_adapter.Store.Keeps.{is_broken, read_stem-Held}
use engine_web_adapter.Store.Pins.{release_pin-Held, set_offline_pin-Held}
use engine_web_adapter.Store.Kept.{ensure-Held}
use engine_web_adapter.Store.Ensured.{IsHonest}
use engine_web_adapter.Store.Unique.{Every}

-- No read of a stored file fails or misses its deadline.
pub record IsSteady (x : Ensuring) : Type 0 where
  pub first : is_broken (x.first).reading ≡ false
  pub second : is_broken (x.second).reading ≡ false

-- What the stores do behind the opening, but for a release of its pin: sessions ensure stems with
-- any resolver, any result and any evictions, pins come and go, stems are read.
pub data Steps (blake3 : List ℕ → Text) (pin : Text) : Disk → Disk → Type 0 where
  stays : (d : Disk) → Steps blake3 pin d d
  ensures :
      {d e : Disk} (instance_id q : Text) (stem : Stem) (x : Ensuring)
      → is_stem_identity stem.identity ≡ true
      → IsSteady x
      → Steps blake3 pin d e
      → Steps blake3 pin d (ensure blake3 instance_id q stem x e).1
  releases :
      {d e : Disk} (fault : Option Failure) (q : Text) (stems : List Stem)
      → text_eq q pin ≡ false
      → Steps blake3 pin d e
      → Steps blake3 pin d (release_pin fault q stems e).1
  pins :
      {d e : Disk} (fault : Option Failure) (identity id : Text) (pinned : Bool)
      → text_eq (offline_pin id) pin ≡ false
      → Steps blake3 pin d e
      → Steps blake3 pin d (set_offline_pin fault identity id pinned e).1
  reads :
      {d e : Disk} (removing writing : Option Failure) (identity : Text)
      → Steps blake3 pin d e
      → Steps blake3 pin d (read_stem false removing writing identity e).1

-- A stem that a pin holds stays held through all of these, verified file included: whatever the
-- other sessions ensure, evict, release or fail at, where no read of a stored file fails.
pub Steps-Held :
    (blake3 : List ℕ → Text) (pin identity : Text) (bytes : ℕ) {d e : Disk}
    → is_stem_identity identity ≡ true
    → Held blake3 pin identity bytes d
    → Steps blake3 pin d e
    → Held blake3 pin identity bytes e
Steps-Held blake3 pin identity bytes valid h (stays d) = h
Steps-Held blake3 pin identity bytes valid h
      (ensures {e = e} instance_id q stem x valid2 steady s) =
    ensure-Held blake3 pin identity bytes valid instance_id q stem x e valid2 steady.first
      steady.second (Steps-Held blake3 pin identity bytes valid h s)
Steps-Held blake3 pin identity bytes valid h (releases {e = e} fault q stems apart s) =
    release_pin-Held blake3 pin identity bytes fault q stems e apart
      (Steps-Held blake3 pin identity bytes valid h s)
Steps-Held blake3 pin identity bytes valid h (pins {e = e} fault other id pinned apart s) =
    set_offline_pin-Held blake3 pin identity bytes fault other id pinned e apart
      (Steps-Held blake3 pin identity bytes valid h s)
Steps-Held blake3 pin identity bytes valid h (reads {e = e} removing writing other s) =
    read_stem-Held blake3 pin identity bytes valid false removing writing other e (λ _. refl)
      (Steps-Held blake3 pin identity bytes valid h s)

-- What the environment of an opening is assumed to do: no read of a stored file fails, and a package
-- that reports a digest reports that of its bytes.
pub record IsSound (blake3 : List ℕ → Text) (o : Opening) : Type 0 where
  pub steady : (n : ℕ) → IsSteady (o.ensuring n)
  pub honest : (n : ℕ) → IsHonest blake3 (o.ensuring n).intake

module _ (blake3 : List ℕ → Text) (o : Opening) (sound : IsSound blake3 o) where
  Served : Disk → Text → ℕ → Type 0
  Served d identity bytes =
      (is_stem_identity identity ≡ true) × Held blake3 (session_pin o) identity bytes d

  Keeps : Disk → Disk → Type 0
  Keeps d e = (identity : Text) (bytes : ℕ) → Served d identity bytes → Served e identity bytes

  -- The lease over stems that are all served.
  Opened : List Stem → Ran Disk Lease → Type 0
  Opened stems m =
      (lease : Lease)
      → m.0 ≡ ok lease
      → (lease ≡ record { pin = session_pin o; stems = stems; closed = false })
        × Every (Served m.1) stems
