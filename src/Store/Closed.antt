-- ===== src/Store/Closed.antt =====
-- src/stems/store.ts: what the closing of a lease leaves.
use engine_web_adapter.Prelude.{
  ◌≡◌, refl, sym, ap, subst, ◌∙◌, inl, inr, true, false, Bool-cases, Option, none, some, List, [],
  ◌∷◌, Text, text_eq, text_eq_sound,
}
use engine_web_adapter.Errors.{ok, err, Failure}
use engine_web_adapter.MemoryStorage.{get, has_name}
use engine_web_adapter.MemoryStorage.Files.{get-put, get-put_other}
use engine_web_adapter.Store.{
  Row, Index, Disk, Stem, without_pin, unpin_row, unpin_all, mutate_index, release_pin,
}
use engine_web_adapter.Store.Session.{Lease, close_lease}
use engine_web_adapter.Store.Unique.{Every, every_nil, every_cons}

-- No row of the identity has the pin.
pub record IsFree (pin identity : Text) (index : Index) : Type 0 where
  pub free : (row : Row) → get identity index ≡ some row → has_name pin row.pins ≡ false

without_pin-free : (pin : Text) (pins : List Text) → has_name pin (without_pin pin pins) ≡ false
without_pin-free pin [] = refl
without_pin-free pin (p ∷ ps) = elim (Bool-cases (text_eq p pin)) [
  | inl gone ↦ rw gone (without_pin-free pin ps)
  | inr kept ↦ rw (kept, kept) (without_pin-free pin ps)
]

module _ (pin : Text) where
  unpin_row-IsFree :
      (identity : Text) (index : Index) (r : Option Row)
      → get identity index ≡ r
      → IsFree pin identity (unpin_row pin identity r index)
  unpin_row-IsFree identity index none found = record { free = λ row e. absurd (cc) }
  unpin_row-IsFree identity index (some row) found = record {
    free = λ other e.
        let cleared : Row = record row { pins = without_pin pin row.pins } in
        let there = get-put identity cleared index in
        let same : cleared ≡ other = cc in
        ap (λ r. has_name pin r.pins) (sym same) ∙ without_pin-free pin row.pins;
  }

  unpin_row-kept :
      (identity other : Text) (index : Index) (r : Option Row)
      → get other index ≡ r
      → IsFree pin identity index
      → IsFree pin identity (unpin_row pin other r index)
  unpin_row-kept identity other index none found h = h
  unpin_row-kept identity other index (some row) found h =
      elim (Bool-cases (text_eq other identity)) [
        | inl here ↦
            subst (λ i. IsFree pin i (unpin_row pin other (some row) index))
              (text_eq_sound other identity here) (unpin_row-IsFree other index (some row) found)
        | inr there ↦ record {
          free = λ given e. h.free given (sym (get-put_other identity other _ index there) ∙ e);
        }
      ]

  unpin_all-kept :
      (identity : Text) (stems : List Stem) (index : Index)
      → IsFree pin identity index
      → IsFree pin identity (unpin_all pin stems index)
  unfolding unpin_all
  unpin_all-kept identity [] index h = h
  unpin_all-kept identity (stem ∷ stems) index h =
      unpin_all-kept identity stems _
        (unpin_row-kept identity stem.identity index (get stem.identity index) refl h)

  unpin_all-IsFree :
      (stems : List Stem) (index : Index)
      → Every (λ identity _. IsFree pin identity (unpin_all pin stems index)) stems
  unfolding unpin_all
  unpin_all-IsFree [] index = every_nil
  unpin_all-IsFree (stem ∷ stems) index =
      let next = unpin_row pin stem.identity (get stem.identity index) index in
      every_cons
        (unpin_all-kept stem.identity stems next
          (unpin_row-IsFree stem.identity index (get stem.identity index) refl))
        (unpin_all-IsFree stems next)

-- What the closing of an open lease leaves: where the index is written the lease is closed and no
-- row of its stems has its pin, and where the write fails the lease is open and the disk as before.
pub data Closing (lease : Lease) (d : Disk) : Option Failure → Type 0 where
  closes :
      (e : Disk)
      → close_lease none lease d ≡ (ok tt, (record lease { closed = true }, e))
      → e.files ≡ d.files
      → Every (λ identity _. IsFree lease.pin identity e.index) lease.stems
      → Closing lease d none
  stays_open :
      (thrown : Failure)
      → close_lease (some thrown) lease d ≡ (err thrown, (lease, d))
      → Closing lease d (some thrown)

-- A close of an open lease whose index is written closes it, leaves its pin in no row of its stems
-- and the files as they are; a close whose write fails leaves the lease open and the disk unchanged.
pub close_lease-Closing :
    (fault : Option Failure) (lease : Lease) (d : Disk)
    → lease.closed ≡ false
    → Closing lease d fault
unfolding close_lease release_pin mutate_index
close_lease-Closing none lease d open_ =
    closes (record d { index = unpin_all lease.pin lease.stems d.index }) (rw open_ refl) refl
      (unpin_all-IsFree lease.pin lease.stems d.index)
close_lease-Closing (some thrown) lease d open_ = stays_open thrown (rw open_ refl)
