-- ===== src/Store/Held.antt =====
-- src/stems/store.ts: a stem that a pin holds, with its verified file, and what leaves it held.
use engine_web_adapter.Prelude.{
  ℕ, ◌≡◌, refl, sym, ap, subst, ◌∙◌, inl, inr, true, false, Bool-cases, Option, none, some, List,
  ◌++◌, arith, length, take, drop, take-append-drop, Text, text_eq, text_eq_sound, codes,
}
use engine_web_adapter.Errors.{Result, ok, err, Failure, Ran, and_next}
use engine_web_adapter.Identity.{is_stem_identity}
use engine_web_adapter.MemoryStorage.{get, put, discard, Files, has_name}
use engine_web_adapter.MemoryStorage.Files.{text_eq_same, get-put, get-put_other, get-discard_other}
use engine_web_adapter.Store.{
  Row, Index, Disk, digest_of, final_name, staging_name, unless_failed, settle_change, mutate_index,
}

-- The row of an identity has the byte count, and the pin is among its pins.
pub record Pinned (pin identity : Text) (bytes : ℕ) (index : Index) : Type 0 where
  pub row : Row
  pub found : get identity index ≡ some row
  pub size : row.bytes ≡ bytes
  pub pinned : has_name pin row.pins ≡ true

-- The final file has the byte count and the digest.
pub record Filed (blake3 : List ℕ → Text) (identity : Text) (bytes : ℕ) (files : Files)
    : Type 0 where
  pub content : List ℕ
  pub stored : get (final_name identity) files ≡ some content
  pub whole : length content ≡ bytes
  pub verified : blake3 content ≡ digest_of identity

pub record Held (blake3 : List ℕ → Text) (pin identity : Text) (bytes : ℕ) (d : Disk) : Type 0 where
  pub row : Pinned pin identity bytes d.index
  pub file : Filed blake3 identity bytes d.files

-- Identities that differ have final files that differ.
pub apart_files :
    (other identity : Text)
    → is_stem_identity other ≡ true
    → is_stem_identity identity ≡ true
    → text_eq other identity ≡ false
    → text_eq (final_name other) (final_name identity) ≡ false
unfolding is_stem_identity
apart_files other identity valid valid2 apart =
    elim (Bool-cases (text_eq (final_name other) (final_name identity))) [
      | inl e ↦
          let tails : drop 7 other ≡ drop 7 identity =
            ap (drop 7) (text_eq_sound (final_name other) (final_name identity) e) in
          let front : text_eq (take 7 other) (codes "blake3:") ≡ true = ground arith in
          let front2 : text_eq (take 7 identity) (codes "blake3:") ≡ true = ground arith in
          let heads : take 7 other ≡ take 7 identity =
            text_eq_sound (take 7 other) (codes "blake3:") front
            ∙ sym (text_eq_sound (take 7 identity) (codes "blake3:") front2) in
          let same : other ≡ identity =
            sym (take-append-drop 7 other)
            ∙ ap (λ t. t ++ drop 7 other) heads
            ∙ ap (λ t. take 7 identity ++ t) tails
            ∙ take-append-drop 7 identity in
          let equal : text_eq other identity ≡ true =
            subst (λ t. text_eq t identity ≡ true) (sym same) (text_eq_same identity) in
          absurd (cc)
      | inr e ↦ e
    ]

pub staging_apart :
    (instance_id other identity : Text)
    → text_eq (staging_name instance_id other) (final_name identity) ≡ false
staging_apart instance_id other identity = refl

module _ (pin identity : Text) (bytes : ℕ) where
  pub put-Pinned :
      (other : Text) (row : Row) (index : Index)
      → (other ≡ identity → (row.bytes ≡ bytes) × (has_name pin row.pins ≡ true))
      → Pinned pin identity bytes index
      → Pinned pin identity bytes (put other row index)
  put-Pinned other row index good h = elim (Bool-cases (text_eq other identity)) [
    | inl e ↦
        let same = text_eq_sound other identity e in
        record {
          row = row;
          found =
              subst (λ t. get t (put other row index) ≡ some row) same (get-put other row index);
          size = (good same).0;
          pinned = (good same).1;
        }
    | inr e ↦ record {
      row = h.row;
      found = get-put_other identity other row index e ∙ h.found;
      size = h.size;
      pinned = h.pinned;
    }
  ]

  pub discard-Pinned :
      (other : Text) (index : Index)
      → text_eq other identity ≡ false
      → Pinned pin identity bytes index
      → Pinned pin identity bytes (discard other index)
  discard-Pinned other index apart h = record {
    row = h.row;
    found = get-discard_other identity other index apart ∙ h.found;
    size = h.size;
    pinned = h.pinned;
  }

-- The row that a mutation finds is the held one.
pub found_row :
    (pin identity : Text) (bytes : ℕ) (other : Text) (row : Row) (index : Index)
    → get other index ≡ some row
    → Pinned pin identity bytes index
    → other ≡ identity
    → (row.bytes ≡ bytes) × (has_name pin row.pins ≡ true)
found_row pin identity bytes other row index found h same =
    let there : get identity index ≡ some row = subst (λ t. get t index ≡ some row) same found in
    let h1 = h.found in
    let equal : h.row ≡ row = cc in
    (ap (λ r. r.bytes) (sym equal) ∙ h.size, ap (λ r. has_name pin r.pins) (sym equal) ∙ h.pinned)

module _ (blake3 : List ℕ → Text) (identity : Text) (bytes : ℕ) where
  pub put-Filed :
      (name : Text) (content : List ℕ) (files : Files)
      → text_eq name (final_name identity) ≡ false
      → Filed blake3 identity bytes files
      → Filed blake3 identity bytes (put name content files)
  put-Filed name content files apart h = record {
    content = h.content;
    stored = get-put_other (final_name identity) name content files apart ∙ h.stored;
    whole = h.whole;
    verified = h.verified;
  }

  pub discard-Filed :
      (name : Text) (files : Files)
      → text_eq name (final_name identity) ≡ false
      → Filed blake3 identity bytes files
      → Filed blake3 identity bytes (discard name files)
  discard-Filed name files apart h = record {
    content = h.content;
    stored = get-discard_other (final_name identity) name files apart ∙ h.stored;
    whole = h.whole;
    verified = h.verified;
  }

-- What statements keep that run one after the other.
pub and_next_keeps :
    {S A B : Type 0} (P : S → Type 0) (m : Ran S A) (rest : A → S → Ran S B)
    → P m.1
    → ((a : A) (s : S) → P s → P (rest a s).1)
    → P (and_next m rest).1
and_next_keeps P (err thrown, s) rest h next = h
and_next_keeps P (ok a, s) rest h next = next a s h

pub unless_failed_keeps :
    {S A : Type 0} (P : S → Type 0) (fault : Option Failure) (s : S) (rest : Ran S A)
    → P s
    → P rest.1
    → P (unless_failed fault s rest).1
unless_failed_keeps P none s rest h next = next
unless_failed_keeps P (some thrown) s rest h next = h

-- What an index becomes by a mutation.
abbrev pub outcome_of : Result (Option Index) → Index → Index
outcome_of (err thrown) index = index
outcome_of (ok none) index = index
outcome_of (ok (some changed)) index = changed

settle_change-Held :
    (blake3 : List ℕ → Text) (pin identity : Text) (bytes : ℕ) (fault : Option Failure) (d : Disk)
    (r : Result (Option Index))
    → Pinned pin identity bytes (outcome_of r d.index)
    → Held blake3 pin identity bytes d
    → Held blake3 pin identity bytes (settle_change fault d r).1
settle_change-Held blake3 pin identity bytes fault d (err thrown) after h = h
settle_change-Held blake3 pin identity bytes fault d (ok none) after h = h
settle_change-Held blake3 pin identity bytes fault d (ok (some index)) after h =
    unless_failed_keeps (Held blake3 pin identity bytes) fault d (ok tt, record d { index = index })
      h
      (record {
        row = after;
        file = record {
          content = h.file.content;
          stored = h.file.stored;
          whole = h.file.whole;
          verified = h.file.verified;
        };
      })

pub mutate_index-Held :
    (blake3 : List ℕ → Text) (pin identity : Text) (bytes : ℕ) (fault : Option Failure)
    (change : Index → Result (Option Index)) (d : Disk)
    → Pinned pin identity bytes (outcome_of (change d.index) d.index)
    → Held blake3 pin identity bytes d
    → Held blake3 pin identity bytes (mutate_index fault change d).1
unfolding mutate_index
mutate_index-Held blake3 pin identity bytes fault change d after h =
    settle_change-Held blake3 pin identity bytes fault d (change d.index) after h
