-- ===== src/Store/Tests.antt =====
-- A store in which one session opens a stem, and another then fills the rest, evicts and fails. The
-- digest of these tests is a made-up one that tells two contents apart.
use engine_web_adapter.Prelude.{
  ℕ, zero, suc, ◌≡◌, refl, true, false, ◌==◌, if◌then◌else◌, Option, none, some, List, [], ◌∷◌,
  ◌++◌, length, replicate, Text, codes,
}
use engine_web_adapter.Errors.{ok, err, failure, stem_corrupt, stem_quota, plain_error}
use engine_web_adapter.Identity.{is_stem_identity, assert_stem_identity}
use engine_web_adapter.Store.{Disk, Stem, Check, readable, final_name, release_pin}
use engine_web_adapter.Store.Ingest.{
  Pull, chunk, rejected, Intake, Eviction, Ensuring, ensure, reclaim, ingest,
}
use engine_web_adapter.Store.Session.{Opening, Lease, session_pin, open_session}
use engine_web_adapter.Store.Held.{Held}
use engine_web_adapter.Store.Ensured.{ensure-gives}
use engine_web_adapter.Store.Closed.{Closing, close_lease-Closing}
use engine_web_adapter.Store.Leased.{stays, ensures, Steps-Held}

abbrev hash : List ℕ → Text
hash content = replicate 64 (if length content == 3 then 97 else 98)

abbrev kick : Stem
kick = record { source_id = codes "kick"; identity = codes "blake3:" ++ replicate 64 97; bytes = 3 }

abbrev snare : Stem
snare = record {
  source_id = codes "snare";
  identity = codes "blake3:" ++ replicate 64 98;
  bytes = 4;
}

abbrev calm : Check
calm = record { reading = readable; removing = none; writing = none }

abbrev smooth_intake : List Pull → Intake
smooth_intake pulls = record {
  preparing = none;
  starting = none;
  pulls = pulls;
  package_digest = none;
  closing = none;
  moving = none;
  moved_late = false;
  indexing = none;
  cleans_staging = true;
  cleans_final = true;
}

abbrev no_failure : Eviction
no_failure = record { stopping = none; removing = none; writing = none }

abbrev plain_ensuring : (ℕ → Option ℕ) → List Pull → Ensuring
plain_ensuring available pulls = record {
  first = calm;
  available = available;
  evictions = λ _. no_failure;
  second = calm;
  intake = smooth_intake pulls;
  owning = none;
  now = 7;
}

abbrev kick_pulls : List Pull
kick_pulls = chunk (1 ∷ 2 ∷ []) none ∷ chunk (3 ∷ []) none ∷ []

abbrev kick_ensuring : Ensuring
kick_ensuring = plain_ensuring (λ _. none) kick_pulls

abbrev opening : Opening
opening = record {
  lease_id = codes "lease";
  instance_id = codes "one";
  unique_id = codes "id";
  aborted_first = false;
  locking = none;
  ensuring = λ _. kick_ensuring;
  stopping = λ _. none;
  finishing = none;
  releasing = none;
  aborted = false;
}

abbrev nothing_stored : Disk
nothing_stored = record { files = []; index = [] }

abbrev kick_lease : Lease
kick_lease = record { pin = session_pin opening; stems = kick ∷ kick ∷ []; closed = false }

-- Another session runs out of room, evicts what it can, and fails.
abbrev full_ensuring : Ensuring
full_ensuring = plain_ensuring (λ _. some 2) (chunk (1 ∷ []) none ∷ rejected plain_error ∷ [])

abbrev opened_disk : Disk
opened_disk = (open_session hash opening (kick ∷ kick ∷ []) nothing_stored).1

valid_snare : is_stem_identity snare.identity ≡ true
unfolding is_stem_identity
valid_snare = refl

abbrev later : Disk
later =
    (ensure hash (codes "two") (codes "session:two") snare full_ensuring
      (release_pin none (codes "session:two") (kick ∷ []) opened_disk).1).1

snare_failed :
    (ensure hash (codes "two") (codes "session:two") snare full_ensuring opened_disk).0
    ≡ err (failure stem_quota)
unfolding ensure open_session assert_stem_identity
snare_failed = refl

ensure-gives_example :
    Held hash
      (codes "p")
      kick.identity
      3
      (ensure hash (codes "i") (codes "p") kick kick_ensuring nothing_stored).1
unfolding ensure
ensure-gives_example =
    ensure-gives hash (codes "i") (codes "p") kick kick_ensuring nothing_stored
      (record { honest = λ declared content digest copied given. absurd (cc) }) refl

abbrev owned_disk : Disk
owned_disk = (ensure hash (codes "i") (codes "p") kick kick_ensuring nothing_stored).1

owned_kick : Held hash (codes "p") kick.identity 3 owned_disk
unfolding ensure
owned_kick = record {
  row = record { row = _; found = refl; size = refl; pinned = refl };
  file = record { content = _; stored = refl; whole = refl; verified = refl };
}

valid_kick : is_stem_identity kick.identity ≡ true
unfolding is_stem_identity
valid_kick = refl

Steps-Held_example :
    Held hash
      (codes "p")
      kick.identity
      3
      (ensure hash (codes "two") (codes "session:two") snare full_ensuring owned_disk).1
Steps-Held_example = Steps-Held hash (codes "p") kick.identity 3 valid_kick owned_kick (
    ensures (codes "two") (codes "session:two") snare full_ensuring valid_snare
      (record { first = refl; second = refl }) (stays owned_disk))

-- Room that comes with the eviction of an unpinned stem.
abbrev old_disk : Disk
old_disk = record {
  files = (final_name kick.identity, 1 ∷ 2 ∷ 3 ∷ []) ∷ [];
  index = (kick.identity, record { bytes = 3; pins = []; last_used_at = 1 }) ∷ [];
}

abbrev growing : ℕ → Option ℕ
growing zero = some 1
growing (suc zero) = some 1
growing (suc (suc n)) = some 9

evicted : reclaim growing 4 (λ _. no_failure) old_disk ≡ (ok tt, nothing_stored)
unfolding reclaim assert_stem_identity
evicted = refl

-- A stream with a wrong byte leaves nothing.
corrupt_left :
    ingest hash (codes "i") 7 snare (smooth_intake kick_pulls) nothing_stored
    ≡ (err (failure stem_corrupt), nothing_stored)
unfolding ingest
corrupt_left = refl

close_lease-Closing_example : Closing kick_lease opened_disk none
close_lease-Closing_example = close_lease-Closing none kick_lease opened_disk refl
