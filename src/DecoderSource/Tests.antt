-- ===== src/DecoderSource/Tests.antt =====
-- src/stems/decoder-byte-source.ts: a finite source of a STREAMINFO and two more bytes.
use engine_web_adapter.Prelude.{
  ℕ, ◌+◌, ◌≡◌, refl, true, false, none, List, [], ◌∷◌, ◌++◌, replicate, codes,
}
use engine_web_adapter.Errors.{ok}
use engine_web_adapter.FlacMetadata.{max_blocks, scanner}
use engine_web_adapter.Sha256.{compress_block}
use engine_web_adapter.Sha256.Hasher.{js, fresh}
use engine_web_adapter.Sha256.Padding.{sha256}
use engine_web_adapter.DecoderSource.{finishing, reading, done, failed, hex_text}
use engine_web_adapter.DecoderSource.Finite.{
  Reply, bytes_reply, Cursor, Extent, open_source, read, finish,
}
use engine_web_adapter.DecoderSource.Prepare.{prepare, scan_blocks}
use engine_web_adapter.DecoderSource.Fuel.{scan_blocks_ends}
use engine_web_adapter.DecoderSource.Verified.{
  opens, prepares, reads, IsVerified, finish-IsVerified,
}

-- A mono stream of 44100 Hz, 16 bits and 4096 samples, whose STREAMINFO is its last metadata block.
abbrev probe : List ℕ
probe =
    codes "fLaC"
    ++ (128 ∷ 0 ∷ 0 ∷ 34 ∷ 16 ∷ 0 ∷ 16 ∷ 0 ∷ [])
    ++ replicate 6 0
    ++ (10 ∷ 196 ∷ 64 ∷ 240 ∷ 0 ∷ 0 ∷ 16 ∷ 0 ∷ [])
    ++ replicate 16 0

abbrev audio : List ℕ
audio = 255 ∷ 248 ∷ []

abbrev extent : Extent
extent = record {
  expected = none;
  total_bytes = 44;
  flac_sha256 = hex_text (sha256 (probe ++ audio));
  backend = js;
}

abbrev replies : List Reply
replies = bytes_reply probe false ∷ bytes_reply (255 ∷ []) false ∷ bytes_reply (248 ∷ []) true ∷ []

abbrev opened : Cursor
opened = record {
  offset = 0;
  prepared = false;
  finished = false;
  source_done = false;
  seen_bytes = 0;
  hash = fresh;
}

opens_source : open_source extent ≡ ok opened
unfolding open_source sha256 compress_block hex_text fresh
opens_source = refl

-- The replies and the cursor behind the preparation, and behind one read of one byte.
abbrev readied : List Reply × Cursor
readied = ((prepare extent replies opened).1, (prepare extent replies opened).2)

abbrev advanced : List Reply × Cursor
advanced = ((read extent 1 readied.0 readied.1).1, (read extent 1 readied.0 readied.1).2)

one_read : (read extent 1 readied.0 readied.1).0 ≡ done (record { bytes = 255 ∷ []; last = false })
unfolding prepare read sha256 compress_block hex_text fresh
one_read = refl

finishes : (finish extent advanced.0 advanced.1).0 ≡ done tt
unfolding prepare read finish sha256 compress_block hex_text fresh
finishes = refl

unread_refused : (read extent 1 replies opened).0 ≡ failed reading
unfolding read
unread_refused = refl

finish-IsVerified_example : IsVerified extent (255 ∷ [])
unfolding prepare read sha256 compress_block hex_text fresh
finish-IsVerified_example =
    finish-IsVerified extent tt (reads 1 (prepares (opens replies opened opens_source))) finishes

scan_blocks_ends_example :
    scan_blocks (7 + max_blocks) extent (scanner false) replies opened
    ≡ scan_blocks max_blocks extent (scanner false) replies opened
scan_blocks_ends_example = scan_blocks_ends extent 7 false replies opened

-- With a digest that differs, `finish` fails and a second `finish` returns.
abbrev wrong : Extent
wrong = record extent { flac_sha256 = hex_text (sha256 []) }

wrong_digest_fails : (finish wrong advanced.0 advanced.1).0 ≡ failed finishing
unfolding prepare read finish sha256 compress_block hex_text fresh
wrong_digest_fails = refl

second_finish_returns :
    (finish wrong (finish wrong advanced.0 advanced.1).1 (finish wrong advanced.0 advanced.1).2).0
    ≡ done tt
unfolding prepare read finish sha256 compress_block hex_text fresh
second_finish_returns = refl
