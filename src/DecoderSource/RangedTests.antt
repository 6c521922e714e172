-- ===== src/DecoderSource/RangedTests.antt =====
-- src/stems/decoder-byte-source.ts: a source over ranges of a STREAMINFO, a padding block and two
-- more bytes.
use engine_web_adapter.Prelude.{
  ℕ, ◌+◌, ◌≡◌, refl, sym, ap, true, Option, none, some, List, [], ◌∷◌, ◌++◌, replicate, codes,
  subarray,
}
use engine_web_adapter.DecoderSource.{reading, done, failed}
use engine_web_adapter.DecoderSource.Ranged.{Delivery, Ranged, ranged, prepare_ranged, read_ranged}
use engine_web_adapter.DecoderSource.Served.{
  IsHonest, begins, prepares, reads, IsServed, Reads-IsServed,
}

abbrev object : List ℕ
object =
    codes "fLaC"
    ++ (0 ∷ 0 ∷ 0 ∷ 34 ∷ 16 ∷ 0 ∷ 16 ∷ 0 ∷ [])
    ++ replicate 6 0
    ++ (10 ∷ 196 ∷ 64 ∷ 240 ∷ 0 ∷ 0 ∷ 16 ∷ 0 ∷ [])
    ++ replicate 16 0
    ++ (129 ∷ 0 ∷ 0 ∷ 2 ∷ 0 ∷ 0 ∷ 255 ∷ 248 ∷ [])

abbrev stored : Delivery
stored n phase start end = some (subarray object start (end + 1), 50)

abbrev content : Option (List ℕ × ℕ) → List ℕ
content none = []
content (some r) = r.0

stored-IsHonest : IsHonest stored object
stored-IsHonest = λ n phase start end bytes total e size. sym (ap content e)

abbrev readied : Ranged
readied = (prepare_ranged stored none ranged).1

starts_at_audio : readied.offset ≡ 48
unfolding prepare_ranged
starts_at_audio = refl

reads_to_the_end :
    (read_ranged stored none 100 readied).0 ≡ done (record { bytes = 255 ∷ 248 ∷ []; last = true })
unfolding prepare_ranged read_ranged
reads_to_the_end = refl

unready_refused : (read_ranged stored none 100 ranged).0 ≡ failed reading
unfolding read_ranged
unready_refused = refl

Reads-IsServed_example : IsServed object (read_ranged stored none 1 readied).1 (255 ∷ [])
unfolding prepare_ranged read_ranged
Reads-IsServed_example =
    Reads-IsServed stored none object stored-IsHonest (reads 1 (prepares begins))
