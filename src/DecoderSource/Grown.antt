-- ===== src/DecoderSource/Grown.antt =====
-- src/stems/decoder-byte-source.ts: what one read of the finite source leaves.
use engine_web_adapter.Prelude.{
  ℕ, ◌+◌, ◌-◌, ◌≤◌, ◌<◌, ◌≡◌, refl, sym, ap, subst, ◌⊎◌, inl, inr, Bool, true, false, ◌||◌, ◌&&◌,
  not, ltb, ◌==◌, if_elim, List, [], ◌∷◌, ◌++◌, append-nil, arith, length, length-append,
}
use engine_web_adapter.Errors.{ok}
use engine_web_adapter.Sha256.Hasher.{Hasher}
use engine_web_adapter.Sha256.Runs.{IsSha256}
use engine_web_adapter.Sha256.Update.{IsAbsorbed, update-IsAbsorbed}
use engine_web_adapter.DecoderSource.{Operation, reading, Outcome, done, failed}
use engine_web_adapter.DecoderSource.Finite.{
  Reply, bytes_reply, broken, Chunk, Cursor, Extent, After, count_bytes, take_reply, is_refused,
  pull,
}

-- An unfinished source that has hashed the bytes `taken`.
pub record IsCursor (x : Extent) (s : Cursor) (taken : List ℕ) : Type 0 where
  pub counted : s.offset ≡ length taken
  pub seen : s.seen_bytes ≡ s.offset
  pub absorbed : IsAbsorbed s.hash taken
  pub inside : s.source_done ≡ false → s.offset < x.total_bytes
  pub unfinished : s.finished ≡ false

-- The cursor `t` behind one read at the cursor `s`: the bytes it hashed are those it returns, or the
-- read failed and it hashed none or ended the source.
pub record Took (x : Extent) (s t : Cursor) (taken : List ℕ) (outcome : Outcome Chunk)
    : Type 0 where
  pub more : List ℕ
  pub cursor : IsCursor x t (taken ++ more)
  pub kept : t.prepared ≡ s.prepared
  pub given : (c : Chunk) → outcome ≡ done c → more ≡ c.bytes
  pub lost :
      (operation : Operation) → outcome ≡ failed operation → (more ≡ []) ⊎ (t.source_done ≡ true)

failed_injective : (a : Operation) (c : Chunk) → (P : Type 0) → failed a ≡ done c → P
failed_injective a c P e = absurd (cc)

-- The size of a reply that the tests let pass.
fits_room :
    (size maximum offset total : ℕ)
    → (ltb size 1 || (ltb maximum size || ltb (total - offset) size)) ≡ false
    → offset + size ≤ total
fits_room size maximum offset total e = ground arith

done_injective : {A : Type 0} {a b : A} → done a ≡ done b → a ≡ b
done_injective e = cc

module _ (x : Extent) (same : IsSha256 x.backend) where
  -- A read that changes nothing.
  pub Took-none :
      (s : Cursor) (taken : List ℕ) (operation : Operation)
      → IsCursor x s taken
      → Took x s s taken (failed operation)
  Took-none s taken operation v = record {
    more = [];
    cursor = subst (IsCursor x s) (sym (append-nil taken)) v;
    kept = refl;
    given = λ c e. failed_injective operation c ([] ≡ c.bytes) e;
    lost = λ _ _. inl refl;
  }

  module _ (s : Cursor) (taken bytes : List ℕ) (last : Bool) (v : IsCursor x s taken)
      (room : s.offset + length bytes ≤ x.total_bytes) where
    abbrev counted_cursor : Bool → Hasher → Cursor
    counted_cursor is_last hash = record s {
      offset = s.offset + length bytes;
      seen_bytes = s.seen_bytes + length bytes;
      source_done = is_last;
      hash = hash;
    }

    counted-IsCursor :
        (is_last : Bool) (hash : Hasher)
        → IsAbsorbed hash (taken ++ bytes)
        → (is_last ≡ false → s.offset + length bytes < x.total_bytes)
        → IsCursor x (counted_cursor is_last hash) (taken ++ bytes)
    counted-IsCursor is_last hash a inside = record {
      counted = omega (arith, length-append taken bytes, v.counted);
      seen = ap (λ n. n + length bytes) v.seen;
      absorbed = a;
      inside = inside;
      unfinished = v.unfinished;
    }

    abbrev is_end : Bool
    is_end = last || (s.offset + length bytes == x.total_bytes)

    counted-Took :
        (hash : Hasher)
        → IsAbsorbed hash (taken ++ bytes)
        → Took x s
            (count_bytes x bytes last s (ok hash)).1
            taken
            (count_bytes x bytes last s (ok hash)).0
    unfolding count_bytes
    counted-Took hash a =
        let next = counted-IsCursor is_end hash a (λ e. ground arith) in
        if_elim (λ (o : Outcome Chunk × Cursor). Took x s o.1 taken o.0)
          (is_end && not (s.offset + length bytes == x.total_bytes))
          (λ early. record {
            more = bytes;
            cursor = next;
            kept = refl;
            given = λ c e. failed_injective reading c (bytes ≡ c.bytes) e;
            lost = λ _ _. inr (ground arith);
          })
          (λ fits. record {
            more = bytes;
            cursor = next;
            kept = refl;
            given = λ c e. ap (λ (k : Chunk). k.bytes) (done_injective e);
            lost = λ operation e.
                failed_injective operation (record { bytes = bytes; last = is_end }) _ (sym e);
          })

  take_reply-Took :
      (maximum : ℕ) (reply : Reply) (s : Cursor) (taken : List ℕ)
      → IsCursor x s taken
      → is_refused x maximum s ≡ false
      → Took x s (take_reply x maximum reply s).1 taken (take_reply x maximum reply s).0
  unfolding take_reply
  take_reply-Took maximum (broken operation) s taken v open_ = Took-none s taken operation v
  take_reply-Took maximum (bytes_reply bytes last) s taken v open_ =
      if_elim (λ (o : Outcome Chunk × Cursor). Took x s o.1 taken o.0)
        (ltb (length bytes) 1
          || (ltb maximum (length bytes) || ltb (x.total_bytes - s.offset) (length bytes)))
        (λ outside. Took-none s taken reading v)
        (λ fits.
          let (next, step, a) = update-IsAbsorbed x.backend same taken bytes s.hash v.absorbed in
          subst
            (λ r. Took x s (count_bytes x bytes last s r).1 taken (count_bytes x bytes last s r).0)
            (sym step)
            (counted-Took s taken bytes last v
              (fits_room (length bytes) maximum s.offset x.total_bytes fits) next a))

  pub pull-Took :
      (maximum : ℕ) (replies : List Reply) (s : Cursor) (taken : List ℕ)
      → IsCursor x s taken
      → Took x s (pull x maximum replies s).2 taken (pull x maximum replies s).0
  unfolding pull
  pull-Took maximum [] s taken v = Took-none s taken reading v
  pull-Took maximum (reply ∷ replies) s taken v =
      if_elim (λ (o : After Chunk). Took x s o.2 taken o.0) (is_refused x maximum s)
        (λ refused. Took-none s taken reading v)
        (λ open_. take_reply-Took maximum reply s taken v open_)
