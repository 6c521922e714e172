-- ===== src/SparseResponse/Offers.antt =====
-- src/stems/sparse-response.ts: what the next view of a body that arrives whole is.
use engine_web_adapter.Prelude.{
  ℕ, ◌<◌, ◌≡◌, refl, sym, ap, subst, ◌∙◌, Bool, true, false, ◌&&◌, ◌||◌, leb, ltb, ◌==◌, if_elim,
  Option, none, some, List, [], ◌∷◌, ◌++◌, append-nil, arith, length, drop, drop_past,
}
use engine_web_adapter.Errors.{ok, Ran}
use engine_web_adapter.SparseResponse.Stream.{Stream, Delivers, ends, ends_empty, ends_with, gives}
use engine_web_adapter.SparseResponse.{
  Reply, Response, Cursor, State, max_input_bytes, admit_view, take_reply, read_reply, has_carry,
  next_body,
}

abbrev pub carried : Option (List ℕ) → ℕ → List ℕ
carried none offset = []
carried (some value) offset = drop offset value

-- What is to come from the reader.
pub data Awaits (byob : Bool) : Bool → List Reply → List ℕ → Type 0 where
  waiting :
      {replies : List Reply} {body : List ℕ}
      → Delivers byob replies body
      → Awaits byob false replies body
  over : (replies : List Reply) → Awaits byob true replies []

pub record Agrees (byob : Bool) (st : State) (a : Stream) : Type 0 where
  pub tail : List ℕ
  pub awaits : Awaits byob (st.1).eof st.0 tail
  pub bytes : a.left ≡ carried (st.1).carry (st.1).carry_offset ++ tail
  pub place : (st.1).position ≡ a.position
  pub borrow : (st.1).scratch ≡ a.scratch

pub data Offered (byob : Bool) (a : Stream) : Ran State (Option (List ℕ)) → Type 0 where
  dry : (st : State) → Agrees byob st a → a.left ≡ [] → Offered byob a (ok none, st)
  offers :
      (st : State) (value : List ℕ)
      → (st.1).carry ≡ some value
      → (st.1).carry_offset < length value
      → Agrees byob st a
      → Offered byob a (ok (some value), st)

within :
    (byob : Bool) (size buffer : ℕ)
    → leb size max_input_bytes ≡ true
    → leb buffer max_input_bytes ≡ true
    → (byob && (ltb max_input_bytes size || ltb max_input_bytes buffer)) ≡ false
within byob size buffer p q = ground arith

not_empty : (b : ℕ) (bytes : List ℕ) → (length (b ∷ bytes) == 0) ≡ false
not_empty b bytes = ground arith

not_short : (b : ℕ) (bytes : List ℕ) → ltb (length (b ∷ bytes)) 1 ≡ false
not_short b bytes = ground arith

has_bytes : (b : ℕ) (bytes : List ℕ) → 0 < length (b ∷ bytes)
has_bytes b bytes = omega arith

pub carry_value :
    (c : Option (List ℕ)) (offset : ℕ)
    → has_carry c offset ≡ true
    → (value : List ℕ) × (c ≡ some value) × (offset < length value)
carry_value none offset e = absurd (cc)
carry_value (some value) offset e = (value, refl, ground arith)

pub carried_none :
    (c : Option (List ℕ)) (offset : ℕ) → has_carry c offset ≡ false → carried c offset ≡ []
carried_none none offset e = refl
carried_none (some value) offset e = drop_past value offset (ground arith)

Awaits-over :
    {byob eof : Bool} {replies : List Reply} {tail : List ℕ}
    → Awaits byob eof replies tail
    → eof ≡ true
    → tail ≡ []
Awaits-over (waiting d) e = absurd (cc)
Awaits-over (over replies) e = refl

Awaits-waiting :
    {byob eof : Bool} {replies : List Reply} {tail : List ℕ}
    → Awaits byob eof replies tail
    → eof ≡ false
    → Delivers byob replies tail
Awaits-waiting (waiting d) e = d
Awaits-waiting (over replies) e = absurd (cc)

module _ (r : Response) where
  read_reply-Offered :
      (replies : List Reply) (body : List ℕ) (s : Cursor) (a : Stream)
      → s.eof ≡ false
      → Delivers r.byob replies body
      → a.left ≡ body
      → s.position ≡ a.position
      → s.scratch ≡ a.scratch
      → Offered r.byob a (read_reply r (replies, record s { carry = none; carry_offset = 0 }))
  unfolding read_reply take_reply admit_view
  read_reply-Offered _ _ s a open_ (ends replies plain) e place borrow = rw plain (
      dry (replies, record s { eof = true; carry = none; carry_offset = 0 })
        (record { tail = []; awaits = over replies; bytes = e; place = place; borrow = borrow }) e)
  read_reply-Offered _ _ s a open_ (ends_empty buffer_bytes replies p) e place borrow =
      rw (within r.byob 0 buffer_bytes refl p) (
        dry (replies, record s { eof = true; carry = none; carry_offset = 0 })
          (record { tail = []; awaits = over replies; bytes = e; place = place; borrow = borrow })
          e)
  read_reply-Offered _ _ s a open_ (ends_with b bytes buffer_bytes replies q p) e place borrow =
      rw (within r.byob (length (b ∷ bytes)) buffer_bytes q p, not_empty b bytes)
        (offers (replies, record s { eof = true; carry = some (b ∷ bytes); carry_offset = 0 })
          (b ∷ bytes) refl (has_bytes b bytes)
          (record {
            tail = [];
            awaits = over replies;
            bytes = e ∙ sym (append-nil (b ∷ bytes));
            place = place;
            borrow = borrow;
          }))
  read_reply-Offered _ _ s a open_
        (gives b bytes buffer_bytes {replies = more} {body = body} aborted q p d) e place borrow =
      rw (within r.byob (length (b ∷ bytes)) buffer_bytes q p, not_short b bytes)
        (offers (more, record s { carry = some (b ∷ bytes); carry_offset = 0 }) (b ∷ bytes) refl
          (has_bytes b bytes)
          (record {
            tail = body;
            awaits = subst (λ eof. Awaits r.byob eof more body) (sym open_) (waiting d);
            bytes = e;
            place = place;
            borrow = borrow;
          }))

  pub next_body-Offered :
      (st : State) (a : Stream) → Agrees r.byob st a → Offered r.byob a (next_body r st)
  unfolding next_body
  next_body-Offered (replies, s) a h =
      if_elim (Offered r.byob a) (has_carry s.carry s.carry_offset)
        (λ e.
          let (value, same, inside) = carry_value s.carry s.carry_offset e in
          subst (λ c. Offered r.byob a (ok c, (replies, s))) (sym same)
            (offers (replies, s) value same inside h))
        (λ e.
          let bytes : a.left ≡ h.tail =
            h.bytes ∙ ap (λ c. c ++ h.tail) (carried_none s.carry s.carry_offset e) in
          if_elim (Offered r.byob a) s.eof
            (λ e2.
              let nothing = bytes ∙ Awaits-over h.awaits e2 in
              dry (replies, record s { carry = none; carry_offset = 0 })
                (record {
                  tail = h.tail;
                  awaits = h.awaits;
                  bytes = bytes;
                  place = h.place;
                  borrow = h.borrow;
                })
                nothing)
            (λ e2.
              read_reply-Offered replies h.tail s a e2 (Awaits-waiting h.awaits e2) bytes h.place
                h.borrow))
