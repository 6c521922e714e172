-- ===== src/SparseFormat/Reread.antt =====
-- src/stems/sparse-format.ts: a package that is parsed is byte for byte the one that is serialized.
use engine_web_adapter.Prelude.{
  ℕ, zero, suc, ◌+◌, ◌-◌, ◌*◌, ◌/◌, ◌%◌, ◌<◌, ◌≡◌, refl, sym, ap, subst, ◌∙◌, ◌&&◌, leb, ◌==◌,
  Option, some, List, [], ◌∷◌, ◌++◌, Text, text_eq, text_eq_sound, arith, length, take, drop,
  subarray, drop-drop, take-append-drop, length-drop, add_sub_self, ==_iff,
}
use engine_web_adapter.Errors.{ok}
use engine_web_adapter.Json.{Value, is_safe}
use engine_web_adapter.SparseFormat.{
  Manifest, corrupt, header_bytes, max_index_bytes, max_object_bytes,
}
use engine_web_adapter.SparseFormat.Encode.{canonical_bytes}
use engine_web_adapter.SparseFormat.Validate.{validate_manifest}
use engine_web_adapter.SparseFormat.Sound.{bind_elim, ok_injective}
use engine_web_adapter.SparseFormat.Accept.{require_elim, Accepted, validate_manifest-IsWellFormed}
use engine_web_adapter.SparseFormat.Package.{
  magic, u32_at, u32_bytes, HeaderAdmission, admit_header, check_known, decoded_or, Parsed,
  admit_manifest, parse_package, header_of, package_bytes,
}

-- Every element is a byte, as in a Uint8Array.
abbrev pub AreBytes : List ℕ → Type 0
AreBytes [] = Unit {0}
AreBytes (b ∷ bs) = (b < 256) × AreBytes bs

AreBytes-take : (n : ℕ) (bs : List ℕ) → AreBytes bs → AreBytes (take n bs)
AreBytes-take zero bs v = tt
AreBytes-take (suc n) [] v = tt
AreBytes-take (suc n) (b ∷ bs) v = (v.0, AreBytes-take n bs v.1)

-- Four bytes are those of their number.
u32_exact :
    (a b c d n : ℕ)
    → a < 256
    → b < 256
    → c < 256
    → d < 256
    → a + b * 256 + c * 65536 + d * 16777216 ≡ n
    → a ∷ b ∷ c ∷ d ∷ [] ≡ u32_bytes n
u32_exact a b c d n ha hb hc hd e =
    let ea : a ≡ n % 256 = omega arith in
    let eb : b ≡ n / 256 % 256 = omega arith in
    let ec : c ≡ n / 65536 % 256 = omega arith in
    let ed : d ≡ n / 16777216 % 256 = omega arith in
    ap (λ x. x ∷ b ∷ c ∷ d ∷ []) ea
    ∙ ap (λ x. n % 256 ∷ x ∷ c ∷ d ∷ []) eb
    ∙ ap (λ x. n % 256 ∷ n / 256 % 256 ∷ x ∷ d ∷ []) ec
    ∙ ap (λ x. n % 256 ∷ n / 256 % 256 ∷ n / 65536 % 256 ∷ x ∷ []) ed

four_zeros :
    (e f g h : ℕ)
    → e + f * 256 + g * 65536 + h * 16777216 ≡ 0
    → e ∷ f ∷ g ∷ h ∷ [] ≡ 0 ∷ 0 ∷ 0 ∷ 0 ∷ []
four_zeros e f g h z =
    let ze : e ≡ 0 = omega arith in
    let zf : f ≡ 0 = omega arith in
    let zg : g ≡ 0 = omega arith in
    let zh : h ≡ 0 = omega arith in
    ap (λ x. x ∷ f ∷ g ∷ h ∷ []) ze
    ∙ ap (λ x. 0 ∷ x ∷ g ∷ h ∷ []) zf
    ∙ ap (λ x. 0 ∷ 0 ∷ x ∷ h ∷ []) zg
    ∙ ap (λ x. 0 ∷ 0 ∷ 0 ∷ x ∷ []) zh

-- Eight bytes that hold a number and four zeros.
tail_exact :
    (t : List ℕ) (n : ℕ)
    → length t ≡ 8
    → AreBytes t
    → u32_at t 0 ≡ n
    → u32_at t 4 ≡ 0
    → t ≡ u32_bytes n ++ (0 ∷ 0 ∷ 0 ∷ 0 ∷ [])
tail_exact (a ∷ b ∷ c ∷ d ∷ e ∷ f ∷ g ∷ h ∷ []) n size v count zeros =
    ap (λ r. r ++ (e ∷ f ∷ g ∷ h ∷ []))
      (u32_exact a b c d n v.0 (v.1).0 ((v.1).1).0 (((v.1).1).1).0 count)
    ∙ ap (λ r. u32_bytes n ++ r) (four_zeros e f g h zeros)
tail_exact [] n size v count zeros = absurd (omega arith)
tail_exact (a ∷ []) n size v count zeros = absurd (omega arith)
tail_exact (a ∷ b ∷ []) n size v count zeros = absurd (omega arith)
tail_exact (a ∷ b ∷ c ∷ []) n size v count zeros = absurd (omega arith)
tail_exact (a ∷ b ∷ c ∷ d ∷ []) n size v count zeros = absurd (omega arith)
tail_exact (a ∷ b ∷ c ∷ d ∷ e ∷ []) n size v count zeros = absurd (omega arith)
tail_exact (a ∷ b ∷ c ∷ d ∷ e ∷ f ∷ []) n size v count zeros = absurd (omega arith)
tail_exact (a ∷ b ∷ c ∷ d ∷ e ∷ f ∷ g ∷ []) n size v count zeros = absurd (omega arith)
tail_exact (a ∷ b ∷ c ∷ d ∷ e ∷ f ∷ g ∷ h ∷ i ∷ t) n size v count zeros = absurd (omega arith)

behind_magic :
    (t : List ℕ) (n : ℕ)
    → AreBytes (magic ++ t)
    → length (magic ++ t) ≡ 16
    → u32_at (magic ++ t) 8 ≡ n
    → u32_at (magic ++ t) 12 ≡ 0
    → magic ++ t ≡ header_of n
behind_magic t n v size count zeros =
    ap (λ r. magic ++ r) (tail_exact t n (omega arith) v.1.1.1.1.1.1.1.1 count zeros)

-- A header that is admitted is the one that is written for its count.
header_exact :
    (header : List ℕ) (a : HeaderAdmission)
    → AreBytes header
    → admit_header header ≡ ok a
    → (header ≡ header_of a.manifest_bytes) × (a.payload_start ≡ header_bytes + a.manifest_bytes)
unfolding admit_header
header_exact header a v e =
    let n = u32_at header 8 in
    require_elim (length header == header_bytes) corrupt _ e λ size e1.
      require_elim (text_eq (take 8 header) magic) corrupt _ e1 λ starts e2.
        require_elim (leb 1 n && leb n max_index_bytes) corrupt _ e2 λ _ e3.
          require_elim (u32_at header 12 == 0) corrupt _ e3 λ reserved e4.
            require_elim (is_safe (header_bytes + n)) corrupt _ e4 λ _ e5.
              let front = text_eq_sound (take 8 header) magic starts in
              let whole = sym (take-append-drop 8 header) ∙ ap (λ m. m ++ drop 8 header) front in
              let exact : header ≡ header_of n =
                subst
                  (λ h.
                    AreBytes h → length h ≡ 16 → u32_at h 8 ≡ n → u32_at h 12 ≡ 0 → h ≡ header_of n)
                  (sym whole) (behind_magic (drop 8 header) n) v (ground arith) refl
                  (ground arith) in
              subst
                (λ (a : HeaderAdmission).
                  (header ≡ header_of a.manifest_bytes)
                  × (a.payload_start ≡ header_bytes + a.manifest_bytes))
                (sym (ok_injective e5)) (exact, refl)

-- What is parsed, and the package that is serialized for it.
pub record IsReread (blob : List ℕ) (p : Parsed) : Type 0 where
  pub index : Text
  pub encoding : canonical_bytes p.manifest ≡ ok index
  pub same_bytes : package_bytes index (drop p.data_start blob) ≡ blob
  pub payload_size : p.payload_bytes ≡ length (drop p.data_start blob)
  pub accepted : Accepted (some p.payload_bytes) p.manifest

module _ (decode : List ℕ → Option Value) where
  admit_manifest_ok :
      (encoded : List ℕ) (payload_bytes : Option ℕ) (m : Manifest)
      → admit_manifest decode encoded payload_bytes ≡ ok m
      → (canonical_bytes m ≡ ok encoded) × Accepted payload_bytes m
  unfolding admit_manifest
  admit_manifest_ok encoded payload_bytes m e =
      require_elim (leb 1 (length encoded) && leb (length encoded) max_index_bytes) corrupt _ e
        λ _ e1. bind_elim (check_known (length encoded) payload_bytes) _ e1 λ _ _ e2.
          bind_elim (decoded_or (decode encoded)) _ e2 λ value _ e3.
            bind_elim (validate_manifest value payload_bytes) _ e3 λ n valid e4.
              bind_elim (canonical_bytes n) _ e4 λ canonical encodes e5.
                require_elim (text_eq canonical encoded) corrupt _ e5 λ same e6.
                  subst (λ m. (canonical_bytes m ≡ ok encoded) × Accepted payload_bytes m)
                    (sym (ok_injective e6))
                    (
                      encodes ∙ ap ok (text_eq_sound canonical encoded same),
                      validate_manifest-IsWellFormed value payload_bytes n valid,
                    )

  cut_three :
      (blob : List ℕ) (middle : ℕ)
      → subarray blob 0 header_bytes
          ++ (subarray blob header_bytes (header_bytes + middle)
              ++ drop (header_bytes + middle) blob)
        ≡ blob
  cut_three blob middle =
      let rest = drop header_bytes blob in
      ap (λ r. take header_bytes blob ++ r)
        (ap (λ n. take n rest ++ drop (header_bytes + middle) blob)
            (add_sub_self header_bytes middle)
          ∙ ap (λ r. take middle rest ++ r) (sym (drop-drop header_bytes middle blob))
          ∙ take-append-drop middle rest)
      ∙ take-append-drop header_bytes blob

  -- Over any JSON parser, a package of bytes that parses is byte for byte the header, the canonical
  -- manifest and the payload that the serializer writes for what was parsed, and the manifest is
  -- well formed for the length of the payload.
  pub parse_package-IsReread :
      (blob : List ℕ) (p : Parsed)
      → AreBytes blob
      → parse_package decode blob ≡ ok p
      → IsReread blob p
  unfolding parse_package
  parse_package-IsReread blob p v e =
      let header = subarray blob 0 header_bytes in
      require_elim
        (is_safe (length blob)
          && (leb header_bytes (length blob) && leb (length blob) max_object_bytes))
        corrupt _ e
        λ _ e1. require_elim (length header == header_bytes) corrupt _ e1 λ _ e2.
          bind_elim (admit_header header) _ e2 λ a admits e3.
            require_elim (leb a.payload_start (length blob)) corrupt _ e3 λ fits e4.
              let encoded = subarray blob header_bytes a.payload_start in
              require_elim (length encoded == a.manifest_bytes) corrupt _ e4 λ size e5.
                bind_elim (admit_manifest decode encoded (some (length blob - a.payload_start))) _
                  e5
                  λ m admitted e6.
                    let (exact, starts) =
                      header_exact header a (AreBytes-take header_bytes blob v) admits in
                    let count : length encoded ≡ a.manifest_bytes =
                      (==_iff (length encoded) a.manifest_bytes).0 size in
                    let (encoding, accepted) =
                      admit_manifest_ok encoded (some (length blob - a.payload_start)) m admitted in
                    subst (IsReread blob) (sym (ok_injective e6)) (record {
                      index = encoded;
                      encoding = encoding;
                      same_bytes =
                          ap (λ n. header_of n ++ (encoded ++ drop a.payload_start blob)) count
                          ∙ ap (λ h. h ++ (encoded ++ drop a.payload_start blob)) (sym exact)
                          ∙ subst
                              (λ n. header ++ (subarray blob header_bytes n ++ drop n blob) ≡ blob)
                              (sym starts) (cut_three blob a.manifest_bytes);
                      payload_size = omega (arith, length-drop a.payload_start blob);
                      accepted = accepted;
                    })
