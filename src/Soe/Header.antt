-- ===== src/Soe/Header.antt =====
-- soe/soe.go: the header of a frame.
use avro.Prelude.{
  ℕ, ◌≤◌, ◌≡◌, refl, sym, ◌∙◌, ap, arith, inl, inr, ◌↔◌, List, [], ◌∷◌, ◌++◌, length, take, drop,
  length-append, take-append-drop, take-append_le, take-length, drop-append_le, drop-length,
  bytes_equal, bytes_equal→≡, bytes_equal_refl, Bool-cases, length-take, length-drop,
}
use avro.Soe.{parse_header, build_header_for_fingerprint, magic}

pub built :
    (fp header : List ℕ)
    → build_header_for_fingerprint fp ≡ inr header
    → (header ≡ magic ++ fp) × (length fp ≡ 8)
unfolding build_header_for_fingerprint
built fp header h = ground arith

front : (n : ℕ) (xs ys : List ℕ) → length xs ≡ n → take n (xs ++ ys) ≡ xs
front n xs ys h =
    take-append_le n xs ys (omega arith) ∙ ap (λ t. take t xs) (sym h) ∙ take-length xs

back : (n : ℕ) (xs ys : List ℕ) → length xs ≡ n → drop n (xs ++ ys) ≡ ys
back n xs ys h =
    drop-append_le n xs ys (omega arith)
    ∙ ap (λ t. drop t xs ++ ys) (sym h)
    ∙ ap (λ t. t ++ ys) (drop-length xs)

-- A frame is parsed into its parts.
pub parse_framed :
    (fp payload : List ℕ)
    → length fp ≡ 8
    → parse_header (magic ++ (fp ++ payload)) ≡ inr (fp, payload)
unfolding parse_header
parse_framed fp payload h = ground (
  arith,
  bytes_equal_refl magic,
  length-append fp payload,
  front 8 fp payload h,
  back 8 fp payload h,
)

parsed :
    (bytes fp payload : List ℕ)
    → parse_header bytes ≡ inr (fp, payload)
    → (take 2 bytes ≡ magic)
      × (fp ≡ take 8 (drop 2 bytes))
      × (payload ≡ drop 10 bytes)
      × (10 ≤ length bytes)
unfolding parse_header
parsed bytes fp payload h = elim (Bool-cases (bytes_equal (take 2 bytes) magic)) [
  | inl same ↦ (
    bytes_equal→≡ (take 2 bytes) magic same,
    ground (arith, same),
    ground (arith, same),
    ground (arith, same),
  )
  | inr other ↦ absurd (ground (arith, other))
]

behind_both : (bytes : List ℕ) → drop 8 (drop 2 bytes) ≡ drop 10 bytes
behind_both [] = refl
behind_both (x ∷ []) = refl
behind_both (x ∷ y ∷ rest) = refl

-- ParseHeader accepts the frames that begin with a header of BuildHeaderForFingerprint, and no others,
-- and splits them into the fingerprint and the payload behind the header.
pub parse_header-build_header :
    (bytes fp payload : List ℕ)
    → (parse_header bytes ≡ inr (fp, payload)) ↔ (
        (header : List ℕ) × (build_header_for_fingerprint fp ≡ inr header)
        × (bytes ≡ header ++ payload))
parse_header-build_header bytes fp payload = (
  λ h.
      let (m, f, p, size) = parsed bytes fp payload h in
      let eight : length fp ≡ 8 =
        rw f (omega (arith, length-take 8 (drop 2 bytes), length-drop 2 bytes)) in
      (
        magic ++ fp,
        unfold build_header_for_fingerprint in (ground (arith, eight)),
        sym (take-append-drop 2 bytes)
            ∙ ap (λ t. t ++ drop 2 bytes) m
            ∙ ap (λ t. magic ++ t) (sym (take-append-drop 8 (drop 2 bytes)))
            ∙ rw (f, p, behind_both bytes) refl,
      ),
  λ (header, b, e).
      let (same, eight) = built fp header b in rw (e, same) (parse_framed fp payload eight),
)
