-- ===== src/Registry/Subjects.antt =====
-- registry/client.go: the name of a subject as an element of a path.
use avro.Prelude.{
  length, ℕ, ◌+◌, ◌*◌, ◌/◌, ◌%◌, ◌<◌, ◌≡◌, refl, sym, ap, ◌∙◌, arith, true, false, ◌||◌, inl, inr,
  Option, none, some, List, [], ◌∷◌, All, if◌then◌else◌, ◌==◌, Bool-cases, bytes_equal,
  bytes_equal→≡,
}
use avro.Reader.Scan.{IsByte}
use avro.Registry.{from_hex}
use avro.Registry.Requests.{
  Segment, text, join_path, stays, upper_digit, path_escape, escape_subject,
}

abbrev consed : Option ℕ → Option (List ℕ) → Option (List ℕ)
consed (some c) (some cs) = some (c ∷ cs)
consed _ _ = none

abbrev pair_value : Option ℕ → Option ℕ → Option ℕ
pair_value (some a) (some b) = some (16 * a + b)
pair_value _ _ = none

-- `url.PathUnescape`: a percent sign stands before two hexadecimal digits.
unfoldable pub path_unescape : List ℕ → Option (List ℕ)
path_unescape [] = some []
path_unescape (c ∷ []) = if c == 37 then none else some (c ∷ [])
path_unescape (c ∷ a ∷ []) =
    let rest = path_unescape (a ∷ []) in if c == 37 then none else consed (some c) rest
path_unescape (c ∷ a ∷ b ∷ cs) =
    let rest = path_unescape (a ∷ b ∷ cs) in
    let behind = path_unescape cs in
    if c == 37 then consed (pair_value (from_hex a) (from_hex b)) behind else consed (some c) rest

-- A byte that may stand in an element of a path: no slash, no question mark, no number sign.
abbrev pub IsPathByte : ℕ → Type 0
IsPathByte c = (stays c || c == 37) ≡ true

plain_step :
    (c : ℕ) (cs : List ℕ)
    → (c == 37) ≡ false
    → path_unescape (c ∷ cs) ≡ consed (some c) (path_unescape cs)
unfolding path_unescape
plain_step c [] h = rw h refl
plain_step c (a ∷ []) h = rw h refl
plain_step c (a ∷ b ∷ cs) h = rw h refl

from_hex-upper_digit : (n : ℕ) → n < 16 → from_hex (upper_digit n) ≡ some n
from_hex-upper_digit n h = ground arith

escaped_step :
    (c : ℕ) (cs : List ℕ)
    → IsByte c
    → path_unescape (37 ∷ upper_digit (c / 16) ∷ upper_digit (c % 16) ∷ cs)
      ≡ consed (some c) (path_unescape cs)
unfolding path_unescape
escaped_step c cs byte =
    let high : from_hex (upper_digit (c / 16)) ≡ some (c / 16) =
      from_hex-upper_digit (c / 16) (omega arith) in
    let low : from_hex (upper_digit (c % 16)) ≡ some (c % 16) =
      from_hex-upper_digit (c % 16) (omega arith) in
    let whole : 16 * (c / 16) + c % 16 ≡ c = omega arith in
    rw (high, low) (ap (λ t. consed (some t) (path_unescape cs)) whole)

stays-plain : (c : ℕ) → stays c ≡ true → (c == 37) ≡ false
unfolding stays
stays-plain c h = ground arith

path_unescape-path_escape : (s : List ℕ) → All IsByte s → path_unescape (path_escape s) ≡ some s
unfolding path_escape
path_unescape-path_escape [] bytes = unfold path_unescape in refl
path_unescape-path_escape (c ∷ cs) (byte, bytes) = elim (Bool-cases (stays c)) [
  | inl kept ↦ rw kept (
      plain_step c (path_escape cs) (stays-plain c kept)
      ∙ ap (λ t. consed (some c) t) (path_unescape-path_escape cs bytes))
  | inr lost ↦ rw lost (
      escaped_step c (path_escape cs) byte
      ∙ ap (λ t. consed (some c) t) (path_unescape-path_escape cs bytes))
]

upper_digit-stays : (n : ℕ) → n < 16 → stays (upper_digit n) ≡ true
unfolding stays
upper_digit-stays n h = ground arith

path_escape-IsPathByte : (s : List ℕ) → All IsByte s → All IsPathByte (path_escape s)
unfolding path_escape
path_escape-IsPathByte [] bytes = tt
path_escape-IsPathByte (c ∷ cs) (byte, bytes) =
    let high = upper_digit-stays (c / 16) (omega arith) in
    let low = upper_digit-stays (c % 16) (omega arith) in
    elim (Bool-cases (stays c)) [
      | inl kept ↦ rw kept (rw kept refl, path_escape-IsPathByte cs bytes)
      | inr lost ↦
          rw lost ((ground arith, (rw high refl, (rw low refl, path_escape-IsPathByte cs bytes))))
    ]

-- What the name of a subject becomes: it is not empty, and path.Join keeps it before the elements behind
-- it; unescaped it is the name again.
pub record IsElement (subject : List ℕ) (escaped : List ℕ) : Type 0 where
  pub some_bytes : 0 < length escaped
  pub kept :
      (rest : List Segment)
      → (join_path (text escaped ∷ rest)).segments ≡ text escaped ∷ (join_path rest).segments
  pub names : path_unescape escaped ≡ some subject
  pub bytes : All IsPathByte escaped
  pub no_dot : bytes_equal escaped (46 ∷ []) ≡ false
  pub no_dots : bytes_equal escaped (46 ∷ 46 ∷ []) ≡ false

text-kept :
    (escaped : List ℕ) (rest : List Segment)
    → 0 < length escaped
    → (join_path (text escaped ∷ rest)).segments ≡ text escaped ∷ (join_path rest).segments
unfolding join_path
text-kept [] rest h = absurd (omega arith)
text-kept (c ∷ cs) rest h = refl

path_escape-some : (s : List ℕ) → 0 < length s → 0 < length (path_escape s)
unfolding path_escape
path_escape-some [] h = absurd (omega arith)
path_escape-some (c ∷ cs) h = ground arith

decodes_dots :
    (s escaped : List ℕ)
    → All IsByte s
    → bytes_equal (path_escape s) escaped ≡ true
    → path_unescape escaped ≡ some s
decodes_dots s escaped bytes same =
    ap path_unescape (sym (bytes_equal→≡ (path_escape s) escaped same))
    ∙ path_unescape-path_escape s bytes

-- The name of a subject that is not empty becomes one element of a path, whatever its bytes are: it is
-- not empty, so that path.Join keeps it; url.PathUnescape gives the name back; no byte ends the element or
-- the path; and it is neither "." nor "..", which path.Join would resolve.
pub escape_subject-IsElement :
    (subject : List ℕ)
    → 0 < length subject
    → All IsByte subject
    → IsElement subject (escape_subject subject)
unfolding escape_subject
escape_subject-IsElement subject named bytes =
    elim (Bool-cases (bytes_equal (path_escape subject) (46 ∷ []))) [
      | inl dot ↦ rw dot (record {
        some_bytes = omega arith;
        kept = λ rest. text-kept (37 ∷ 50 ∷ 69 ∷ []) rest (omega arith);
        names = unfold path_unescape in (decodes_dots subject (46 ∷ []) bytes dot);
        bytes = unfold stays in (refl, (refl, (refl, tt)));
        no_dot = unfold bytes_equal in refl;
        no_dots = unfold bytes_equal in refl;
      })
      | inr no_dot ↦ elim (Bool-cases (bytes_equal (path_escape subject) (46 ∷ 46 ∷ []))) [
        | inl dots ↦
            rw (no_dot, dots)
              (record {
                some_bytes = omega arith;
                kept = λ rest. text-kept (37 ∷ 50 ∷ 69 ∷ 37 ∷ 50 ∷ 69 ∷ []) rest (omega arith);
                names = unfold path_unescape in (decodes_dots subject (46 ∷ 46 ∷ []) bytes dots);
                bytes = unfold stays in (refl, (refl, (refl, (refl, (refl, (refl, tt))))));
                no_dot = unfold bytes_equal in refl;
                no_dots = unfold bytes_equal in refl;
              })
        | inr no_dots ↦
            rw (no_dot, no_dots)
              (record {
                some_bytes = path_escape-some subject named;
                kept =
                    λ rest. text-kept (path_escape subject) rest (path_escape-some subject named);
                names = path_unescape-path_escape subject bytes;
                bytes = path_escape-IsPathByte subject bytes;
                no_dot = no_dot;
                no_dots = no_dots;
              })
      ]
    ]
