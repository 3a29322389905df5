-- ===== src/Records/SelfMatch.antt =====
-- validateRecordFields of schema.go and matchRecordFields of schema_compatibility.go together.
use avro.Prelude.{
  ℕ, suc, ◌≤◌, ◌<◌, ◌≡◌, refl, ◌∙◌, ap, arith, String, str_eq_iff, false, inl, inr, Option, none,
  some, List, [], ◌∷◌, All, IsIn,
}
use avro.Schema.{Field}
use avro.Compatibility.{
  find_field, match_aliases, match_fields, match_record_fields, is_used, and_match,
}
use avro.Records.{validate_record_fields}
use avro.Records.Names.{IsFresh, IsDistinct, valid-IsDistinct}

-- The positions of the fields, from `i` on.
abbrev pub places : ℕ → List Field → List (Option ℕ)
places i [] = []
places i (f ∷ fs) = some i ∷ places (suc i) fs

find_field-none :
    (start : ℕ) (fs : List Field) (name : String)
    → IsFresh name fs
    → find_field start fs name ≡ none
unfolding find_field
find_field-none start [] name h = refl
find_field-none start (f ∷ fs) name (other, later) =
    ground (arith, other, find_field-none (suc start) fs name later)

-- Each field of `fs` is found at its own position in `all`.
abbrev Owns : ℕ → List Field → ℕ → List Field → Type 0
Owns start all i [] = Unit {0}
Owns start all i (f ∷ fs) = (find_field start all f.name ≡ some i) × Owns start all (suc i) fs

later_step :
    (start j : ℕ) (f : Field) (fs : List Field) (name : String)
    → find_field (suc start) fs name ≡ some j
    → find_field start (f ∷ fs) name ≡ some j
unfolding find_field
later_step start j f fs name h = ground (arith, h)

own_step :
    (start : ℕ) (f : Field) (fs : List Field)
    → IsFresh f.name fs
    → find_field start (f ∷ fs) f.name ≡ some start
unfolding find_field
own_step start f fs fresh =
    ground (arith, find_field-none (suc start) fs f.name fresh, (str_eq_iff f.name f.name).1 refl)

shift :
    (start i : ℕ) (f : Field) (all fs : List Field)
    → Owns (suc start) all i fs
    → Owns start (f ∷ all) i fs
shift start i f all [] h = tt
shift start i f all (g ∷ gs) (here, later) =
    (later_step start i f all g.name here, shift start (suc i) f all gs later)

owns : (start : ℕ) (fs : List Field) → IsDistinct fs → Owns start fs start fs
owns start [] h = tt
owns start (f ∷ fs) (fresh, distinct) =
    (own_step start f fs fresh, shift start (suc start) f fs fs (owns (suc start) fs distinct))

aliases_pass :
    (all : List Field) (name : String) (match : Option ℕ) (aliases : List String)
    → ((x : String) → IsIn x aliases → IsFresh x all)
    → match_aliases all name match aliases ≡ inr match
unfolding match_aliases
aliases_pass all name match [] h = refl
aliases_pass all name match (a ∷ rest) h = ground (
  arith,
  find_field-none 0 all a (h a (inl refl)),
  aliases_pass all name match rest (λ x i. h x (inr i)),
)

one_step :
    (all : List Field) (used : List ℕ) (f : Field) (fs : List Field) (i : ℕ)
    → find_field 0 all f.name ≡ some i
    → match_aliases all f.name (some i) f.aliases ≡ inr (some i)
    → is_used used i ≡ false
    → match_fields all used (f ∷ fs) ≡ and_match (some i) (match_fields all (i ∷ used) fs)
unfolding match_fields
one_step all used f fs i own pass free = rw (match_fields, own, pass, free) refl

used_later :
    (used : List ℕ) (i j : ℕ) → is_used used j ≡ false → i < j → is_used (i ∷ used) j ≡ false
used_later used i j h lt = ground arith

matches_itself :
    (all : List Field) (used : List ℕ) (i : ℕ) (fs : List Field)
    → ((j : ℕ) → i ≤ j → is_used used j ≡ false)
    → Owns 0 all i fs
    → All (λ (f : Field). (x : String) → IsIn x f.aliases → IsFresh x all) fs
    → match_fields all used fs ≡ inr (places i fs)
matches_itself all used i [] free own aliases = unfold match_fields in refl
matches_itself all used i (f ∷ fs) free (here, later) (outside, others) =
    one_step all used f fs i here (aliases_pass all f.name (some i) f.aliases outside)
      (free i (omega arith))
    ∙ ap (and_match (some i)) (
        matches_itself all (i ∷ used) (suc i) fs
          (λ j h. used_later used i j (free j (omega arith)) (omega arith)) later others)

-- A record whose fields are valid matches itself, each field with itself: where validateRecordFields
-- returns no error, matchRecordFields of the fields with themselves returns none, and pairs each with the
-- one at the same position.
pub match_record_fields-validate_record_fields :
    (fs : List Field) (out : List String)
    → validate_record_fields fs ≡ inr out
    → match_record_fields fs fs ≡ inr (places 0 fs)
unfolding match_record_fields
match_record_fields-validate_record_fields fs out e =
    let (distinct, aliases) = valid-IsDistinct fs out e in
    matches_itself fs [] 0 fs (λ j h. refl) (owns 0 fs distinct) aliases
