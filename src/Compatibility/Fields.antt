-- ===== src/Compatibility/Fields.antt =====
-- matchRecordFields of schema_compatibility.go: which fields of two records belong together.
use avro.Prelude.{
  ℕ, ◌≡◌, refl, arith, false, ◌⊎◌, inl, inr, Option, none, some, List, [], ◌∷◌, Bool-cases,
  Option-cases, Sum-cases, IsIn,
}
use avro.Schema.{Field}
use avro.Compatibility.{
  CompatError, find_field, match_aliases, match_fields, match_record_fields, is_used, and_match,
}
use avro.Compatibility.Lookup.{Matches, match_one}

abbrev pub AllMatch : List Field → List Field → List (Option ℕ) → Type 0
AllMatch writers [] [] = Unit {0}
AllMatch writers [] (m ∷ ms) = ⊥
AllMatch writers (f ∷ fs) [] = ⊥
AllMatch writers (f ∷ fs) (m ∷ ms) = Matches writers f m × AllMatch writers fs ms

-- No position comes twice.
abbrev pub IsDistinct : List (Option ℕ) → Type 0
IsDistinct [] = Unit {0}
IsDistinct (none ∷ ms) = IsDistinct ms
IsDistinct (some i ∷ ms) = (IsIn (some i) ms → ⊥) × IsDistinct ms

abbrev Unused : List ℕ → List (Option ℕ) → Type 0
Unused used ms = (i : ℕ) → IsIn (some i) ms → is_used used i ≡ false

abbrev AllRight : List Field → List ℕ → List Field → List (Option ℕ) → Type 0
AllRight writers used fs ms = AllMatch writers fs ms × IsDistinct ms × Unused used ms

none_right :
    (writers : List Field) (used : List ℕ) (f : Field) (fs : List Field) (ms : List (Option ℕ))
    → Matches writers f none
    → AllRight writers used fs ms
    → AllRight writers used (f ∷ fs) (none ∷ ms)
none_right writers used f fs ms one (all, distinct, unused) = (
  (one, all),
  distinct,
  λ i h. elim h [ inl same ↦ absurd (ground (arith, same)) | inr later ↦ unused i later ],
)

some_right :
    (writers : List Field) (used : List ℕ) (f : Field) (fs : List Field) (i : ℕ)
    (ms : List (Option ℕ))
    → Matches writers f (some i)
    → is_used used i ≡ false
    → AllRight writers (i ∷ used) fs ms
    → AllRight writers used (f ∷ fs) (some i ∷ ms)
some_right writers used f fs i ms one free (all, distinct, unused) = (
  (one, all),
  (λ h. ground (arith, unused i h), distinct),
  λ j h. elim h [
    | inl same ↦ ground (arith, same, free)
    | inr later ↦ ground (arith, unused j later)
  ],
)

and_match-inr :
    (m : Option ℕ) (r : CompatError ⊎ List (Option ℕ)) (ms : List (Option ℕ))
    → and_match m r ≡ inr ms
    → (rest : List (Option ℕ)) × (r ≡ inr rest) × (ms ≡ m ∷ rest)
and_match-inr m (inl err) ms e = absurd (ground (arith, e))
and_match-inr m (inr rest) ms e = (rest, refl, ground (arith, e))

match_fields-AllRight :
    (writers : List Field) (used : List ℕ) (fs : List Field) (ms : List (Option ℕ))
    → match_fields writers used fs ≡ inr ms
    → AllRight writers used fs ms
unfolding match_fields
match_fields-AllRight writers used [] [] e = (tt, tt, λ i h. absurd h)
match_fields-AllRight writers used [] (m ∷ ms) e = absurd (ground (arith, e))
match_fields-AllRight writers used (f ∷ fs) ms e =
    elim (Sum-cases (match_aliases writers f.name (find_field 0 writers f.name) f.aliases)) [
      | inl (err, bad) ↦ absurd (ground (arith, bad))
      | inr (found, ok) ↦
          let one = match_one writers f found ok in
          elim (Option-cases found) [
            | inl missing ↦
                let next : and_match none (match_fields writers used fs) ≡ inr ms =
                  ground (arith, ok, missing) in
                let (rest, r, same) = and_match-inr none (match_fields writers used fs) ms next in
                rw same (
                  none_right writers used f fs rest (rw missing at one)
                    (match_fields-AllRight writers used fs rest r))
            | inr (i, place) ↦ elim (Bool-cases (is_used used i)) [
              | inl taken ↦ absurd (ground (arith, ok, place, taken))
              | inr free ↦
                  let next : and_match (some i) (match_fields writers (i ∷ used) fs) ≡ inr ms =
                    ground (arith, ok, place, free) in
                  let (rest, r, same) =
                    and_match-inr (some i) (match_fields writers (i ∷ used) fs) ms next in
                  rw same (
                    some_right writers used f fs i rest (rw place at one) free
                      (match_fields-AllRight writers (i ∷ used) fs rest r))
            ]
          ]
    ]

-- Where matchRecordFields returns no error, it gives every field of the reader the writer's field that
-- has its name or one of its aliases, and none only where no writer's field has one of them; and no
-- field of the writer is given to two fields of the reader.
pub match_record_fields-AllMatch :
    (readers writers : List Field) (ms : List (Option ℕ))
    → match_record_fields readers writers ≡ inr ms
    → AllMatch writers readers ms × IsDistinct ms
unfolding match_record_fields
match_record_fields-AllMatch readers writers ms e =
    let (all, distinct, unused) = match_fields-AllRight writers [] readers ms e in (all, distinct)
