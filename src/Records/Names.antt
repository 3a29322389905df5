-- ===== src/Records/Names.antt =====
-- What the two loops of validateRecordFields of schema.go find out.
use avro.Prelude.{
  ◌≡◌, refl, subst, arith, String, str_eq, str_eq_iff, IsIn, true, false, inl, inr, List, [], ◌∷◌,
  contains, All, Bool-cases, Sum-cases,
}
use avro.Schema.{Field}
use avro.Records.{add_names, add_aliases, add_all_aliases, validate_record_fields}

-- No field of the list has the name.
abbrev pub IsFresh : String → List Field → Type 0
IsFresh name fs = All (λ (f : Field). str_eq f.name name ≡ false) fs

abbrev pub IsDistinct : List Field → Type 0
IsDistinct [] = Unit {0}
IsDistinct (f ∷ fs) = IsFresh f.name fs × IsDistinct fs

contains-cons :
    (n : String) (names : List String) (x : String)
    → contains (n ∷ names) x ≡ false
    → (str_eq n x ≡ false) × (contains names x ≡ false)
unfolding contains
contains-cons n names x h = elim (Bool-cases (str_eq n x)) [
  | inl same ↦ absurd (ground (arith, same))
  | inr other ↦ (other, ground (arith, other))
]

-- Names outside the resulting set are outside the set before, and no field has them.
add_names-outside :
    (names : List String) (fs : List Field) (out : List String)
    → add_names names fs ≡ inr out
    → (x : String) → contains out x ≡ false
    → (contains names x ≡ false) × IsFresh x fs
unfolding add_names
add_names-outside names [] out e x h = (ground (arith, e), tt)
add_names-outside names (f ∷ fs) out e x h = elim (Bool-cases (contains names f.name)) [
  | inl met ↦ absurd (ground (arith, met))
  | inr new ↦
      let (before, fresh) = add_names-outside (f.name ∷ names) fs out (ground (arith, new)) x h in
      let (other, before') = contains-cons f.name names x before in (before', (other, fresh))
]

contains-head : (x : String) (names : List String) → contains (x ∷ names) x ≡ true
unfolding contains
contains-head x names = ground (arith, (str_eq_iff x x).1 refl)

contains-tail :
    (n : String) (names : List String) (x : String)
    → contains names x ≡ true
    → contains (n ∷ names) x ≡ true
unfolding contains
contains-tail n names x h = elim (Bool-cases (str_eq n x)) [
  | inl same ↦ ground (arith, same)
  | inr other ↦ ground (arith, other, h)
]

-- No field has a name that was met before.
add_names-IsFresh :
    (names : List String) (fs : List Field) (out : List String)
    → add_names names fs ≡ inr out
    → (x : String) → contains names x ≡ true
    → IsFresh x fs
unfolding add_names
add_names-IsFresh names [] out e x h = tt
add_names-IsFresh names (f ∷ fs) out e x h = elim (Bool-cases (contains names f.name)) [
  | inl met ↦ absurd (ground (arith, met))
  | inr new ↦
      let later =
        add_names-IsFresh (f.name ∷ names) fs out (ground (arith, new)) x
          (contains-tail f.name names x h) in
      elim (Bool-cases (str_eq f.name x)) [
        | inr other ↦ (other, later)
        | inl same ↦
            let again : contains names f.name ≡ true = rw ((str_eq_iff f.name x).0 same) h in
            absurd (ground (arith, new, again))
      ]
]

add_names-IsDistinct :
    (names : List String) (fs : List Field) (out : List String)
    → add_names names fs ≡ inr out
    → IsDistinct fs
unfolding add_names
add_names-IsDistinct names [] out e = tt
add_names-IsDistinct names (f ∷ fs) out e = elim (Bool-cases (contains names f.name)) [
  | inl met ↦ absurd (ground (arith, met))
  | inr new ↦
      let next : add_names (f.name ∷ names) fs ≡ inr out = ground (arith, new) in
      (
        add_names-IsFresh (f.name ∷ names) fs out next f.name (contains-head f.name names),
        add_names-IsDistinct (f.name ∷ names) fs out next,
      )
]

-- The set before is within the set after, and no alias is in the set before.
add_aliases-outside :
    (names aliases : List String) (out : List String)
    → add_aliases names aliases ≡ inr out
    → ((x : String) → contains out x ≡ false → contains names x ≡ false)
      × ((x : String) → IsIn x aliases → contains names x ≡ false)
unfolding add_aliases
add_aliases-outside names [] out e = (λ x h. ground (arith, e, h), λ x h. absurd h)
add_aliases-outside names (a ∷ rest) out e = elim (Bool-cases (contains names a)) [
  | inl met ↦ absurd (ground (arith, met))
  | inr new ↦
      let (before, others) = add_aliases-outside (a ∷ names) rest out (ground (arith, new)) in
      (
        λ x h. (contains-cons a names x (before x h)).1,
        λ x h. elim h [
          | inl same ↦ subst (λ t. contains names t ≡ false) same new
          | inr later ↦ (contains-cons a names x (others x later)).1
        ],
      )
]

-- The aliases of every field are outside a set.
abbrev pub AliasesOutside : List String → List Field → Type 0
AliasesOutside names fs =
    All (λ (f : Field). (x : String) → IsIn x f.aliases → contains names x ≡ false) fs

weaken :
    (names names' : List String) (fs : List Field)
    → ((x : String) → contains names' x ≡ false → contains names x ≡ false)
    → AliasesOutside names' fs
    → AliasesOutside names fs
weaken names names' [] within h = tt
weaken names names' (f ∷ fs) within (h, hs) =
    (λ x i. within x (h x i), weaken names names' fs within hs)

add_all_aliases-outside :
    (names : List String) (fs : List Field) (out : List String)
    → add_all_aliases names fs ≡ inr out
    → AliasesOutside names fs
unfolding add_all_aliases
add_all_aliases-outside names [] out e = tt
add_all_aliases-outside names (f ∷ fs) out e = elim (Sum-cases (add_aliases names f.aliases)) [
  | inl (err, bad) ↦ absurd (ground (arith, bad))
  | inr (names', good) ↦
      let (within, outside) = add_aliases-outside names f.aliases names' good in
      let later = add_all_aliases-outside names' fs out (ground (arith, good)) in
      (outside, weaken names names' fs within later)
]

-- Where a record's fields are valid, their names are distinct, and no alias is a field's name.
pub valid-IsDistinct :
    (fs : List Field) (out : List String)
    → validate_record_fields fs ≡ inr out
    → IsDistinct fs × All (λ (f : Field). (x : String) → IsIn x f.aliases → IsFresh x fs) fs
unfolding validate_record_fields
valid-IsDistinct fs out e = elim (Sum-cases (add_names [] fs)) [
  | inl (err, bad) ↦ absurd (ground (arith, bad))
  | inr (names, good) ↦
      let outside = add_all_aliases-outside names fs out (ground (arith, good)) in
      (add_names-IsDistinct [] fs names good, fresh_all names good fs outside)
]
  where
    fresh_all :
        (names : List String)
        → add_names [] fs ≡ inr names
        → (gs : List Field) → AliasesOutside names gs
        → All (λ (f : Field). (x : String) → IsIn x f.aliases → IsFresh x fs) gs
    fresh_all names good [] h = tt
    fresh_all names good (g ∷ gs) (h, hs) =
        (λ x i. (add_names-outside [] fs names good x (h x i)).1, fresh_all names good gs hs)
