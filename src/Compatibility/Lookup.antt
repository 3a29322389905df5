-- ===== src/Compatibility/Lookup.antt =====
-- matchRecordFields of schema_compatibility.go: which field of the writer one field of the reader names.
use avro.Prelude.{
  ℕ, zero, suc, ◌+◌, ◌≡◌, refl, subst, arith, String, str_eq, str_eq_iff, false, ◌⊎◌, inl, inr,
  Option, none, some, List, [], ◌∷◌, get_elem?, Bool-cases, Option-cases, IsIn,
}
use avro.Schema.{Field}
use avro.Compatibility.{find_field, match_aliases}

-- The field at position `i` from `start` on has the name.
abbrev pub IsNamed : List Field → ℕ → String → Type 0
IsNamed writers i name = (w : Field) × (get_elem? writers i ≡ some w) × (w.name ≡ name)

-- No field has the name.
abbrev pub IsAbsent : List Field → String → Type 0
IsAbsent writers name = (i : ℕ) → IsNamed writers i name → ⊥

-- What `find_field` must return.
abbrev Finds : ℕ → List Field → String → Option ℕ → Type 0
Finds start writers name none = IsAbsent writers name
Finds start writers name (some j) = (i : ℕ) × (j ≡ start + i) × IsNamed writers i name

find_field-Finds :
    (start : ℕ) (writers : List Field) (name : String)
    → Finds start writers name (find_field start writers name)
unfolding find_field
find_field-Finds start [] name = λ i (w, at, same). absurd (ground arith)
find_field-Finds start (w ∷ ws) name = elim (Option-cases (find_field (suc start) ws name)) [
  | inr (j, found) ↦
      let (i, place, named) = rw found at (find_field-Finds (suc start) ws name) in
      rw found (suc i, omega arith, named)
  | inl missing ↦
      let later : IsAbsent ws name = rw missing at (find_field-Finds (suc start) ws name) in
      elim (Bool-cases (str_eq w.name name)) [
        | inl same ↦ rw (missing, same) (0, omega arith, (w, refl, (str_eq_iff w.name name).0 same))
        | inr other ↦ rw (missing, other) (absent_here other later)
      ]
]
  where
    absent_here : str_eq w.name name ≡ false → IsAbsent ws name → IsAbsent (w ∷ ws) name
    absent_here other later zero (v, at, same) =
        let named : w.name ≡ name = ground (arith, at, same) in
        ground (arith, other, (str_eq_iff w.name name).1 named)
    absent_here other later (suc i) named = later i named

-- What the search through a reader's field and its aliases must return, where `start` is a match that
-- is known already: with `none`, no name of the list is the writer's; with a position, a name of the
-- list stands there, or it is the match that was known.
abbrev FindsOne : List Field → Option ℕ → List String → Option ℕ → Type 0
FindsOne writers start names none =
    (start ≡ none) × ((name : String) → IsIn name names → IsAbsent writers name)
FindsOne writers start names (some i) =
    (start ≡ some i) ⊎ ((name : String) × IsIn name names × IsNamed writers i name)

found_at :
    (writers : List Field) (name : String) (i : ℕ)
    → find_field 0 writers name ≡ some i
    → IsNamed writers i name
found_at writers name i e =
    let (j, place, named) = rw e at (find_field-Finds 0 writers name) in
    let same : i ≡ j = omega arith in rw same named

not_found :
    (writers : List Field) (name : String)
    → find_field 0 writers name ≡ none
    → IsAbsent writers name
not_found writers name e = rw e at (find_field-Finds 0 writers name)

module _ (writers : List Field) (alias : String) (rest : List String) where
  skip_alias :
      (start found : Option ℕ)
      → IsAbsent writers alias
      → FindsOne writers start rest found
      → FindsOne writers start (alias ∷ rest) found
  skip_alias start none absent (s, others) = (
    s,
    λ n h. elim h [ inl same ↦ subst (IsAbsent writers) same absent | inr later ↦ others n later ],
  )
  skip_alias start (some i) absent (inl known) = inl known
  skip_alias start (some i) absent (inr (n, h, named)) = inr (n, inr h, named)

  take_alias :
      (c : ℕ) (start found : Option ℕ)
      → IsNamed writers c alias
      → FindsOne writers (some c) rest found
      → FindsOne writers start (alias ∷ rest) found
  take_alias c start none named (s, others) = absurd (ground (arith, s))
  take_alias c start (some i) named (inl known) =
      let same : c ≡ i = ground (arith, known) in
      inr (alias, inl refl, subst (λ t. IsNamed writers t alias) same named)
  take_alias c start (some i) named (inr (n, h, named')) = inr (n, inr h, named')

match_aliases-FindsOne :
    (writers : List Field) (name : String) (start : Option ℕ) (names : List String)
    (found : Option ℕ)
    → match_aliases writers name start names ≡ inr found
    → FindsOne writers start names found
unfolding match_aliases
match_aliases-FindsOne writers name none [] none e = (refl, λ n h. absurd h)
match_aliases-FindsOne writers name (some s) [] none e = absurd (ground arith)
match_aliases-FindsOne writers name start [] (some i) e = inl (ground arith)
match_aliases-FindsOne writers name start (alias ∷ rest) found e =
    elim (Option-cases (find_field 0 writers alias)) [
      | inl missing ↦
          let later =
            match_aliases-FindsOne writers name start rest found (ground (arith, missing)) in
          skip_alias writers alias rest start found (not_found writers alias missing) later
      | inr (c, here) ↦ elim (Option-cases start) [
        | inr (s, known) ↦ absurd (ground (arith, here, known))
        | inl fresh ↦
            let later =
              match_aliases-FindsOne writers name (some c) rest found
                (ground (arith, here, fresh)) in
            take_alias writers alias rest c start found (found_at writers alias c here) later
      ]
    ]

-- What the match of one reader's field must be: the position of a writer's field that has its name or
-- one of its aliases, or none, where no writer's field has one of them.
abbrev pub Matches : List Field → Field → Option ℕ → Type 0
Matches writers f none = (name : String) → IsIn name (f.name ∷ f.aliases) → IsAbsent writers name
Matches writers f (some i) =
    (name : String) × IsIn name (f.name ∷ f.aliases) × IsNamed writers i name

Matches-FindsOne :
    (writers : List Field) (f : Field) (found : Option ℕ)
    → FindsOne writers none (f.name ∷ f.aliases) found
    → Matches writers f found
Matches-FindsOne writers f none (s, others) = others
Matches-FindsOne writers f (some i) (inl known) = absurd (ground (arith, known))
Matches-FindsOne writers f (some i) (inr named) = named

pub match_one :
    (writers : List Field) (f : Field) (found : Option ℕ)
    → match_aliases writers f.name (find_field 0 writers f.name) f.aliases ≡ inr found
    → Matches writers f found
match_one writers f found e =
    let rest =
      match_aliases-FindsOne writers f.name (find_field 0 writers f.name) f.aliases found e in
    elim (Option-cases (find_field 0 writers f.name)) [
      | inl missing ↦
          let rest' = rw missing at rest in
          Matches-FindsOne writers f found (
            skip_alias writers f.name f.aliases none found (not_found writers f.name missing) rest')
      | inr (c, here) ↦
          let rest' = rw here at rest in
          Matches-FindsOne writers f found (
            take_alias writers f.name f.aliases c none found (found_at writers f.name c here) rest')
    ]
