-- ===== src/Registry/Cached.antt =====
-- registry/client.go: what GetSchema and GetSchemaByGUID leave in the caches.
use avro.Prelude.{
  ℕ, String, ◌≡◌, refl, sym, ap, ◌∙◌, subst, arith, Bool, true, false, not, ◌⊎◌, inl, inr, Option,
  none, some, List, [], ◌∷◌, bytes_equal, bytes_equal_refl, if◌then◌else◌, ltb, length,
}
use avro.Prelude.Int.{ℤ, pos, negsuc}
use avro.Errors.{Error, message}
use avro.Registry.{check_guid}
use avro.Registry.Requests.{SchemaReference, Settings}
use avro.Registry.Client.{
  SchemaPayload, Packages, State, Action, next, and_then, wrapped, in_context, done, outside, load,
  same_id, to_lower, fetch_schema, get_schema, store, store_guid, add_references, fetch_reference,
  fetch_by_guid, use_answer, load_or_fetch, get_schema_by_guid, or_else, after_check, named_as,
  bad_reference, is_avro,
}

module _ {S W : Type 0} where
  pub record SameCaches (st st' : State S W) : Type 0 where
    pub ids : st'.cache ≡ st.cache
    pub guids : st'.guid_cache ≡ st.guid_cache

  -- What holds after an action that started in `st`: the caches are as they were where it failed.
  abbrev Meets :
      {A : Type 0} → (A → State S W → Type 0) → State S W → (Error ⊎ A) × State S W → Type 0
  Meets Good st (inl e, st') = SameCaches st st'
  Meets Good st (inr a, st') = Good a st'

  record Outcome {A : Type 0} (Good : A → State S W → Type 0) (st : State S W)
      (r : (Error ⊎ A) × State S W) : Type 0 where
    meets : Meets Good st r

  abbrev Quiet : {A : Type 0} → State S W → A → State S W → Type 0
  Quiet st a st' = SameCaches st st'

  next-Outcome :
      {A B : Type 0} (Good : B → State S W → Type 0) (st : State S W) (r : (Error ⊎ A) × State S W)
      (f : A → Action S W B)
      → Outcome (Quiet st) st r
      → ((a : A) (st' : State S W) → SameCaches st st' → Outcome Good st (f a st'))
      → Outcome Good st (next r f)
  next-Outcome Good st (inl e, st') f same after = record { meets = same.meets }
  next-Outcome Good st (inr a, st') f same after = after a st' same.meets

  then-Outcome :
      {A B : Type 0} (Good : B → State S W → Type 0) (st st' : State S W) (m : Action S W A)
      (f : A → Action S W B)
      → Outcome (Quiet st) st (m st')
      → ((a : A) (st2 : State S W) → SameCaches st st2 → Outcome Good st (f a st2))
      → Outcome Good st (and_then m f st')
  unfolding and_then
  then-Outcome Good st st' m f same after = next-Outcome Good st (m st') f same after

  wrapped-Outcome :
      {A : Type 0} (st : State S W) (context : String) (r : (Error ⊎ A) × State S W)
      → Outcome (Quiet st) st r
      → Outcome (Quiet st) st (wrapped context r)
  wrapped-Outcome st context (inl e, st') same = record { meets = same.meets }
  wrapped-Outcome st context (inr a, st') same = record { meets = same.meets }

  result-Quiet :
      {A : Type 0} (st st' : State S W) (r : Error ⊎ A)
      → SameCaches st st'
      → Outcome (Quiet st) st (r, st')
  result-Quiet st st' (inl e) same = record { meets = same }
  result-Quiet st st' (inr a) same = record { meets = same }

  outside-Outcome :
      {A : Type 0} (st st' : State S W) (f : W → (Error ⊎ A) × W)
      → SameCaches st st'
      → Outcome (Quiet st) st (outside f st')
  unfolding outside
  outside-Outcome st st' f same =
      result-Quiet st (record st' { world = (f st'.world).1 }) (f st'.world).0
        (record { ids = same.ids; guids = same.guids })

  if-Outcome :
      {A : Type 0} (Good : A → State S W → Type 0) (st st' : State S W) (b : Bool)
      (m m' : Action S W A)
      → Outcome Good st (m st')
      → Outcome Good st (m' st')
      → Outcome Good st ((if b then m else m') st')
  if-Outcome Good st st' true m m' ok ok' = ok
  if-Outcome Good st st' false m m' ok ok' = ok'

  or_else-Outcome :
      {A : Type 0} (Good : A → State S W → Type 0) (st : State S W) (o : Option A)
      (m : Action S W A)
      → ((a : A) → o ≡ some a → Good a st)
      → Outcome Good st (m st)
      → Outcome Good st (or_else o m st)
  or_else-Outcome Good st none m hit miss = miss
  or_else-Outcome Good st (some a) m hit miss = record { meets = hit a refl }

module _ {S W : Type 0} (p : Packages S W) (c : Settings) where
  same_id_refl : (id : ℤ) → same_id id id ≡ true
  same_id_refl (pos n) = ground arith
  same_id_refl (negsuc n) = ground arith

  abbrev HasId : ℤ → State S W → S → State S W → Type 0
  HasId id st schema st' =
      (load same_id id st'.cache ≡ some schema) × (st'.guid_cache ≡ st.guid_cache)

  answered-Outcome :
      {A B : Type 0} (Good : B → State S W → Type 0) (st st' : State S W) (context : String)
      (ask_for : W → (Error ⊎ A) × W) (f : A → Action S W B)
      → SameCaches st st'
      → ((a : A) (st2 : State S W) → SameCaches st st2 → Outcome Good st (f a st2))
      → Outcome Good st (and_then (in_context context (outside ask_for)) f st')
  unfolding and_then in_context
  answered-Outcome Good st st' context ask_for f same after =
      next-Outcome Good st (in_context context (outside ask_for) st') f
        (wrapped-Outcome st context (outside ask_for st') (outside-Outcome st st' ask_for same))
        after

  stored_id :
      (id : ℤ) (st st' : State S W) (schema : S)
      → SameCaches st st'
      → Outcome (HasId id st) st (store p c id schema st')
  unfolding load
  stored_id id st st' schema same = record { meets = (rw (same_id_refl id) refl, same.guids) }

  unchanged : (st : State S W) → SameCaches st st
  unchanged st = record { ids = refl; guids = refl }

  fetch_schema-Outcome :
      (id : ℤ) (st : State S W) → Outcome (HasId id st) st (fetch_schema p c id st)
  unfolding fetch_schema
  fetch_schema-Outcome id st =
      answered-Outcome (HasId id st) st st _ _ _ (unchanged st) (λ resp st1 same1.
        answered-Outcome (HasId id st) st st1 _ _ _ same1
          (λ schema st2 same2. stored_id id st st2 schema same2))

  get_schema-Outcome : (id : ℤ) (st : State S W) → Outcome (HasId id st) st (get_schema p c id st)
  unfolding get_schema
  get_schema-Outcome id st =
      or_else-Outcome (HasId id st) st (load same_id id st.cache) (fetch_schema p c id)
        (λ schema found. (found, refl)) (fetch_schema-Outcome id st)

  -- A schema that GetSchema returned for a number is what it returns for the number again, whatever the
  -- registry would answer by then: it asks for nothing, and leaves the world and the caches alone. The
  -- cache by GUID is as it was before.
  pub get_schema-again :
      (id : ℤ) (st st' : State S W) (schema : S) (world : W)
      → get_schema p c id st ≡ (inr schema, st')
      → (get_schema p c id (record st' { world = world })
          ≡ (inr schema, record st' { world = world }))
        × (st'.guid_cache ≡ st.guid_cache)
  unfolding get_schema
  get_schema-again id st st' schema world e =
      let (found, same) =
        (subst (λ t. Outcome (HasId id st) st t) e (get_schema-Outcome id st)).meets in
      (ap (λ t. or_else t (fetch_schema p c id) (record st' { world = world })) found, same)

  abbrev HasGuid : List ℕ → State S W → S → State S W → Type 0
  HasGuid guid st schema st' =
      (load bytes_equal guid st'.guid_cache ≡ some schema) × (st'.cache ≡ st.cache)

  stored_guid :
      (guid : List ℕ) (st st' : State S W) (schema : S)
      → SameCaches st st'
      → Outcome (HasGuid guid st) st (store_guid p c guid schema st')
  unfolding load
  stored_guid guid st st' schema same = record {
    meets = (rw (bytes_equal_refl guid) refl, same.ids);
  }

  fetch_reference-Outcome :
      (ref : SchemaReference) (st st' : State S W)
      → SameCaches st st'
      → Outcome (Quiet st) st (fetch_reference p c ref st')
  fetch_reference-Outcome ref st st' same =
      answered-Outcome (Quiet st) st st' _ _ _ same (λ resp st1 same1.
        answered-Outcome (Quiet st) st st1 _ _ _ same1
          (λ child st2 same2. result-Quiet st st2 (named_as p c ref.name child) same2))

  add_references-Outcome :
      (refs : List SchemaReference) (names : List (List ℕ × S)) (st st' : State S W)
      → SameCaches st st'
      → Outcome (Quiet st) st (add_references p c refs names st')
  unfolding add_references
  add_references-Outcome [] names st st' same = record { meets = same }
  add_references-Outcome (ref ∷ refs) names st st' same =
      if-Outcome (Quiet st) st st' (bad_reference p c ref (load bytes_equal ref.name names))
        (done (inl (message "invalid or duplicate GUID schema reference"))) _
        (record { meets = same })
        (then-Outcome (Quiet st) st st' (fetch_reference p c ref)
          (λ child. add_references p c refs ((ref.name, child) ∷ names))
          (fetch_reference-Outcome ref st st' same)
          (λ child st1 same1. add_references-Outcome refs ((ref.name, child) ∷ names) st st1 same1))

  use_answer-Outcome :
      (guid : List ℕ) (resp : SchemaPayload) (st st' : State S W)
      → SameCaches st st'
      → Outcome (HasGuid guid st) st (use_answer p c guid resp st')
  use_answer-Outcome guid resp st st' same =
      if-Outcome (HasGuid guid st) st st' (not (is_avro p c resp.schema_type)) _ _
        (record { meets = same })
        (if-Outcome (HasGuid guid st) st st' (ltb 1024 (length resp.references)) _ _
          (record { meets = same })
          (then-Outcome (HasGuid guid st) st st' (add_references p c resp.references []) _
            (add_references-Outcome resp.references [] st st' same)
            (λ names st1 same1.
              answered-Outcome (HasGuid guid st) st st1 _ _ _ same1
                (λ schema st2 same2. stored_guid guid st st2 schema same2))))

  load_or_fetch-Outcome :
      (guid : List ℕ) (st : State S W) → Outcome (HasGuid guid st) st (load_or_fetch p c guid st)
  unfolding fetch_by_guid
  load_or_fetch-Outcome guid st =
      or_else-Outcome (HasGuid guid st) st (load bytes_equal guid st.guid_cache)
        (fetch_by_guid p c guid) (λ schema found. (found, refl))
        (answered-Outcome (HasGuid guid st) st st _ _ _ (unchanged st)
          (λ resp st1 same1. use_answer-Outcome guid resp st st1 same1))

  load_or_fetch-again :
      (guid : List ℕ) (st st' : State S W) (schema : S) (world : W)
      → load_or_fetch p c guid st ≡ (inr schema, st')
      → (load_or_fetch p c guid (record st' { world = world })
          ≡ (inr schema, record st' { world = world }))
        × (st'.cache ≡ st.cache)
  load_or_fetch-again guid st st' schema world e =
      let (found, same) =
        (subst (λ t. Outcome (HasGuid guid st) st t) e (load_or_fetch-Outcome guid st)).meets in
      (ap (λ t. or_else t (fetch_by_guid p c guid) (record st' { world = world })) found, same)

  accepted :
      (guid raw : List ℕ) (st : State S W)
      → check_guid guid ≡ inr raw
      → get_schema_by_guid p c guid st ≡ load_or_fetch p c (to_lower guid) st
  unfolding get_schema_by_guid
  accepted guid raw st ok = ap (λ t. after_check t (load_or_fetch p c (to_lower guid)) st) ok

  -- A schema that GetSchemaByGUID returned for a GUID is what it returns for a GUID that differs in the
  -- case of its letters only, whatever the registry would answer by then: it asks for nothing, and leaves
  -- the world and the caches alone. The cache by number is as it was before.
  pub get_schema_by_guid-again :
      (guid guid' raw raw' : List ℕ) (st st' : State S W) (schema : S) (world : W)
      → check_guid guid ≡ inr raw
      → check_guid guid' ≡ inr raw'
      → to_lower guid' ≡ to_lower guid
      → get_schema_by_guid p c guid st ≡ (inr schema, st')
      → (get_schema_by_guid p c guid' (record st' { world = world })
          ≡ (inr schema, record st' { world = world }))
        × (st'.cache ≡ st.cache)
  get_schema_by_guid-again guid guid' raw raw' st st' schema world ok ok' alike e =
      let (again, same) =
        load_or_fetch-again (to_lower guid) st st' schema world
          (sym (accepted guid raw st ok) ∙ e) in
      (
        accepted guid' raw' (record st' { world = world }) ok'
            ∙ ap (λ t. load_or_fetch p c t (record st' { world = world })) alike
            ∙ again,
        same,
      )
