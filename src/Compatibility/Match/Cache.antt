-- ===== src/Compatibility/Match/Cache.antt =====
-- The cache of schema_compatibility.go.
use avro.Prelude.{
  ℕ, suc, ◌≡◌, refl, arith, false, none, some, List, ◌∷◌, Option-cases, inl, inr, bytes_equal_refl,
}
use avro.Schema.{Schema, Heap}
use avro.Compatibility.{Answer}
use avro.Compatibility.Match.{CompatKey, Cache, load, is_active, match, compatible}

load_first :
    (k : CompatKey) (answer : Answer) (cache : Cache) → load ((k, answer) ∷ cache) k ≡ some answer
unfolding load
load_first k answer cache = ground (arith, bytes_equal_refl k.reader, bytes_equal_refl k.writer)

module _ (key : Schema → List ℕ) (max_precision : ℕ → ℕ) (heap : Heap)
    (reader writer : Schema) where
  abbrev pub own_key : CompatKey
  own_key = record { reader = key reader; writer = key writer }

  cached :
      (fuel : ℕ) (active : List CompatKey) (cache : Cache) (answer : Answer)
      → load cache own_key ≡ some answer
      → compatible key max_precision heap (suc fuel) active reader writer cache ≡ (answer, cache)
  unfolding compatible
  cached fuel active cache answer e = rw (compatible, e) refl

  computed :
      (fuel : ℕ) (active : List CompatKey) (cache : Cache)
      → load cache own_key ≡ none
      → is_active active own_key ≡ false
      → compatible key max_precision heap (suc fuel) active reader writer cache ≡ (
        (match
            (compatible key max_precision heap fuel (own_key ∷ active))
            max_precision
            heap
            reader
            writer
            cache).0,
        (
          own_key,
          (match
              (compatible key max_precision heap fuel (own_key ∷ active))
              max_precision
              heap
              reader
              writer
              cache).0,
        )
            ∷ (match
                (compatible key max_precision heap fuel (own_key ∷ active))
                max_precision
                heap
                reader
                writer
                cache).1,
      )
  unfolding compatible
  computed fuel active cache e free = rw (compatible, e, free) refl

  -- A pair of schemas that is not being compared already is compared once: asked again in the state that
  -- the first answer left, in whatever call, `compatible` gives the same answer and changes nothing.
  pub compatible-again :
      (fuel fuel' : ℕ) (active active' : List CompatKey) (cache : Cache)
      → is_active active own_key ≡ false
      → compatible key max_precision heap
          (suc fuel')
          active'
          reader
          writer
          (compatible key max_precision heap (suc fuel) active reader writer cache).1
        ≡ compatible key max_precision heap (suc fuel) active reader writer cache
  compatible-again fuel fuel' active active' cache free = elim (Option-cases (load cache own_key)) [
    | inr (answer, e) ↦ rw (cached fuel active cache answer e) (cached fuel' active' cache answer e)
    | inl e ↦
        rw (computed fuel active cache e free) (cached fuel' active' _ _ (load_first own_key _ _))
  ]
