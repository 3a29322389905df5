-- ===== src/Records.antt =====
-- validateRecordFields of schema.go: the names and the aliases of the fields of a record. A field is
-- never nil here.
pub mod Names
pub mod SelfMatch
use avro.Prelude.{String, Bool, true, false, ◌⊎◌, inl, inr, List, [], ◌∷◌, contains, if◌then◌else◌}
use avro.Schema.{Field}

pub data FieldsError : Type 0 where
  duplicate_name : String → FieldsError
  duplicate_name_or_alias : String → FieldsError

-- The loop over the names; `names` is the set of those that were met.
unfoldable pub add_names : List String → List Field → FieldsError ⊎ List String
add_names names [] = inr names
add_names names (f ∷ fs) = elim (contains names f.name) [
  | true ↦ inl (duplicate_name f.name)
  | false ↦ add_names (f.name ∷ names) fs
]

unfoldable pub add_aliases : List String → List String → FieldsError ⊎ List String
add_aliases names [] = inr names
add_aliases names (a ∷ rest) = elim (contains names a) [
  | true ↦ inl (duplicate_name_or_alias a)
  | false ↦ add_aliases (a ∷ names) rest
]

unfoldable pub add_all_aliases : List String → List Field → FieldsError ⊎ List String
unfolding add_aliases
add_all_aliases names [] = inr names
add_all_aliases names (f ∷ fs) = elim (add_aliases names f.aliases) [
  | inl e ↦ inl e
  | inr names' ↦ add_all_aliases names' fs
]

-- All names and aliases, where there is no error.
unfoldable pub validate_record_fields : List Field → FieldsError ⊎ List String
validate_record_fields fields = elim (add_names [] fields) [
  | inl e ↦ inl e
  | inr names ↦ add_all_aliases names fields
]
