-- ===== src/Compatibility/Symbols.antt =====
-- The enums of schema_compatibility.go.
use avro.Prelude.{
  ◌≡◌, refl, arith, String, str_eq, str_eq_iff, true, ◌↔◌, inl, inr, none, List, [], ◌∷◌, All, IsIn,
  contains, contains_iff, Bool-cases,
}
use avro.Compatibility.{check_enum_symbols, identical_enum_symbols}

-- The check of the symbols of two enums returns no error exactly where the reader has every symbol of
-- the writer.
pub check_enum_symbols_iff :
    (reader writer : List String)
    → (check_enum_symbols reader writer ≡ none) ↔ All (λ symbol. IsIn symbol reader) writer
unfolding check_enum_symbols
check_enum_symbols_iff reader [] = (λ h. tt, λ h. refl)
check_enum_symbols_iff reader (symbol ∷ rest) =
    let (to, from) = check_enum_symbols_iff reader rest in
    (
      λ h. elim (Bool-cases (contains reader symbol)) [
        | inl here ↦ ((contains_iff reader symbol).0 here, to (ground (arith, here)))
        | inr missing ↦ absurd (ground (arith, missing))
      ],
      λ (here, later). ground (arith, (contains_iff reader symbol).1 here, from later),
    )

-- Two lists of symbols are the same list exactly where identicalEnumSymbols says so.
pub identical_enum_symbols_iff :
    (reader writer : List String)
    → (identical_enum_symbols reader writer ≡ true) ↔ (reader ≡ writer)
unfolding identical_enum_symbols
identical_enum_symbols_iff [] [] = (λ h. refl, λ h. refl)
identical_enum_symbols_iff [] (w ∷ ws) =
    (λ h. absurd (ground arith), λ h. absurd (ground (arith, h)))
identical_enum_symbols_iff (r ∷ rs) [] =
    (λ h. absurd (ground arith), λ h. absurd (ground (arith, h)))
identical_enum_symbols_iff (r ∷ rs) (w ∷ ws) =
    let (to, from) = identical_enum_symbols_iff rs ws in
    (
      λ h. elim (Bool-cases (str_eq r w)) [
        | inl same ↦ ground (arith, (str_eq_iff r w).0 same, to (ground (arith, same)))
        | inr other ↦ absurd (ground (arith, other))
      ],
      λ h. ground (arith, h, (str_eq_iff r w).1 (ground (arith, h)), from (ground (arith, h))),
    )
