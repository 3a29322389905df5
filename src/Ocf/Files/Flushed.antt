-- ===== src/Ocf/Files/Flushed.antt =====
-- ocf/ocf.go: the whole output of Encode and Flush.
use avro.Prelude.{
  ℕ, suc, ◌≡◌, refl, arith, inl, inr, Bool, true, false, Option, none, List, [], ◌∷◌, ◌++◌,
  append-nil, append_assoc, Bool-cases, All, length, length-append, ◌<◌,
}
use avro.Prelude.Int.{ℤ}
use avro.Errors.{Error}
use avro.Ocf.{Codec, ValueCodec}
use avro.Ocf.Encoder.{Encoder, encode, flush_block, write_then_settle, settle}
use avro.Ocf.Files.{IsLawful, is_full, blocks, file_bytes, encode_all, concat}
use avro.Ocf.Files.Written.{
  Holds, Keeps, IsWritable, block_of, settled, block_added, encode_full, encode_more,
}

module _ {V : Type 0} (encoding : V → List ℕ) (block_length block_size : ℤ) where
  abbrev full : List V → Bool
  full vs = is_full encoding block_length block_size vs

  pub blocks-full :
      (pending vs : List V) (v : V)
      → full (pending ++ v ∷ []) ≡ true
      → blocks encoding block_length block_size pending (v ∷ vs)
        ≡ (pending ++ v ∷ []) ∷ blocks encoding block_length block_size [] vs
  unfolding blocks
  blocks-full [] vs v h = rw (h, blocks) refl
  blocks-full (p ∷ pending) vs v h = rw (h, blocks) refl

  pub blocks_more :
      (pending vs : List V) (v : V)
      → full (pending ++ v ∷ []) ≡ false
      → blocks encoding block_length block_size pending (v ∷ vs)
        ≡ blocks encoding block_length block_size (pending ++ v ∷ []) vs
  unfolding blocks
  blocks_more [] vs v h = rw (h, blocks) refl
  blocks_more (p ∷ pending) vs v h = rw (h, blocks) refl

  -- The blocks hold the values, in order and each once.
  pub concat-blocks :
      (pending vs : List V)
      → concat (blocks encoding block_length block_size pending vs) ≡ pending ++ vs
  concat-blocks [] [] = unfold blocks in refl
  concat-blocks (p ∷ pending) [] = unfold blocks in refl
  concat-blocks pending (v ∷ vs) = elim (Bool-cases (full (pending ++ v ∷ []))) [
    | inl h ↦
        rw (blocks-full pending vs v h, concat-blocks [] vs) (append_assoc pending (v ∷ []) vs)
    | inr h ↦
        rw (blocks_more pending vs v h, concat-blocks (pending ++ v ∷ []) vs)
          (append_assoc pending (v ∷ []) vs)
  ]

  -- No block is empty.
  pub blocks_some :
      (pending vs : List V)
      → All (λ b. 0 < length b) (blocks encoding block_length block_size pending vs)
  blocks_some [] [] = unfold blocks in tt
  blocks_some (p ∷ pending) [] = unfold blocks in (omega arith, tt)
  blocks_some pending (v ∷ vs) = elim (Bool-cases (full (pending ++ v ∷ []))) [
    | inl h ↦
        rw (blocks-full pending vs v h)
          (omega (arith, length-append pending (v ∷ [])), blocks_some [] vs)
    | inr h ↦ rw (blocks_more pending vs v h) (blocks_some (pending ++ v ∷ []) vs)
  ]

module _ {V : Type 0} (c : ValueCodec V) (encoding : V → List ℕ) (ok : IsLawful c encoding)
    (method : Codec) (marker : List ℕ) (block_length block_size : ℤ) where
  abbrev Held : Encoder → List ℕ → List V → Type 0
  Held = Holds c encoding ok method marker block_length block_size

  abbrev Kept : List ℕ → List V → Option Error × Encoder → Type 0
  Kept = Keeps c encoding ok method marker block_length block_size

  abbrev Writable : List V → Type 0
  Writable = IsWritable c encoding ok method marker block_length block_size

  abbrev rest_of : List V → List V → List (List V)
  rest_of = blocks encoding block_length block_size

  abbrev bytes_of : List (List V) → List ℕ
  bytes_of = file_bytes encoding method marker

  flush_none : (e : Encoder) → e.failed ≡ false → e.count ≡ 0 → flush_block e ≡ settle e
  unfolding flush_block
  flush_none e working h = ground (arith, working, h)

  flush_some :
      (e : Encoder) (n : ℕ)
      → e.failed ≡ false
      → e.count ≡ suc n
      → flush_block e ≡ write_then_settle e
  unfolding flush_block
  flush_some e n working h = ground (arith, working, h)

  encode_all_on :
      (e : Encoder) (v : V) (vs : List V)
      → (encode c e v).0 ≡ none
      → encode_all c e (v ∷ vs) ≡ encode_all c (encode c e v).1 vs
  unfolding encode_all
  encode_all_on e v vs h = rw (h, encode_all) refl

  sent_block :
      (sent : List ℕ) (b : List V) (bs : List (List V))
      → (sent ++ block_of c encoding ok method marker block_length block_size b) ++ bytes_of bs
        ≡ sent ++ bytes_of (b ∷ bs)
  unfolding file_bytes
  sent_block sent b bs =
      append_assoc sent (block_of c encoding ok method marker block_length block_size b)
        (bytes_of bs)

  pub encode_all-Keeps :
      (vs : List V) (e : Encoder) (sent : List ℕ) (pending : List V)
      → Held e sent pending
      → All Writable (rest_of pending vs)
      → Kept (sent ++ bytes_of (rest_of pending vs)) [] (encode_all c e vs)
  encode_all-Keeps [] e sent [] h fits =
      unfold encode_all blocks file_bytes in
      (rw (flush_none e h.working h.count, append-nil sent)
        (settled c encoding ok method marker block_length block_size e sent [] h))
  encode_all-Keeps [] e sent (p ∷ pending) h fits =
      unfold encode_all blocks file_bytes in
      (rw
        (
          flush_some e (length pending) h.working h.count,
          append-nil (block_of c encoding ok method marker block_length block_size (p ∷ pending)),
        )
        (block_added c encoding ok method marker block_length block_size e sent (p ∷ pending)
          (unfold blocks in fits.0) h))
  encode_all-Keeps (v ∷ vs) e sent pending h fits =
      elim (Bool-cases (is_full encoding block_length block_size (pending ++ v ∷ []))) [
        | inl filled ↦
            let b : List V = pending ++ v ∷ [] in
            let same = blocks-full encoding block_length block_size pending vs v filled in
            let fits' : All Writable (b ∷ rest_of [] vs) = rw same at fits in
            let (clean, h') =
              encode_full c encoding ok method marker block_length block_size e sent pending v h
                filled fits'.0 in
            let block : List ℕ = block_of c encoding ok method marker block_length block_size b in
            let after = encode_all-Keeps vs (encode c e v).1 (sent ++ block) [] h' fits'.1 in
            rw (encode_all_on e v vs clean, same) (rw (← sent_block sent b (rest_of [] vs)) after)
        | inr more ↦
            let same = blocks_more encoding block_length block_size pending vs v more in
            let (clean, h') =
              encode_more c encoding ok method marker block_length block_size e sent pending v h
                more in
            rw (encode_all_on e v vs clean, same)
              (encode_all-Keeps vs (encode c e v).1 sent (pending ++ v ∷ []) h' (rw same at fits))
      ]
