-- ===== src/Index/Encoding/Parts.antt =====
-- A key cut back into what was encoded into it.
use baud.Base.{
  ℕ, ◌^◌, ◌%◌, ◌≡◌, ◌<◌, sym, ap, ◌∙◌, Option, some, [], ◌∷◌, ◌++◌, ltb, arith, if◌then◌else◌,
}
use mathlib.Core.List.{append_assoc, append-nil}
use baud.Base.Bytes.{Bytes}
use baud.Index.Codec.{Codec, IsCodec}
use baud.Index.Encoding.{
  encode_store_field_key, key_type_f, key_type_i, key_type_p, key_type_t, encode_index_key,
  encode_index_position_key, encode_field_term_abstract_key,
}

some_pair :
    {A B : Type 0} (r s : A) (a b : B)
    → ◌≡◌ {A = Option (A × B)} (some (r, a)) (some (s, b))
    → (a ≡ b) × (r ≡ s)
some_pair {A} {B} r s a b e =
    let h : ◌≡◌ {A = Option (A × B)} (some (r, a)) (some (s, b)) = e in (cc, cc)

module _ (c : Codec) (laws : IsCodec c) where
  abbrev pub bytes : Bytes → Bytes
  bytes value = c.encode_bytes_ascending [] value

  abbrev pub uint32 : ℕ → Bytes
  uint32 v = c.encode_uint32_ascending [] v

  pub cut_bytes : (a b r s : Bytes) → bytes a ++ r ≡ bytes b ++ s → (a ≡ b) × (r ≡ s)
  cut_bytes a b r s e =
      some_pair r s a b
        (sym (laws.decode_bytes a r) ∙ ap c.decode_bytes_ascending e ∙ laws.decode_bytes b s)

  pub cut_uint32 :
      (v w : ℕ) (r s : Bytes)
      → v < 2 ^ 32
      → w < 2 ^ 32
      → uint32 v ++ r ≡ uint32 w ++ s
      → (v ≡ w) × (r ≡ s)
  cut_uint32 v w r s small small' e = some_pair r s v w (
      sym (laws.decode_uint32 v r small)
      ∙ ap c.decode_uint32_ascending e
      ∙ laws.decode_uint32 w s small')

  -- The number at the end of a key, which 0 leaves out.
  abbrev pub last_number : ℕ → Bytes
  last_number v = if ltb 0 v then uint32 v else []

  -- Appending a value and, for a positive `v`, the number `w` to a buffer.
  pub append_last :
      (b value : Bytes) (v w : ℕ)
      → (if ltb 0 v
          then c.encode_uint32_ascending (c.encode_bytes_ascending b value) w
          else c.encode_bytes_ascending b value)
        ≡ b ++ (bytes value ++ (if ltb 0 v then uint32 w else []))
  append_last b value v w = ground (
    arith,
    laws.append_bytes b value,
    append-nil (bytes value),
    laws.append_uint32 (c.encode_bytes_ascending b value) w,
    append_assoc b (bytes value) (uint32 w),
  )

  pub encode_store_field_key_parts :
      (doc_id : Bytes) (field_id : ℕ)
      → encode_store_field_key c doc_id field_id
        ≡ key_type_f ∷ (bytes doc_id ++ last_number field_id)
  unfolding encode_store_field_key
  encode_store_field_key_parts doc_id field_id =
      append_last (key_type_f ∷ []) doc_id field_id field_id

  pub encode_field_term_abstract_key_parts :
      (doc_id : Bytes) (field_id : ℕ)
      → encode_field_term_abstract_key c doc_id field_id
        ≡ key_type_t ∷ (bytes doc_id ++ last_number field_id)
  unfolding encode_field_term_abstract_key
  encode_field_term_abstract_key_parts doc_id field_id =
      append_last (key_type_t ∷ []) doc_id field_id field_id

  -- The field and the term at the start of a key of the term index.
  abbrev pub field_and_term : ℕ → Bytes → Bytes
  field_and_term field_id term = uint32 field_id ++ bytes term

  append_field_and_term :
      (b : Bytes) (field_id : ℕ) (term : Bytes)
      → c.encode_bytes_ascending (c.encode_uint32_ascending b field_id) term
        ≡ b ++ field_and_term field_id term
  append_field_and_term b field_id term = ground (
    arith,
    laws.append_uint32 b field_id,
    laws.append_bytes (c.encode_uint32_ascending b field_id) term,
    append_assoc b (uint32 field_id) (bytes term),
  )

  pub encode_index_key_parts :
      (doc_id : Bytes) (field_id : ℕ) (term : Bytes)
      → encode_index_key c doc_id field_id term
        ≡ key_type_i ∷ (uint32 field_id ++ (bytes term ++ bytes doc_id))
  unfolding encode_index_key
  encode_index_key_parts doc_id field_id term =
      let start = key_type_i ∷ [] in
      rw (encode_index_key, append_field_and_term start field_id term)
        (laws.append_bytes (start ++ field_and_term field_id term) doc_id
          ∙ ap (λ k. key_type_i ∷ k) (append_assoc (uint32 field_id) (bytes term) (bytes doc_id)))

  pub encode_index_position_key_parts :
      (doc_id : Bytes) (field_id : ℕ) (term : Bytes) (pos : ℕ)
      → encode_index_position_key c doc_id field_id term pos
        ≡ key_type_p
          ∷ (uint32 field_id
              ++ (bytes term
                  ++ (bytes doc_id ++ (if ltb 0 pos then uint32 (pos % 2 ^ 32) else []))))
  unfolding encode_index_position_key
  encode_index_position_key_parts doc_id field_id term pos =
      let start = key_type_p ∷ [] in
      let number = if ltb 0 pos then uint32 (pos % 2 ^ 32) else [] in
      rw (append_field_and_term start field_id term) (
        append_last (start ++ field_and_term field_id term) doc_id pos (pos % 2 ^ 32)
        ∙ ap (λ k. key_type_p ∷ k)
            (append_assoc (uint32 field_id) (bytes term) (bytes doc_id ++ number)))
