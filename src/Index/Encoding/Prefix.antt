-- ===== src/Index/Encoding/Prefix.antt =====
-- The prefixes by which the index looks for the keys of a document.
use baud.Base.{
  ℕ, ◌%◌, ◌^◌, ◌≡◌, ◌<◌, ◌↔◌, refl, sym, ap, ◌∙◌, true, [], ◌∷◌, ◌++◌, ltb, arith, if◌then◌else◌,
}
use mathlib.Core.List.{append_assoc, append-nil}
use baud.Base.Bytes.{Bytes, has_prefix}
use baud.Index.Codec.{Codec, IsCodec}
use baud.Index.Encoding.{
  key_type_f, key_type_i, key_type_p, key_type_t, encode_store_field_key, encode_index_position_key,
  encode_field_term_abstract_key, encode_index_key,
}
use baud.Index.Encoding.Parts.{
  bytes, uint32, last_number, cut_bytes, cut_uint32, encode_store_field_key_parts,
  encode_field_term_abstract_key_parts, encode_index_position_key_parts, encode_index_key_parts,
}

-- What follows a prefix.
after_prefix : (s p : Bytes) → has_prefix s p ≡ true → (r : Bytes) × (s ≡ p ++ r)
unfolding has_prefix
after_prefix s [] h = (s, refl)
after_prefix [] (b ∷ p) h = absurd (ground arith)
after_prefix (a ∷ s) (b ∷ p) h =
    let (r, e) = after_prefix s p (ground (arith, h)) in (r, ground (arith, e, h))

has_prefix-append : (p r : Bytes) → has_prefix (p ++ r) p ≡ true
unfolding has_prefix
has_prefix-append [] r = refl
has_prefix-append (a ∷ p) r = ground (arith, has_prefix-append p r)

append_assoc_three : (x y z s : Bytes) → (x ++ (y ++ z)) ++ s ≡ x ++ (y ++ (z ++ s))
append_assoc_three x y z s = append_assoc x (y ++ z) s ∙ ap (λ k. x ++ k) (append_assoc y z s)

module _ (c : Codec) (laws : IsCodec c) where
  -- A leading byte and an encoded value as a prefix.
  value_prefix :
      (t : ℕ) (a b r : Bytes)
      → (has_prefix (t ∷ (bytes c laws a ++ r)) (t ∷ (bytes c laws b ++ [])) ≡ true) ↔ (a ≡ b)
  value_prefix t a b r = (
    λ h.
        let (s, e) = after_prefix (t ∷ (bytes c laws a ++ r)) (t ∷ (bytes c laws b ++ [])) h in
        let tails : bytes c laws a ++ r ≡ (bytes c laws b ++ []) ++ s = cc in
        (cut_bytes c laws a b r s (tails ∙ append_assoc (bytes c laws b) [] s)).0,
    λ e. rw (e, append-nil (bytes c laws b)) (has_prefix-append (t ∷ bytes c laws b) r),
  )

  -- Among the keys of fields, those with the prefix of a document are the keys of its fields; among
  -- the keys of field terms, those with the document's prefix are the keys of its field terms.
  pub document_prefix :
      (doc_id other : Bytes) (field_id : ℕ)
      → ((has_prefix (encode_store_field_key c other field_id) (encode_store_field_key c doc_id 0)
            ≡ true)
          ↔ (other ≡ doc_id))
        × ((has_prefix
                (encode_field_term_abstract_key c other field_id)
                (encode_field_term_abstract_key c doc_id 0)
              ≡ true)
            ↔ (other ≡ doc_id))
  document_prefix doc_id other field_id =
      let number = last_number c laws field_id in
      (
        rw
            (
              encode_store_field_key_parts c laws other field_id,
              encode_store_field_key_parts c laws doc_id 0,
            )
            (value_prefix key_type_f other doc_id number),
        rw
            (
              encode_field_term_abstract_key_parts c laws other field_id,
              encode_field_term_abstract_key_parts c laws doc_id 0,
            )
            (value_prefix key_type_t other doc_id number),
      )

  -- The parts of a key of the term index, when what follows is put aside.
  cut_index :
      (f g : ℕ) (term other a b r s : Bytes)
      → f < 2 ^ 32
      → g < 2 ^ 32
      → uint32 c laws f ++ (bytes c laws term ++ (bytes c laws a ++ r))
        ≡ uint32 c laws g ++ (bytes c laws other ++ (bytes c laws b ++ s))
      → (f ≡ g) × (term ≡ other) × (a ≡ b)
  cut_index f g term other a b r s small small' e =
      let (same_field, e1) =
        cut_uint32 c laws f g (bytes c laws term ++ (bytes c laws a ++ r))
          (bytes c laws other ++ (bytes c laws b ++ s)) small small' e in
      let (same_term, e2) =
        cut_bytes c laws term other (bytes c laws a ++ r) (bytes c laws b ++ s) e1 in
      (same_field, same_term, (cut_bytes c laws a b r s e2).0)

  -- Different terms have different keys in the term index, the number of a field being below 2 ^ 32.
  pub index_key_injective :
      (doc_id other_doc : Bytes) (field_id other_field : ℕ) (term other_term : Bytes)
      → field_id < 2 ^ 32
      → other_field < 2 ^ 32
      → encode_index_key c doc_id field_id term
        ≡ encode_index_key c other_doc other_field other_term
      → (field_id ≡ other_field) × (term ≡ other_term) × (doc_id ≡ other_doc)
  index_key_injective doc_id other_doc field_id other_field term other_term small small' e =
      let h : key_type_i ∷ (uint32 c laws field_id ++ (bytes c laws term ++ bytes c laws doc_id))
          ≡ key_type_i
            ∷ (uint32 c laws other_field ++ (bytes c laws other_term ++ bytes c laws other_doc)) =
        sym (encode_index_key_parts c laws doc_id field_id term)
        ∙ e
        ∙ encode_index_key_parts c laws other_doc other_field other_term in
      let a = append-nil (bytes c laws doc_id) in
      let b = append-nil (bytes c laws other_doc) in
      cut_index field_id other_field term other_term doc_id other_doc [] [] small small' cc

  -- Among the keys of positions, those with the prefix of a document, a field and a term are the keys
  -- of the positions of just these, the number of a field being below 2 ^ 32.
  pub position_prefix :
      (doc_id other_doc : Bytes) (field_id other_field : ℕ) (term other_term : Bytes) (pos : ℕ)
      → field_id < 2 ^ 32
      → other_field < 2 ^ 32
      → (has_prefix
            (encode_index_position_key c other_doc other_field other_term pos)
            (encode_index_position_key c doc_id field_id term 0)
          ≡ true)
        ↔ ((other_field ≡ field_id) × (other_term ≡ term) × (other_doc ≡ doc_id))
  position_prefix doc_id other_doc field_id other_field term other_term pos small small' =
      let number = if ltb 0 pos then uint32 c laws (pos % 2 ^ 32) else [] in
      let u = uint32 c laws field_id in
      let t = bytes c laws term in
      let d = bytes c laws doc_id in
      rw
        (
          encode_index_position_key_parts c laws other_doc other_field other_term pos,
          encode_index_position_key_parts c laws doc_id field_id term 0,
        )
        (
          λ h.
              let (s, e) = after_prefix _ (key_type_p ∷ (u ++ (t ++ (d ++ [])))) h in
              let tails : uint32 c laws other_field
                    ++ (bytes c laws other_term ++ (bytes c laws other_doc ++ number))
                  ≡ (u ++ (t ++ (d ++ []))) ++ s =
                cc in
              cut_index other_field field_id other_term term other_doc doc_id number s small' small
                (tails ∙ rw (append-nil d) (append_assoc_three u t d s)),
          λ e.
              rw (e.0, e.1, e.2, append-nil d, sym (append_assoc_three u t d number))
                (has_prefix-append (key_type_p ∷ (u ++ (t ++ d))) number),
        )
