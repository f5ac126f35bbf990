-- ===== src/Index/Encoding/Keys.antt =====
-- A field's key is decoded to the document and the field that it was encoded from.
use baud.Base.{
  ℕ, ◌^◌, ◌≡◌, ◌<◌, refl, ◌∙◌, false, [], ◌∷◌, ◌++◌, ltb, length, arith, if◌then◌else◌, Result, ok,
  err, leb, length-append,
}
use mathlib.Core.List.{append-nil}
use baud.Base.Bytes.{Bytes}
use baud.Index.Codec.{Codec, IsCodec}
use baud.Index.Encoding.{
  EncodingError, decode_error, key_type_f, key_type_t, encode_store_field_key,
  decode_store_field_key, decode_doc_and_field, encode_field_term_abstract_key,
  decode_field_term_abstract_key,
}
use baud.Index.Encoding.Parts.{
  bytes, uint32, last_number, encode_store_field_key_parts, encode_field_term_abstract_key_parts,
}

module _ (c : Codec) (laws : IsCodec c) where
  -- What both decoders make of a key after its leading byte.
  abbrev decoded_key : Bytes → ℕ → Result EncodingError (Bytes × ℕ)
  decoded_key doc_id field_id = if ltb 0 field_id then ok (doc_id, field_id) else err decode_error

  decode_doc_and_field_lem :
      (doc_id : Bytes) (field_id : ℕ)
      → field_id < 2 ^ 32
      → decode_doc_and_field c (bytes c laws doc_id ++ last_number c laws field_id)
        ≡ decoded_key doc_id field_id
  decode_doc_and_field_lem doc_id field_id small =
      rw (decode_doc_and_field, laws.decode_bytes doc_id (last_number c laws field_id))
        (ground (
          arith,
          laws.decode_uint32 field_id [] small,
          append-nil (uint32 c laws field_id),
          laws.decode_short [],
        ))

  -- A key of at least a byte after the leading byte.
  decode_store_field_key_long :
      (key : Bytes)
      → 1 < length key
      → decode_store_field_key c (key_type_f ∷ key) ≡ decode_doc_and_field c key
  unfolding decode_store_field_key
  decode_store_field_key_long key long =
      let a : leb (length (key_type_f ∷ key)) 2 ≡ false = ground arith in rw a refl

  decode_field_term_abstract_key_long :
      (key : Bytes)
      → 1 < length key
      → decode_field_term_abstract_key c (key_type_t ∷ key) ≡ decode_doc_and_field c key
  unfolding decode_field_term_abstract_key
  decode_field_term_abstract_key_long key long =
      let a : leb (length (key_type_t ∷ key)) 1 ≡ false = ground arith in rw a refl

  -- A key of a field and a key of its terms, decoded, give back the document and a positive number
  -- of the field below 2 ^ 32; the field 0, which both keys leave out, is an error.
  pub keys_round_trip :
      (doc_id : Bytes) (field_id : ℕ)
      → field_id < 2 ^ 32
      → (decode_store_field_key c (encode_store_field_key c doc_id field_id)
          ≡ (if ltb 0 field_id then ok (doc_id, field_id) else err decode_error))
        × (decode_field_term_abstract_key c (encode_field_term_abstract_key c doc_id field_id)
            ≡ (if ltb 0 field_id then ok (doc_id, field_id) else err decode_error))
  keys_round_trip doc_id field_id small =
      let key = bytes c laws doc_id ++ last_number c laws field_id in
      let long : 1 < length key = omega (
        arith,
        laws.bytes_terminated doc_id,
        length-append (bytes c laws doc_id) (last_number c laws field_id),
      ) in
      let decoded = decode_doc_and_field_lem doc_id field_id small in
      (
        rw (encode_store_field_key_parts c laws doc_id field_id)
            (decode_store_field_key_long key long ∙ decoded),
        rw (encode_field_term_abstract_key_parts c laws doc_id field_id)
            (decode_field_term_abstract_key_long key long ∙ decoded),
      )
