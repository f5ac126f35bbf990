-- ===== src/Index/Tests.antt =====
-- The encodings of a small document, and the theorems at concrete inputs.
use baud.Base.{ℕ, ◌≡◌, ◌↔◌, refl, true, false, some, [], ◌∷◌, ◌++◌, arith, ok, ret, panic}
use baud.Base.Bytes.{Bytes, has_prefix}
use baud.Index.SmallCodec.{small_codec, small_codec-IsCodec}
use baud.Index.Encoding.{
  Field, string_value, encode_terms, encode_store_field_key, decode_store_field_key,
  encode_field_term_abstract_key, decode_field_term_abstract_key, encode_store_field,
  decode_store_field, encode_field_term_abstract, decode_field_term_abstract_value,
  encode_index_position_key,
}
use baud.Index.Encoding.Keys.{keys_round_trip}
use baud.Index.Encoding.Prefix.{document_prefix, position_prefix}
use baud.Index.Encoding.Rows.{store_field_round_trip, terms_round_trip}

abbrev doc : Bytes
doc = b'd' ∷ b'1' ∷ []

abbrev other : Bytes
other = b'd' ∷ b'1' ∷ b'2' ∷ []

abbrev hi : Bytes
hi = b'h' ∷ b'i' ∷ []

abbrev title : Field
title = record { id = 3; value_type = string_value; stored = true; payload = hi }

keys_round_trip_example :
    (decode_store_field_key small_codec (encode_store_field_key small_codec doc 3) ≡ ok (doc, 3))
    × (decode_field_term_abstract_key small_codec (encode_field_term_abstract_key small_codec doc 3)
        ≡ ok (doc, 3))
keys_round_trip_example = keys_round_trip small_codec small_codec-IsCodec doc 3 (omega arith)

document_prefix_example :
    ((has_prefix
          (encode_store_field_key small_codec other 3)
          (encode_store_field_key small_codec doc 0)
        ≡ true)
      ↔ (other ≡ doc))
    × ((has_prefix
            (encode_field_term_abstract_key small_codec other 3)
            (encode_field_term_abstract_key small_codec doc 0)
          ≡ true)
        ↔ (other ≡ doc))
document_prefix_example = document_prefix small_codec small_codec-IsCodec doc other 3

position_prefix_example :
    (has_prefix
        (encode_index_position_key small_codec other 3 hi 7)
        (encode_index_position_key small_codec doc 3 hi 0)
      ≡ true)
    ↔ ((◌≡◌ {A = ℕ} 3 3) × (hi ≡ hi) × (other ≡ doc))
position_prefix_example =
    position_prefix small_codec small_codec-IsCodec doc other 3 3 hi hi 7 (omega arith)
      (omega arith)

store_field_round_trip_example :
    (row : Bytes) × (encode_store_field small_codec doc title
      ≡ some (encode_store_field_key small_codec doc 3, row))
    × (decode_store_field 3 row
        ≡ ok (record { id = 3; value_type = string_value; stored = false; payload = hi }))
store_field_round_trip_example =
    store_field_round_trip small_codec small_codec-IsCodec doc title refl

terms_round_trip_example :
    (row : Bytes) × (encode_field_term_abstract small_codec doc 3 (hi ∷ doc ∷ [])
      ≡ ok (encode_field_term_abstract_key small_codec doc 3, row))
    × (decode_field_term_abstract_value small_codec row ≡ some (ret (ok (hi ∷ doc ∷ []))))
terms_round_trip_example = terms_round_trip small_codec small_codec-IsCodec doc 3 hi (doc ∷ [])

-- A value of two bytes of which one is there, behind a whole one.
cut_row :
    decode_field_term_abstract_value small_codec
      (encode_terms small_codec 0 [] (hi ∷ []) ++ (2 ∷ 5 ∷ []))
    ≡ some panic
unfolding decode_field_term_abstract_value encode_terms
cut_row = refl
