-- ===== src/Index/Encoding.antt =====
-- engine/kernel/index/indexImpl/encoding.go: the keys and rows of a document.
-- Where an error is returned, the results beside it, which no caller reads, are left out.
pub mod Parts
pub mod Keys
pub mod Prefix
pub mod Rows
use baud.Base.{
  ℕ, zero, suc, ◌≤◌, Bool, true, false, not, ◌||◌, Option, none, some, List, [], ◌∷◌, ◌++◌, ltb,
  leb, nat_beq, Result, ok, err, Outcome, ret, panic, length, if◌then◌else◌, ◌%◌, ◌^◌,
}
use baud.Base.Bytes.{Bytes}
use baud.Index.Codec.{Codec}

-- `pspb.ValueType` is generated: the constants that the code names, and any other value.
pub data ValueType : Type 0 where
  string_value int_value float_value decimal_value bool_value null_value : ValueType
  time_value blob_value unknown_value : ValueType
  other_value : ℕ → ValueType

-- What the code reads and writes of a `pspb.Field`; `stored` is `Desc.Stored`.
pub record Field : Type 0 where
  pub id : ℕ
  pub value_type : ValueType
  pub stored : Bool
  pub payload : Bytes

pub data EncodingError : Type 0 where
  invalid_field_key invalid_field_row no_terms invalid_abstract_key decode_error : EncodingError

-- The leading bytes of the keys: F, I, P and T.
abbrev pub key_type_f : ℕ
key_type_f = b'F'

abbrev pub key_type_i : ℕ
key_type_i = b'I'

abbrev pub key_type_p : ℕ
key_type_p = b'P'

abbrev pub key_type_t : ℕ
key_type_t = b'T'

abbrev pub field_type_n : ℕ
field_type_n = b'N'

unfoldable pub field_type_outer : ℕ → ValueType
field_type_outer t =
    if nat_beq t b'S'
    then string_value
    else if nat_beq t b'I'
    then int_value
    else if nat_beq t b'F'
    then float_value
    else if nat_beq t b'D'
    then decimal_value
    else if nat_beq t b'b'
    then bool_value
    else if nat_beq t field_type_n
    then null_value
    else if nat_beq t b'T'
    then time_value
    else if nat_beq t b'B'
    then blob_value
    else unknown_value

unfoldable pub field_type_inner : ValueType → ℕ
field_type_inner string_value = b'S'
field_type_inner int_value = b'I'
field_type_inner float_value = b'F'
field_type_inner decimal_value = b'D'
field_type_inner bool_value = b'b'
field_type_inner null_value = field_type_n
field_type_inner time_value = b'T'
field_type_inner blob_value = b'B'
field_type_inner unknown_value = b'U'
field_type_inner (other_value n) = b'U'

module _ (c : Codec) where
  unfoldable pub encode_store_field_key : Bytes → ℕ → Bytes
  encode_store_field_key doc_id field_id =
      let key = c.encode_bytes_ascending (key_type_f ∷ []) doc_id in
      if ltb 0 field_id then c.encode_uint32_ascending key field_id else key

  -- The bytes of a key after its leading byte.
  abbrev pub decode_doc_and_field : Bytes → Result EncodingError (Bytes × ℕ)
  decode_doc_and_field key = elim (c.decode_bytes_ascending key) [
    | none ↦ err decode_error
    | some (rest, doc_id) ↦ elim (c.decode_uint32_ascending rest) [
      | none ↦ err decode_error
      | some (_, field_id) ↦ ok (doc_id, field_id)
    ]
  ]

  unfoldable pub decode_store_field_key : Bytes → Result EncodingError (Bytes × ℕ)
  decode_store_field_key [] = err invalid_field_key
  decode_store_field_key (t ∷ key) =
      if leb (length (t ∷ key)) 2 || not (nat_beq t key_type_f)
      then err invalid_field_key
      else decode_doc_and_field key

  -- `none` is the nil key and row of a field that is not stored.
  unfoldable pub encode_store_field : Bytes → Field → Option (Bytes × Bytes)
  unfolding field_type_inner
  encode_store_field doc_id field =
      if not field.stored
      then none
      else some (
        encode_store_field_key doc_id field.id,
        field_type_inner field.value_type
            ∷ (if ltb 0 (length field.payload) then field.payload else []),
      )

  unfoldable pub encode_index_key : Bytes → ℕ → Bytes → Bytes
  encode_index_key doc_id field_id term =
      let key = c.encode_uint32_ascending (key_type_i ∷ []) field_id in
      c.encode_bytes_ascending (c.encode_bytes_ascending key term) doc_id

  unfoldable pub encode_index : Bytes → ℕ → Bytes → ℕ → Bytes × Bytes
  encode_index doc_id field_id term freq =
      (encode_index_key doc_id field_id term, c.encode_int_value [] 0 freq)

  -- `uint32(pos)` keeps the low 32 bits.
  unfoldable pub encode_index_position_key : Bytes → ℕ → Bytes → ℕ → Bytes
  encode_index_position_key doc_id field_id term pos =
      let key =
        c.encode_bytes_ascending
          (c.encode_bytes_ascending (c.encode_uint32_ascending (key_type_p ∷ []) field_id) term)
          doc_id in
      if ltb 0 pos then c.encode_uint32_ascending key (pos % 2 ^ 32) else key

  unfoldable pub encode_index_position : Bytes → ℕ → Bytes → ℕ → ℕ → ℕ → Bytes × Bytes
  encode_index_position doc_id field_id term pos start end =
      let row = c.encode_int_value [] 0 pos in
      (
        encode_index_position_key doc_id field_id term pos,
        (if ltb 0 end then c.encode_int_value (c.encode_int_value row 1 start) 2 end else row),
      )

  unfoldable pub encode_field_term_abstract_key : Bytes → ℕ → Bytes
  encode_field_term_abstract_key doc_id field_id =
      let key = c.encode_bytes_ascending (key_type_t ∷ []) doc_id in
      if ltb 0 field_id then c.encode_uint32_ascending key field_id else key

  -- The loop of `encodeFieldTermAbstract`, from the term number `i` on; `uint32(i)` keeps the low
  -- 32 bits.
  unfoldable pub encode_terms : ℕ → Bytes → List Bytes → Bytes
  encode_terms i row [] = row
  encode_terms i row (term ∷ terms) =
      encode_terms (suc i) (c.encode_bytes_value row (i % 2 ^ 32) term) terms

  unfoldable pub encode_field_term_abstract :
      Bytes → ℕ → List Bytes → Result EncodingError (Bytes × Bytes)
  unfolding encode_terms
  encode_field_term_abstract doc_id field_id [] = err no_terms
  encode_field_term_abstract doc_id field_id (term ∷ terms) =
      ok (encode_field_term_abstract_key doc_id field_id, encode_terms 0 [] (term ∷ terms))

  unfoldable pub decode_field_term_abstract_key : Bytes → Result EncodingError (Bytes × ℕ)
  decode_field_term_abstract_key [] = err invalid_abstract_key
  decode_field_term_abstract_key (t ∷ key) =
      if leb (length (t ∷ key)) 1 || not (nat_beq t key_type_t)
      then err invalid_abstract_key
      else decode_doc_and_field key

  -- The loop of `decodeFieldTermAbstractValue` for at most `fuel` rounds: `none` when they do not do.
  unfoldable pub decode_terms : ℕ → Bytes → Option (Outcome (Result EncodingError (List Bytes)))
  decode_terms fuel [] = some (ret (ok []))
  decode_terms zero (b ∷ value) = none
  decode_terms (suc fuel) (b ∷ value) = elim (c.decode_bytes_value (b ∷ value)) [
    | panic ↦ some panic
    | ret none ↦ some (ret (err decode_error))
    | ret (some (rest, term)) ↦ elim (decode_terms fuel rest) [
      | none ↦ none
      | some panic ↦ some panic
      | some (ret (err e)) ↦ some (ret (err e))
      | some (ret (ok terms)) ↦ some (ret (ok (term ∷ terms)))
    ]
  ]

  -- A round takes at least a byte.
  unfoldable pub decode_field_term_abstract_value :
      Bytes → Option (Outcome (Result EncodingError (List Bytes)))
  unfolding decode_terms
  decode_field_term_abstract_value value = decode_terms (length value) value

unfoldable pub decode_store_field : ℕ → Bytes → Result EncodingError Field
unfolding field_type_outer
decode_store_field field_id [] = err invalid_field_row
decode_store_field field_id (t ∷ payload) =
    let field : Field = record {
      id = field_id;
      value_type = field_type_outer t;
      stored = false;
      payload = [];
    } in
    if nat_beq t field_type_n
    then ok field
    else if nat_beq (length payload) 0
    then err invalid_field_row
    else ok (record field { payload = payload })
