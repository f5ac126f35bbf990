-- ===== src/Index/Encoding/Rows.antt =====
-- The rows of fields and of their terms, decoded.
use baud.Base.{
  ℕ, zero, suc, ◌%◌, ◌^◌, ◌≡◌, ◌≤◌, ◌<◌, refl, sym, ap, ◌∙◌, Bool, true, false, none, some, List,
  [], ◌∷◌, ◌++◌, ltb, nat_beq, arith, Result, ok, err, Outcome, ret, panic, length, length-append,
  Outcome-cases, inl, inr, if◌then◌else◌,
}
use mathlib.Core.List.{append_assoc, append-nil}
use baud.Base.Bytes.{Bytes}
use baud.Index.Codec.{Codec, IsCodec}
use baud.Index.Encoding.{
  ValueType, null_value, unknown_value, other_value, Field, EncodingError, invalid_field_row,
  encode_store_field_key, encode_store_field, decode_store_field, field_type_inner,
  field_type_outer, field_type_n, decode_error, string_value, int_value, float_value, decimal_value,
  bool_value, time_value, blob_value, encode_terms, decode_terms, encode_field_term_abstract,
  decode_field_term_abstract_value, encode_field_term_abstract_key,
}

abbrev pub is_null : ValueType → Bool
is_null null_value = true
is_null _ = false

-- A type that the code does not name is read back as the unknown type.
abbrev pub known : ValueType → ValueType
known (other_value n) = unknown_value
known t = t

-- What a row of a field says of it.
abbrev pub read_back : Field → Result EncodingError Field
read_back f =
    if is_null f.value_type
    then ok (record { id = f.id; value_type = null_value; stored = false; payload = [] })
    else if nat_beq (length f.payload) 0
    then err invalid_field_row
    else ok
        (record { id = f.id; value_type = known f.value_type; stored = false; payload = f.payload })

type_back : (t : ValueType) → field_type_outer (field_type_inner t) ≡ known t
unfolding field_type_inner field_type_outer
type_back string_value = refl
type_back int_value = refl
type_back float_value = refl
type_back decimal_value = refl
type_back bool_value = refl
type_back null_value = refl
type_back time_value = refl
type_back blob_value = refl
type_back unknown_value = refl
type_back (other_value n) = refl

null_byte : (t : ValueType) → nat_beq (field_type_inner t) field_type_n ≡ is_null t
unfolding field_type_inner
null_byte string_value = refl
null_byte int_value = refl
null_byte float_value = refl
null_byte decimal_value = refl
null_byte bool_value = refl
null_byte null_value = refl
null_byte time_value = refl
null_byte blob_value = refl
null_byte unknown_value = refl
null_byte (other_value n) = refl

null_known : (t : ValueType) → is_null t ≡ true → known t ≡ null_value
null_known null_value h = refl
null_known t h = absurd (ground (arith, h))

decode_row :
    (id : ℕ) (t : ValueType) (stored : Bool) (payload : Bytes)
    → decode_store_field id (field_type_inner t ∷ (if ltb 0 (length payload) then payload else []))
      ≡ read_back (record { id = id; value_type = t; stored = stored; payload = payload })
unfolding decode_store_field
decode_row id t stored [] = ground (arith, type_back t, null_byte t, null_known t)
decode_row id t stored (b ∷ payload) = ground (arith, type_back t, null_byte t, null_known t)

module _ (c : Codec) (laws : IsCodec c) where
  -- A stored field gets the key of its document and number, and its row is read back as the field
  -- with its number, type and bytes; a null field loses its bytes, a type that the code does not name
  -- becomes unknown, and the row of a field of any other type without bytes is an error.
  pub store_field_round_trip :
      (doc_id : Bytes) (field : Field)
      → field.stored ≡ true
      → (row : Bytes) × (encode_store_field c doc_id field
          ≡ some (encode_store_field_key c doc_id field.id, row))
        × (decode_store_field field.id row ≡ read_back field)
  unfolding encode_store_field
  store_field_round_trip doc_id field h = (
    field_type_inner field.value_type
        ∷ (if ltb 0 (length field.payload) then field.payload else []),
    rw h refl,
    decode_row field.id field.value_type field.stored field.payload,
  )

  encode_terms-append :
      (i : ℕ) (row : Bytes) (terms : List Bytes)
      → encode_terms c i row terms ≡ row ++ encode_terms c i [] terms
  unfolding encode_terms
  encode_terms-append i row [] = sym (append-nil row)
  encode_terms-append i row (term ∷ terms) =
      let n = i % 2 ^ 32 in
      let one = c.encode_bytes_value [] n term in
      rw
        (
          laws.append_bytes_value row n term,
          encode_terms-append (suc i) (row ++ one) terms,
          encode_terms-append (suc i) one terms,
        )
        (append_assoc row one (encode_terms c (suc i) [] terms))

  -- Terms before the rest of the result.
  abbrev pub and_terms :
      List Bytes
      → Outcome (Result EncodingError (List Bytes))
      → Outcome (Result EncodingError (List Bytes))
  and_terms terms panic = panic
  and_terms terms (ret (err e)) = ret (err e)
  and_terms terms (ret (ok more)) = ret (ok (terms ++ more))

  decode_terms_step :
      (fuel : ℕ) (value rest term : Bytes) (r : Outcome (Result EncodingError (List Bytes)))
      → c.decode_bytes_value value ≡ ret (some (rest, term))
      → 0 < length value
      → decode_terms c fuel rest ≡ some r
      → decode_terms c (suc fuel) value ≡ some (and_terms (term ∷ []) r)
  unfolding decode_terms
  decode_terms_step fuel [] rest term r e h q = absurd (omega arith)
  decode_terms_step fuel (b ∷ value) rest term panic e h q = rw (decode_terms, e, q) refl
  decode_terms_step fuel (b ∷ value) rest term (ret (ok terms)) e h q = rw (decode_terms, e, q) refl
  decode_terms_step fuel (b ∷ value) rest term (ret (err f)) e h q = rw (decode_terms, e, q) refl

  no_terms : (r : Outcome (Result EncodingError (List Bytes))) → r ≡ and_terms [] r
  no_terms panic = refl
  no_terms (ret (err e)) = refl
  no_terms (ret (ok more)) = refl

  and_terms_step :
      (term : Bytes) (terms : List Bytes) (r : Outcome (Result EncodingError (List Bytes)))
      → and_terms (term ∷ []) (and_terms terms r) ≡ and_terms (term ∷ terms) r
  and_terms_step term terms panic = refl
  and_terms_step term terms (ret (err e)) = refl
  and_terms_step term terms (ret (ok more)) = refl

  -- With a byte of fuel for each byte, decoding ends, and more fuel changes nothing.
  decode_terms_enough :
      (fuel more : ℕ) (value : Bytes)
      → length value ≤ fuel
      → fuel ≤ more
      → (r : Outcome (Result EncodingError (List Bytes))) × (decode_terms c fuel value ≡ some r)
        × (decode_terms c more value ≡ some r)
  unfolding decode_terms
  decode_terms_enough fuel more [] h k = (ret (ok []), refl, refl)
  decode_terms_enough zero more (b ∷ value) h k = absurd (omega arith)
  decode_terms_enough (suc fuel) zero (b ∷ value) h k = absurd (omega arith)
  decode_terms_enough (suc fuel) (suc more) (b ∷ value) h k =
      elim (Outcome-cases (c.decode_bytes_value (b ∷ value))) [
        | inl e ↦ (panic, rw (decode_terms, e) refl, rw (decode_terms, e) refl)
        | inr (none, e) ↦
            (ret (err decode_error), rw (decode_terms, e) refl, rw (decode_terms, e) refl)
        | inr (some (rest, term), e) ↦
            let shorter = laws.value_shortens (b ∷ value) rest term e in
            let (r, q, s) = decode_terms_enough fuel more rest (omega arith) (omega arith) in
            (
              and_terms (term ∷ []) r,
              decode_terms_step fuel (b ∷ value) rest term r e (omega arith) q,
              decode_terms_step more (b ∷ value) rest term r e (omega arith) s,
            )
      ]

  decode-encode_terms :
      (fuel i : ℕ) (terms : List Bytes) (tail : Bytes)
      (r : Outcome (Result EncodingError (List Bytes)))
      → length (encode_terms c i [] terms ++ tail) ≤ fuel
      → decode_field_term_abstract_value c tail ≡ some r
      → decode_terms c fuel (encode_terms c i [] terms ++ tail) ≡ some (and_terms terms r)
  unfolding encode_terms decode_field_term_abstract_value
  decode-encode_terms fuel i [] tail r h q =
      let (s, a, b) = decode_terms_enough (length tail) fuel tail (omega arith) h in
      let same : some s ≡ some r = sym a ∙ q in b ∙ same ∙ ap some (no_terms r)
  decode-encode_terms zero i (term ∷ terms) tail r h q =
      let n = i % 2 ^ 32 in
      let one = c.encode_bytes_value [] n term in
      let later = encode_terms c (suc i) [] terms in
      absurd (
        ground (
          arith,
          h,
          encode_terms-append (suc i) one terms,
          laws.value_not_empty n term,
          length-append (one ++ later) tail,
          length-append one later,
        ))
  decode-encode_terms (suc fuel) i (term ∷ terms) tail r h q =
      let n = i % 2 ^ 32 in
      let one = c.encode_bytes_value [] n term in
      let later = encode_terms c (suc i) [] terms in
      let whole : encode_terms c i [] (term ∷ terms) ++ tail ≡ one ++ (later ++ tail) =
        ap (λ k. k ++ tail) (encode_terms-append (suc i) one terms) ∙ append_assoc one later tail in
      let size = length-append one (later ++ tail) in
      let some_byte = laws.value_not_empty n term in
      let fits : length (later ++ tail) ≤ fuel = ground (arith, h, whole, size, some_byte) in
      rw whole (
        decode_terms_step fuel (one ++ (later ++ tail)) (later ++ tail) term (and_terms terms r)
          (laws.decode_value n term (later ++ tail)) (omega (arith, size, some_byte))
          (decode-encode_terms fuel (suc i) terms tail r fits q)
        ∙ ap some (and_terms_step term terms r))

  -- The terms of a field are encoded, when there are any, under the key of the document and the field,
  -- and the row is decoded to the same terms in the same order.
  pub terms_round_trip :
      (doc_id : Bytes) (field_id : ℕ) (term : Bytes) (terms : List Bytes)
      → (row : Bytes) × (encode_field_term_abstract c doc_id field_id (term ∷ terms)
          ≡ ok (encode_field_term_abstract_key c doc_id field_id, row))
        × (decode_field_term_abstract_value c row ≡ some (ret (ok (term ∷ terms))))
  unfolding encode_field_term_abstract decode_field_term_abstract_value decode_terms
  terms_round_trip doc_id field_id term terms =
      let row = encode_terms c 0 [] (term ∷ terms) in
      let whole = append-nil row in
      let back =
        decode-encode_terms (length row) 0 (term ∷ terms) [] (ret (ok [])) (rw whole (omega arith))
          refl in
      (
        row,
        refl,
        ap (decode_terms c (length row)) (sym whole)
            ∙ back
            ∙ ap (λ ts. some (ret (ok ts))) (append-nil (term ∷ terms)),
      )

  decode_terms-append :
      (terms : List Bytes) (tail : Bytes) (r : Outcome (Result EncodingError (List Bytes)))
      → decode_field_term_abstract_value c tail ≡ some r
      → decode_field_term_abstract_value c (encode_terms c 0 [] terms ++ tail)
        ≡ some (and_terms terms r)
  unfolding decode_field_term_abstract_value
  decode_terms-append terms tail r h =
      decode-encode_terms (length (encode_terms c 0 [] terms ++ tail)) 0 terms tail r (omega arith)
        h

  -- Decoding ends on any bytes, in terms, an error or a panic; with terms encoded before the bytes it
  -- gives these terms first, or the same error or panic.
  pub decode_terms_tail :
      (terms : List Bytes) (tail : Bytes)
      → (r : Outcome (Result EncodingError (List Bytes))) × (decode_field_term_abstract_value c tail
          ≡ some r)
        × (decode_field_term_abstract_value c (encode_terms c 0 [] terms ++ tail)
            ≡ some (and_terms terms r))
  unfolding decode_field_term_abstract_value
  decode_terms_tail terms tail =
      let (r, e, more) =
        decode_terms_enough (length tail) (length tail) tail (omega arith) (omega arith) in
      (r, e, decode_terms-append terms tail r e)

  -- A row of terms with more bytes behind them, where reading the next value panics, as it does in
  -- util/encoding when the bytes of the value are cut off: decoding the row panics.
  pub cut_row_panics :
      (terms : List Bytes) (b : ℕ) (tail : Bytes)
      → c.decode_bytes_value (b ∷ tail) ≡ panic
      → decode_field_term_abstract_value c (encode_terms c 0 [] terms ++ (b ∷ tail)) ≡ some panic
  unfolding decode_field_term_abstract_value decode_terms
  cut_row_panics terms b tail e =
      decode_terms-append terms (b ∷ tail) panic (rw (decode_terms, e) refl)
