-- ===== src/Index/Codec.antt =====
-- What engine/kernel/index/indexImpl/encoding.go calls of util/encoding, the code of another project:
-- a parameter, with what its comments promise as laws.
use baud.Base.{ℕ, ◌^◌, ◌≡◌, ◌≤◌, ◌<◌, Option, none, some, Outcome, ret, [], ◌++◌, length}
use baud.Base.Bytes.{Bytes}

-- The encoders append to the buffer that they are given. A decoder returns the remainder and the
-- value; `none` is an error. `DecodeBytesValue` cuts its argument at the length that it reads there, and
-- panics when the argument is shorter.
pub record Codec : Type 0 where
  pub encode_bytes_ascending : Bytes → Bytes → Bytes
  pub encode_uint32_ascending : Bytes → ℕ → Bytes
  pub encode_int_value : Bytes → ℕ → ℕ → Bytes
  pub encode_bytes_value : Bytes → ℕ → Bytes → Bytes
  pub decode_bytes_ascending : Bytes → Option (Bytes × Bytes)
  pub decode_uint32_ascending : Bytes → Option (Bytes × ℕ)
  pub decode_bytes_value : Bytes → Outcome (Option (Bytes × Bytes))

pub record IsCodec (c : Codec) : Type 0 where
  -- "The encoded bytes are append to the supplied buffer."
  pub append_bytes :
      (b value : Bytes) → c.encode_bytes_ascending b value ≡ b ++ c.encode_bytes_ascending [] value
  pub append_uint32 :
      (b : Bytes) (v : ℕ) → c.encode_uint32_ascending b v ≡ b ++ c.encode_uint32_ascending [] v
  pub append_bytes_value :
      (b : Bytes) (col : ℕ) (value : Bytes)
      → c.encode_bytes_value b col value ≡ b ++ c.encode_bytes_value [] col value
  -- A decoder returns the encoded value and the remainder of the buffer.
  pub decode_bytes :
      (value rest : Bytes)
      → c.decode_bytes_ascending (c.encode_bytes_ascending [] value ++ rest) ≡ some (rest, value)
  pub decode_uint32 :
      (v : ℕ) (rest : Bytes)
      → v < 2 ^ 32
      → c.decode_uint32_ascending (c.encode_uint32_ascending [] v ++ rest) ≡ some (rest, v)
  pub decode_value :
      (col : ℕ) (value rest : Bytes)
      → c.decode_bytes_value (c.encode_bytes_value [] col value ++ rest) ≡ ret (some (rest, value))
  -- "Insufficient bytes to decode uint32": it has no value in fewer than four bytes.
  pub decode_short : (b : Bytes) → length b < 4 → c.decode_uint32_ascending b ≡ none
  -- "The encoded value is terminated with the sequence \x00\x01"; a value has a tag.
  pub bytes_terminated : (value : Bytes) → 2 ≤ length (c.encode_bytes_ascending [] value)
  pub value_not_empty : (col : ℕ) (value : Bytes) → 0 < length (c.encode_bytes_value [] col value)
  -- The remainder of a decoded value starts after its tag.
  pub value_shortens :
      (b rest value : Bytes)
      → c.decode_bytes_value b ≡ ret (some (rest, value))
      → length rest < length b
