-- ===== src/Index/SmallCodec.antt =====
-- A codec that meets the laws: each value after its length.
use baud.Base.{
  ℕ, zero, suc, ◌+◌, ◌*◌, ◌/◌, ◌%◌, ◌^◌, ◌≡◌, ◌≤◌, ◌<◌, refl, Option, none, some, Outcome, ret,
  panic, [], ◌∷◌, ◌++◌, length, leb, arith, if◌then◌else◌,
}
use baud.Base.Bytes.{Bytes}
use baud.Index.Codec.{Codec, IsCodec}

abbrev take : ℕ → Bytes → Bytes
take zero xs = []
take (suc n) [] = []
take (suc n) (x ∷ xs) = x ∷ take n xs

abbrev drop : ℕ → Bytes → Bytes
drop zero xs = xs
drop (suc n) [] = []
drop (suc n) (x ∷ xs) = drop n xs

take-append : (xs ys : Bytes) → take (length xs) (xs ++ ys) ≡ xs
take-append [] ys = refl
take-append (x ∷ xs) ys = ground (arith, take-append xs ys)

drop-append : (xs ys : Bytes) → drop (length xs) (xs ++ ys) ≡ ys
drop-append [] ys = refl
drop-append (x ∷ xs) ys = drop-append xs ys

drop_shorter : (n : ℕ) (xs : Bytes) → length (drop n xs) ≤ length xs
drop_shorter zero xs = omega arith
drop_shorter (suc n) [] = omega arith
drop_shorter (suc n) (x ∷ xs) = omega (arith, drop_shorter n xs)

abbrev digits : ℕ → Bytes
digits v = v / 2 ^ 24 ∷ v / 2 ^ 16 % 256 ∷ v / 256 % 256 ∷ v % 256 ∷ []

abbrev number : Bytes → Option (Bytes × ℕ)
number (a ∷ b ∷ c ∷ d ∷ rest) = some (rest, a * 2 ^ 24 + b * 2 ^ 16 + c * 256 + d)
number _ = none

abbrev sized : Bytes → Option (Bytes × Bytes)
sized [] = none
sized (n ∷ rest) = some (drop n rest, take n rest)

-- A value that is cut off panics.
abbrev cut : Bytes → Outcome (Option (Bytes × Bytes))
cut [] = ret none
cut (n ∷ rest) = if leb n (length rest) then ret (some (drop n rest, take n rest)) else panic

abbrev terminated : Bytes → Option (Bytes × Bytes)
terminated [] = none
terminated (z ∷ rest) = sized rest

abbrev pub small_codec : Codec
small_codec = record {
  encode_bytes_ascending = λ b value. b ++ (0 ∷ length value ∷ value);
  encode_uint32_ascending = λ b v. b ++ digits v;
  encode_int_value = λ b col v. b ++ (col ∷ v ∷ []);
  encode_bytes_value = λ b col value. b ++ (length value ∷ value);
  decode_bytes_ascending = terminated;
  decode_uint32_ascending = number;
  decode_bytes_value = cut;
}

sized-append : (value rest : Bytes) → sized ((length value ∷ value) ++ rest) ≡ some (rest, value)
sized-append value rest = ground (arith, take-append value rest, drop-append value rest)

length-front : (xs ys : Bytes) → length xs ≤ length (xs ++ ys)
length-front [] ys = omega arith
length-front (x ∷ xs) ys = omega (arith, length-front xs ys)

cut-append : (value rest : Bytes) → cut ((length value ∷ value) ++ rest) ≡ ret (some (rest, value))
cut-append value rest =
    ground (arith, take-append value rest, drop-append value rest, length-front value rest)

cut_shortens : (b rest value : Bytes) → cut b ≡ ret (some (rest, value)) → length rest < length b
cut_shortens [] rest value e = absurd (ground (arith, e))
cut_shortens (n ∷ b) rest value e = ground (arith, e, drop_shorter n b)

number_short : (b : Bytes) → length b < 4 → number b ≡ none
number_short [] h = refl
number_short (a ∷ []) h = refl
number_short (a ∷ b ∷ []) h = refl
number_short (a ∷ b ∷ c ∷ []) h = refl
number_short (a ∷ b ∷ c ∷ d ∷ rest) h = absurd (omega arith)

digits_sum :
    (v : ℕ) → v / 2 ^ 24 * 2 ^ 24 + v / 2 ^ 16 % 256 * 2 ^ 16 + v / 256 % 256 * 256 + v % 256 ≡ v
digits_sum v = omega arith

pub small_codec-IsCodec : IsCodec small_codec
small_codec-IsCodec = record {
  append_bytes = λ b value. refl;
  append_uint32 = λ b v. refl;
  append_bytes_value = λ b col value. refl;
  decode_bytes = λ value rest. sized-append value rest;
  decode_uint32 = λ v rest h. rw (digits_sum v) refl;
  decode_value = λ col value rest. cut-append value rest;
  decode_short = number_short;
  bytes_terminated = λ value. omega arith;
  value_not_empty = λ col value. omega arith;
  value_shortens = cut_shortens;
}
