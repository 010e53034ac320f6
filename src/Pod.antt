-- ===== src/Pod.antt =====
-- `Pod` of src/rma.rs, the scalars and their bytes, with the buffers of src/coll.rs.
pub mod Tests
pub mod Collective
pub mod Decode
use openshmem_rs.Prelude.{
  ℕ, zero, suc, ◌+◌, ◌*◌, ◌/◌, ◌%◌, ◌^◌, ◌<◌, ◌≡◌, refl, List, [], ◌∷◌, ◌++◌, Option, none, some,
  All, Bool-cases, Bool, true, false, inl, inr, length, length-append, ◌==◌, checked_mul,
  if◌then◌else◌, usize_mod, arith, reverse, ap, sym, ◌∙◌, ltb,
}
use mathlib.Core.Path.{subst}
use mathlib.Core.List.{reverse-cons, reverse-reverse}
use native.Mathlib.Numerals.{unary_clauses}
use openshmem_rs.Error.{Error, usage, internal, Result, ok, err, ok_or, ◌>>=◌}

-- The scalars of `pod_types!`. A value is its bit pattern, a number below `256 ^ SIZE`.
pub data Scalar : Type 0 where
  u8 i8 u16 i16 u32 i32 u64 i64 f32 f64 : Scalar

-- `SIZE`
abbrev pub size_of : Scalar → ℕ
size_of u8 = 1
size_of i8 = 1
size_of u16 = 2
size_of i16 = 2
size_of u32 = 4
size_of i32 = 4
size_of u64 = 8
size_of i64 = 8
size_of f32 = 4
size_of f64 = 8

-- The byte order of the target.
pub data Endian : Type 0 where
  little big : Endian

abbrev pub arrange : Endian → List ℕ → List ℕ
arrange little bytes = bytes
arrange big bytes = reverse bytes

-- The bytes of a number, the lowest first, and back.
unfoldable pub to_le_bytes : ℕ → ℕ → List ℕ
to_le_bytes zero value = []
to_le_bytes (suc n) value = value % 256 ∷ to_le_bytes n (value / 256)

unfoldable pub from_le_bytes : List ℕ → ℕ
from_le_bytes [] = 0
from_le_bytes (byte ∷ bytes) = byte + 256 * from_le_bytes bytes

pub length-to_le_bytes : (n value : ℕ) → length (to_le_bytes n value) ≡ n
unfolding to_le_bytes
length-to_le_bytes zero value = refl
length-to_le_bytes (suc n) value = omega (arith, length-to_le_bytes n (value / 256))

pub from_le_bytes-to_le_bytes :
    (n value : ℕ) → value < 256 ^ n → from_le_bytes (to_le_bytes n value) ≡ value
unfolding to_le_bytes from_le_bytes
from_le_bytes-to_le_bytes zero value small = omega arith
from_le_bytes-to_le_bytes (suc n) value small =
    let h : value < 256 ^ n * 256 = simp unary_clauses at small in
    omega (arith, from_le_bytes-to_le_bytes n (value / 256) (omega arith))

-- The first bytes of a buffer, and the others.
unfoldable pub take : ℕ → List ℕ → List ℕ
take zero bytes = []
take (suc n) [] = []
take (suc n) (byte ∷ bytes) = byte ∷ take n bytes

unfoldable pub drop : ℕ → List ℕ → List ℕ
drop zero bytes = bytes
drop (suc n) [] = []
drop (suc n) (byte ∷ bytes) = drop n bytes

pub take-append : (xs ys : List ℕ) → take (length xs) (xs ++ ys) ≡ xs
unfolding take
take-append [] ys = refl
take-append (x ∷ xs) ys = ap (λ l. x ∷ l) (take-append xs ys)

pub drop-append : (xs ys : List ℕ) → drop (length xs) (xs ++ ys) ≡ ys
unfolding drop
drop-append [] ys = refl
drop-append (x ∷ xs) ys = drop-append xs ys

pub length-reverse : (xs : List ℕ) → length (reverse xs) ≡ length xs
length-reverse [] = refl
length-reverse (x ∷ xs) =
    rw (reverse-cons x xs) (omega (arith, length-append (reverse xs) (x ∷ []), length-reverse xs))

arrange-arrange : (order : Endian) (bytes : List ℕ) → arrange order (arrange order bytes) ≡ bytes
arrange-arrange little bytes = refl
arrange-arrange big bytes = reverse-reverse bytes

length-arrange : (order : Endian) (bytes : List ℕ) → length (arrange order bytes) ≡ length bytes
length-arrange little bytes = refl
length-arrange big bytes = length-reverse bytes

module _ (order : Endian) where
  -- `Pod::encode`: `to_ne_bytes`, which the caller appends to its buffer.
  unfoldable pub encode_one : Scalar → ℕ → List ℕ
  encode_one ty value = arrange order (to_le_bytes (size_of ty) value)

  -- `Pod::decode`
  unfoldable pub decode_one : Scalar → List ℕ → Result ℕ
  decode_one ty bytes =
      if length bytes == size_of ty
      then ok (from_le_bytes (arrange order bytes))
      else err (internal "invalid typed RMA byte count")

  -- The bytes of a slice, which `encode` of the collectives writes value by value, and which
  -- `pod_as_bytes` views.
  unfoldable pub bytes_of : Scalar → List ℕ → List ℕ
  unfolding encode_one
  bytes_of ty [] = []
  bytes_of ty (value ∷ values) = encode_one ty value ++ bytes_of ty values

  -- `pod_as_bytes`. The test of `SIZE` against `size_of` cannot fail for these scalars.
  unfoldable pub pod_as_bytes : Scalar → List ℕ → Result (List ℕ)
  unfolding bytes_of
  pod_as_bytes ty values = elim (checked_mul (length values) (size_of ty)) [
    | none ↦ err (usage "typed RMA length overflow")
    | some len ↦ ok (bytes_of ty values)
  ]

  -- `encode` of the collectives
  unfoldable pub encode : Scalar → List ℕ → Result (List ℕ)
  unfolding bytes_of
  encode ty values = elim (checked_mul (length values) (size_of ty)) [
    | none ↦ err (usage "collective buffer size overflow")
    | some capacity ↦ ok (bytes_of ty values)
  ]

  -- `T::decode` on the first `count` chunks of `SIZE` bytes.
  unfoldable pub decode_chunks : Scalar → ℕ → List ℕ → Result (List ℕ)
  unfolding decode_one
  decode_chunks ty zero bytes = ok []
  decode_chunks ty (suc count) bytes = do
    value ← decode_one ty (take (size_of ty) bytes)
    values ← decode_chunks ty count (drop (size_of ty) bytes)
    ok (value ∷ values)

  -- `decode` of the collectives, into a slice of `count` values.
  unfoldable pub decode : Scalar → ℕ → List ℕ → Result (List ℕ)
  unfolding decode_chunks
  decode ty count bytes = elim (checked_mul count (size_of ty)) [
    | none ↦ err (usage "collective buffer size overflow")
    | some len ↦
        if length bytes == len
        then decode_chunks ty count bytes
        else err (usage "collective buffer has an invalid byte length")
  ]

  length-encode_one : (ty : Scalar) (value : ℕ) → length (encode_one ty value) ≡ size_of ty
  unfolding encode_one
  length-encode_one ty value =
      length-arrange order (to_le_bytes (size_of ty) value) ∙ length-to_le_bytes (size_of ty) value

  decode_one-encode_one :
      (ty : Scalar) (value : ℕ)
      → value < 256 ^ size_of ty
      → decode_one ty (encode_one ty value) ≡ ok value
  unfolding decode_one encode_one
  decode_one-encode_one ty value small =
      let long : (length (encode_one ty value) == size_of ty) ≡ true =
        ground (arith, length-encode_one ty value) in
      rw (
        long,
        arrange-arrange order (to_le_bytes (size_of ty) value),
        from_le_bytes-to_le_bytes (size_of ty) value small,
      )

  pub length-bytes_of :
      (ty : Scalar) (values : List ℕ) → length (bytes_of ty values) ≡ length values * size_of ty
  unfolding bytes_of
  length-bytes_of ty [] = omega arith
  length-bytes_of ty (value ∷ values) = omega (
    arith,
    length-append (encode_one ty value) (bytes_of ty values),
    length-encode_one ty value,
    length-bytes_of ty values,
  )

  pub length-encode :
      (ty : Scalar) (values bytes : List ℕ)
      → encode ty values ≡ ok bytes
      → length bytes ≡ length values * size_of ty
  unfolding encode
  length-encode ty values bytes e =
      let same : bytes_of ty values ≡ bytes = ground arith in
      subst (λ b. length b ≡ length values * size_of ty) same (length-bytes_of ty values)

  pub decode_chunks-bytes_of :
      (ty : Scalar) (values : List ℕ)
      → All (λ value. value < 256 ^ size_of ty) values
      → decode_chunks ty (length values) (bytes_of ty values) ≡ ok values
  unfolding decode_chunks bytes_of
  decode_chunks-bytes_of ty [] small = refl
  decode_chunks-bytes_of ty (value ∷ values) small =
      let first : take (size_of ty) (bytes_of ty (value ∷ values)) ≡ encode_one ty value =
        subst (λ n. take n (bytes_of ty (value ∷ values)) ≡ encode_one ty value)
          (length-encode_one ty value) (take-append (encode_one ty value) (bytes_of ty values)) in
      let others : drop (size_of ty) (bytes_of ty (value ∷ values)) ≡ bytes_of ty values =
        subst (λ n. drop n (bytes_of ty (value ∷ values)) ≡ bytes_of ty values)
          (length-encode_one ty value) (drop-append (encode_one ty value) (bytes_of ty values)) in
      rw (
        first,
        others,
        decode_one-encode_one ty value small.0,
        decode_chunks-bytes_of ty values small.1,
      )

  -- Of values that their type can hold, what `encode` returns has `SIZE` bytes for each, and `decode`
  -- reads it back into as many values, in either byte order.
  pub decode-encode :
      (ty : Scalar) (values bytes : List ℕ)
      → All (λ value. value < 256 ^ size_of ty) values
      → encode ty values ≡ ok bytes
      → (length bytes ≡ length values * size_of ty) × (decode ty (length values) bytes ≡ ok values)
  unfolding encode decode
  decode-encode ty values bytes small e =
      let same : bytes_of ty values ≡ bytes = ground arith in
      let fit : ltb (length values * size_of ty) usize_mod ≡ true = ground arith in
      let long = length-bytes_of ty values in
      let exact : (length (bytes_of ty values) == length values * size_of ty) ≡ true =
        ground (arith, long) in
      subst
        (λ b. (length b ≡ length values * size_of ty) × (decode ty (length values) b ≡ ok values))
        same (long, ground (arith, fit, exact, decode_chunks-bytes_of ty values small))
