-- ===== src/Pod/Decode.antt =====
-- Decoding of a buffer that is long enough: what it gives, and that parts decode to the parts of it.
use native.Mathlib.Nat.{mul-div_cancel}
use openshmem_rs.Prelude.{
  ℕ, zero, suc, ◌+◌, ◌*◌, ◌/◌, ◌<◌, ◌≤◌, ◌≡◌, refl, sym, ap, ◌∙◌, ◌^◌, All, List, [], ◌∷◌, ◌++◌,
  length, true, ◌==◌, arith, usize_mod, ltb,
}
use openshmem_rs.Error.{ok}
use openshmem_rs.Pod.{
  Endian, Scalar, u8, i8, u16, i16, u32, i32, u64, i64, f32, f64, size_of, arrange, from_le_bytes,
  take, drop, decode_one, decode_chunks, decode, bytes_of, length-bytes_of, decode_chunks-bytes_of,
}
use openshmem_rs.Pod.Collective.{decode_all, decode_parts}

length-take : (n : ℕ) (bytes : List ℕ) → n ≤ length bytes → length (take n bytes) ≡ n
unfolding take
length-take zero bytes enough = refl
length-take (suc n) [] enough = absurd (omega arith)
length-take (suc n) (b ∷ bytes) enough = omega (arith, length-take n bytes (omega arith))

pub length-drop :
    (n : ℕ) (bytes : List ℕ) → n ≤ length bytes → n + length (drop n bytes) ≡ length bytes
unfolding drop
length-drop zero bytes enough = omega arith
length-drop (suc n) [] enough = absurd (omega arith)
length-drop (suc n) (b ∷ bytes) enough = omega (arith, length-drop n bytes (omega arith))

take-take : (n m : ℕ) (bytes : List ℕ) → n ≤ m → take n (take m bytes) ≡ take n bytes
unfolding take
take-take zero m bytes below = refl
take-take (suc n) zero bytes below = absurd (omega arith)
take-take (suc n) (suc m) [] below = refl
take-take (suc n) (suc m) (b ∷ bytes) below = ap (λ l. b ∷ l) (take-take n m bytes (omega arith))

take_nothing : (n : ℕ) → take n [] ≡ []
unfolding take
take_nothing zero = refl
take_nothing (suc n) = refl

drop_nothing : (n : ℕ) → drop n [] ≡ []
unfolding drop
drop_nothing zero = refl
drop_nothing (suc n) = refl

drop-take : (n k m : ℕ) (bytes : List ℕ) → m ≡ n + k → drop n (take m bytes) ≡ take k (drop n bytes)
unfolding take drop
drop-take zero k m bytes e = ap (λ x. take x bytes) (omega arith)
drop-take (suc n) k zero bytes e = absurd (omega arith)
drop-take (suc n) k (suc m) [] e = sym (take_nothing k)
drop-take (suc n) k (suc m) (b ∷ bytes) e = drop-take n k m bytes (omega arith)

drop-drop : (n k m : ℕ) (bytes : List ℕ) → m ≡ n + k → drop m bytes ≡ drop k (drop n bytes)
unfolding drop
drop-drop zero k m bytes e = ap (λ x. drop x bytes) (omega arith)
drop-drop (suc n) k zero bytes e = absurd (omega arith)
drop-drop (suc n) k (suc m) [] e = sym (drop_nothing k)
drop-drop (suc n) k (suc m) (b ∷ bytes) e = drop-drop n k m bytes (omega arith)

size_of-positive : (ty : Scalar) → 0 < size_of ty
size_of-positive u8 = omega arith
size_of-positive i8 = omega arith
size_of-positive u16 = omega arith
size_of-positive i16 = omega arith
size_of-positive u32 = omega arith
size_of-positive i32 = omega arith
size_of-positive u64 = omega arith
size_of-positive i64 = omega arith
size_of-positive f32 = omega arith
size_of-positive f64 = omega arith

pub some_bytes : (ty : Scalar) (n : ℕ) → 0 < n → 0 < n * size_of ty
some_bytes ty zero some_value = absurd (omega arith)
some_bytes ty (suc n) some_value = omega (arith, size_of-positive ty)

module _ (order : Endian) (ty : Scalar) where
  -- The values of the first `count` chunks.
  unfoldable pub values_of : ℕ → List ℕ → List ℕ
  values_of zero bytes = []
  values_of (suc count) bytes =
      from_le_bytes (arrange order (take (size_of ty) bytes))
      ∷ values_of count (drop (size_of ty) bytes)

  pub decode_chunks-total :
      (count : ℕ) (bytes : List ℕ)
      → count * size_of ty ≤ length bytes
      → decode_chunks order ty count bytes ≡ ok (values_of count bytes)
  unfolding decode_chunks values_of decode_one
  decode_chunks-total zero bytes enough = refl
  decode_chunks-total (suc count) bytes enough =
      let first : (length (take (size_of ty) bytes) == size_of ty) ≡ true =
        ground (arith, length-take (size_of ty) bytes (omega arith)) in
      rw (
        first,
        decode_chunks-total count (drop (size_of ty) bytes)
            (omega (arith, length-drop (size_of ty) bytes (omega arith))),
      )

  pub length-values_of : (count : ℕ) (bytes : List ℕ) → length (values_of count bytes) ≡ count
  unfolding values_of
  length-values_of zero bytes = refl
  length-values_of (suc count) bytes =
      omega (arith, length-values_of count (drop (size_of ty) bytes))

  pub decode-total :
      (count : ℕ) (bytes : List ℕ)
      → length bytes ≡ count * size_of ty
      → count * size_of ty < usize_mod
      → decode order ty count bytes ≡ ok (values_of count bytes)
  unfolding decode
  decode-total count bytes long small =
      let fit : ltb (count * size_of ty) usize_mod ≡ true = ground arith in
      let exact : (length bytes == count * size_of ty) ≡ true = ground arith in
      ground (arith, fit, exact, decode_chunks-total count bytes (omega arith))

  values_of-plus :
      (a b c n : ℕ) (bytes : List ℕ)
      → c ≡ a + b
      → n ≡ a * size_of ty
      → values_of c bytes ≡ values_of a (take n bytes) ++ values_of b (drop n bytes)
  unfolding values_of take drop
  values_of-plus zero b c n bytes e f =
      let none_taken : n ≡ 0 = omega arith in
      let same : c ≡ b = omega arith in rw (same, none_taken)
  values_of-plus (suc a) b zero n bytes e f = absurd (omega arith)
  values_of-plus (suc a) b (suc c) n bytes e f =
      let whole : n ≡ size_of ty + a * size_of ty = omega arith in
      rw (
        take-take (size_of ty) n bytes (omega arith),
        drop-take (size_of ty) (a * size_of ty) n bytes whole,
        drop-drop (size_of ty) (a * size_of ty) n bytes whole,
        values_of-plus a b c (a * size_of ty) (drop (size_of ty) bytes) (omega arith) refl,
      )

  quotient : (n : ℕ) → n * size_of ty / size_of ty ≡ n
  quotient n = mul-div_cancel n (size_of-positive ty)

  pub decode_all-total :
      (n : ℕ) (bytes : List ℕ)
      → length bytes ≡ n * size_of ty
      → decode_all order ty bytes ≡ ok (values_of n bytes)
  unfolding decode_all
  decode_all-total n bytes e =
      let chunks : length bytes / size_of ty ≡ n = rw (e, quotient n) in
      rw (chunks, decode_chunks-total n bytes (omega arith))

  -- Reading parts of `len` bytes one by one is reading their bytes at once.
  pub decode_parts-total :
      (count n len : ℕ) (bytes : List ℕ)
      → len ≡ n * size_of ty
      → length bytes ≡ count * len
      → decode_parts order ty len count bytes ≡ ok (values_of (count * n) bytes)
  unfolding decode_parts values_of
  decode_parts-total zero n len bytes e f = let nothing : 0 * n ≡ 0 = omega arith in rw nothing
  decode_parts-total (suc count) n len bytes e f =
      let long : len ≤ length bytes = omega arith in
      rw
        (
          decode_all-total n (take len bytes) (omega (arith, length-take len bytes long)),
          decode_parts-total count n len (drop len bytes) e
              (omega (arith, length-drop len bytes long)),
        )
        (ap ok (sym (values_of-plus n (count * n) (suc count * n) len bytes (omega arith) e)))

  -- The values of the bytes of values are those values.
  pub values_of-bytes_of :
      (values : List ℕ)
      → All (λ value. value < 256 ^ size_of ty) values
      → values_of (length values) (bytes_of order ty values) ≡ values
  values_of-bytes_of values small =
      let long = length-bytes_of order ty values in
      let same : ok (values_of (length values) (bytes_of order ty values)) ≡ ok values =
        sym (decode_chunks-total (length values) (bytes_of order ty values) (omega arith))
        ∙ decode_chunks-bytes_of order ty values small in
      cc
