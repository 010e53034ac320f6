-- ===== src/Pod/Tests.antt =====
-- A buffer of two 16-bit values, the most significant byte first.
use openshmem_rs.Prelude.{◌≡◌, ◌*◌, refl, [], ◌∷◌, arith}
use openshmem_rs.Error.{ok}
use openshmem_rs.Pod.{big, u16, size_of, to_le_bytes, encode, decode, decode-encode}

decode-encode_example :
    (4 ≡ 2 * size_of u16) × (decode big u16 2 (1 ∷ 2 ∷ 3 ∷ 4 ∷ []) ≡ ok (258 ∷ 772 ∷ []))
unfolding encode to_le_bytes
decode-encode_example =
    decode-encode big u16 (258 ∷ 772 ∷ []) (1 ∷ 2 ∷ 3 ∷ 4 ∷ []) (omega arith, (omega arith, tt))
      refl
