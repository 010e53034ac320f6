-- ===== src/Pod/Collective.antt =====
-- What `pod_types!` in src/rma.rs gives the collectives: data types and supported reductions; and how
-- src/coll.rs reads collected bytes.
use openshmem_rs.Prelude.{ℕ, zero, suc, ◌/◌, ◌++◌, List, [], length, Bool, true, false}
use openshmem_rs.Error.{Result, ok, ◌>>=◌}
use openshmem_rs.World.Ucc.{
  DataType, uint8, int8, uint16, int16, uint32, int32, uint64, int64, float32, float64,
  UccReductionOp, sum, min, max, band, bor, bxor, other_op,
}
use openshmem_rs.Pod.{
  Endian, size_of, take, drop, decode_chunks, Scalar, u8, i8, u16, i16, u32, i32, u64, i64, f32,
  f64,
}

unfoldable pub ucc_datatype : Scalar → DataType
ucc_datatype u8 = uint8
ucc_datatype i8 = int8
ucc_datatype u16 = uint16
ucc_datatype i16 = int16
ucc_datatype u32 = uint32
ucc_datatype i32 = int32
ucc_datatype u64 = uint64
ucc_datatype i64 = int64
ucc_datatype f32 = float32
ucc_datatype f64 = float64

-- The reductions of the integers, and those of the floating-point types.
unfoldable pub on_integers : UccReductionOp → Bool
on_integers sum = true
on_integers min = true
on_integers max = true
on_integers band = true
on_integers bor = true
on_integers bxor = true
on_integers (other_op n) = false

unfoldable pub on_floats : UccReductionOp → Bool
on_floats sum = true
on_floats min = true
on_floats max = true
on_floats band = false
on_floats bor = false
on_floats bxor = false
on_floats (other_op n) = false

unfoldable pub reduction_supported : Scalar → UccReductionOp → Bool
unfolding on_integers on_floats
reduction_supported u8 op = on_integers op
reduction_supported i8 op = on_integers op
reduction_supported u16 op = on_integers op
reduction_supported i16 op = on_integers op
reduction_supported u32 op = on_integers op
reduction_supported i32 op = on_integers op
reduction_supported u64 op = on_integers op
reduction_supported i64 op = on_integers op
reduction_supported f32 op = on_floats op
reduction_supported f64 op = on_floats op

-- `T::decode` on chunks of `SIZE` bytes, as many as there are.
unfoldable pub decode_all : Endian → Scalar → List ℕ → Result (List ℕ)
unfolding decode_chunks
decode_all order ty bytes = decode_chunks order ty (length bytes / size_of ty) bytes

-- The same on the first `count` chunks of `len` bytes, flattened.
unfoldable pub decode_parts : Endian → Scalar → ℕ → ℕ → List ℕ → Result (List ℕ)
unfolding decode_all
decode_parts order ty len zero bytes = ok []
decode_parts order ty len (suc count) bytes = do
  part ← decode_all order ty (take len bytes)
  parts ← decode_parts order ty len count (drop len bytes)
  ok (part ++ parts)
