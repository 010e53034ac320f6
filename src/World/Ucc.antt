-- ===== src/World/Ucc.antt =====
-- What src/coll.rs passes to UCC, by the names of ucc-rs.
use openshmem_rs.Prelude.{ℕ, List, Option}

pub data UccCollectiveType : Type 0 where
  barrier_type broadcast_type allgather_type allreduce_type : UccCollectiveType

-- `ucc::collective::DataType`, as far as it is used.
pub data DataType : Type 0 where
  uint8 int8 uint16 int16 uint32 int32 uint64 int64 float32 float64 : DataType

-- `UccReductionOp`: the operations that the crate names, and the others.
pub data UccReductionOp : Type 0 where
  sum min max band bor bxor : UccReductionOp
  other_op : ℕ → UccReductionOp

-- `with_inplace`, or `with_src` and `with_dst`.
pub data CollectiveBuffers : Type 0 where
  inplace : List ℕ → CollectiveBuffers
  src_dst : List ℕ → List ℕ → CollectiveBuffers

-- `CollectiveBuilder`, with what was set.
pub record CollectiveBuilder : Type 0 where
  pub collective_type : UccCollectiveType
  pub buffers : CollectiveBuffers
  pub count : ℕ
  pub dtype : Option DataType
  pub root : Option ℕ
  pub reduction_op : Option UccReductionOp
