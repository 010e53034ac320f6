-- ===== src/SymHeap/Address.antt =====
-- `SymPtr`, which the heap hands out.
use openshmem_rs.Prelude.{ℕ}

-- An address in the symmetric heap that is not a raw pointer.
pub record SymPtr : Type 0 where
  pub addr : ℕ
