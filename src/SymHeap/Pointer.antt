-- ===== src/SymHeap/Pointer.antt =====
-- `SymPtr`'s translation to a peer's heap.
pub mod Laws
use openshmem_rs.Prelude.{ℕ, checked_add, checked_sub}
use openshmem_rs.Error.{usage, Result, ok_or, ◌>>=◌}
use openshmem_rs.SymHeap.Address.{SymPtr}

-- `SymPtr::offset_from`
unfoldable pub offset_from : SymPtr → ℕ → Result ℕ
offset_from p local_base =
    ok_or (checked_sub p.addr local_base) (usage "pointer is below symmetric heap base")

-- The cast of a `usize` to `u64` keeps its value.
unfoldable pub offset_from_u64 : SymPtr → ℕ → Result ℕ
unfolding offset_from
offset_from_u64 p local_base = offset_from p local_base

-- `SymPtr::to_remote_addr`
unfoldable pub to_remote_addr : SymPtr → ℕ → ℕ → Result ℕ
unfolding offset_from_u64
to_remote_addr p local_base peer_base = do
  offset ← offset_from_u64 p local_base
  ok_or (checked_add peer_base offset) (usage "remote symmetric address overflow")
