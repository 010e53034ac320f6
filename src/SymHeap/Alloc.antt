-- ===== src/SymHeap/Alloc.antt =====
-- `SymAlloc`: the heap behind a mutex.
use openshmem_rs.Prelude.{ℕ, Option, false}
use openshmem_rs.Error.{Error, internal, Result, ok, Exec, ◌>>=◌}
use openshmem_rs.Error.Convert.{Statuses}
use openshmem_rs.Lock.{Mutex, with_lock}
use openshmem_rs.SymHeap.Address.{SymPtr}
use openshmem_rs.SymHeap
use openshmem_rs.SymHeap.{SymHeap, Registration}

abbrev pub SymAlloc : Type 0
SymAlloc = Mutex SymHeap

abbrev pub poisoned_heap : Error
poisoned_heap = internal "symmetric heap lock poisoned"

-- `SymAlloc::new`
unfoldable pub new : Statuses → Registration → Option ℕ → Result SymAlloc
unfolding SymHeap.new
new s r size = do heap ← SymHeap.new s r size; ok (record { poisoned = false; value = heap })

unfoldable pub malloc : ℕ → Exec SymAlloc SymPtr
malloc size = with_lock poisoned_heap (SymHeap.malloc size)

unfoldable pub free : SymPtr → Exec SymAlloc (Unit {0})
free ptr = with_lock poisoned_heap (SymHeap.free ptr)

unfoldable pub local_base : Exec SymAlloc ℕ
local_base = with_lock poisoned_heap (λ h. (ok h.local_base, h))
