-- ===== src/Examples/Running.antt =====
-- The library's functions on a process that runs.
use openshmem_rs.Prelude.{ℕ, ◌≡◌, refl, ◌∷◌, some, arith}
use openshmem_rs.Error.{Result, ok, err, panic}
use openshmem_rs.Error.Convert.{from_ucx, map_err}
use openshmem_rs.Lock.{after, with_lock}
use openshmem_rs.World.{Services, History, worker_fenced}
use openshmem_rs.SymHeap
use openshmem_rs.SymHeap.{SymHeap, SymPtr}
use openshmem_rs.Init.{my_pe, n_pes, malloc, free, heap_base}
use openshmem_rs.Init.State.{
  ShmemState, Global, unlocked, lock_state, with_state, with_state_mut, reading, changing,
}
use openshmem_rs.Rma.{fence}

pub my_pe-running :
    (st : ShmemState) (g : History)
    → my_pe (unlocked (some st) g) ≡ (ok st.rank, unlocked (some st) g)
unfolding my_pe with_state lock_state with_lock reading
my_pe-running st g = refl

pub n_pes-running :
    (st : ShmemState) (g : History)
    → n_pes (unlocked (some st) g) ≡ (ok st.size, unlocked (some st) g)
unfolding n_pes with_state lock_state with_lock reading
n_pes-running st g = refl

-- `malloc` and `free` on a process that runs.
allocated :
    {A : Type 0} (st : ShmemState) (g : History) (r : Result A × SymHeap) {a : A} {m' : Global}
    → after (r.0, record { state = some (record st { heap = r.1 }); history = g }) ≡ (ok a, m')
    → (heap : SymHeap) × (r ≡ (ok a, heap)) × (m' ≡ unlocked (some (record st { heap = heap })) g)
allocated st g (ok b, heap) e = (heap, ground arith, ground arith)
allocated st g (err x, heap) e = absurd (ground arith)
allocated st g (panic, heap) e = absurd (ground arith)

pub malloc-running :
    (st : ShmemState) (g : History) (size : ℕ) (p : SymPtr) (m' : Global)
    → malloc size (unlocked (some st) g) ≡ (ok p, m')
    → (heap : SymHeap) × (SymHeap.malloc size st.heap ≡ (ok p, heap))
      × (m' ≡ unlocked (some (record st { heap = heap })) g)
unfolding malloc with_state_mut lock_state with_lock changing
malloc-running st g size p m' e = allocated st g (SymHeap.malloc size st.heap) e

pub free-running :
    (st : ShmemState) (g : History) (p : SymPtr) (m' : Global)
    → free p (unlocked (some st) g) ≡ (ok tt, m')
    → (heap : SymHeap) × (SymHeap.free p st.heap ≡ (ok tt, heap))
      × (m' ≡ unlocked (some (record st { heap = heap })) g)
unfolding free with_state_mut lock_state with_lock changing
free-running st g p m' e = allocated st g (SymHeap.free p st.heap) e

pub heap_base-running :
    (st : ShmemState) (g : History)
    → heap_base (unlocked (some st) g) ≡ (ok st.heap.local_base, unlocked (some st) g)
unfolding heap_base with_state lock_state with_lock reading
heap_base-running st g = refl

module _ (s : Services) where
  fenced :
      (st : ShmemState) (o : Result (Unit {0})) (g : History) {m' : Global}
      → after (o, record { state = some st; history = g }) ≡ (ok tt, m')
      → m' ≡ unlocked (some st) g
  fenced st (ok x) g e = ground arith
  fenced st (err x) g e = absurd (ground arith)
  fenced st panic g e = absurd (ground arith)

  pub fence-running :
      (st : ShmemState) (g : History) (m' : Global)
      → fence s (unlocked (some st) g) ≡ (ok tt, m')
      → m' ≡ unlocked (some st) (worker_fenced st.transport.worker ∷ g)
  unfolding fence with_state lock_state with_lock reading
  fence-running st g m' e =
      fenced st (map_err (from_ucx s.statuses) (s.ucx.worker_fence g st.transport.worker)) _ e
