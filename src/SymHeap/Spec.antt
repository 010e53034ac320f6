-- ===== src/SymHeap/Spec.antt =====
-- An abstract allocator, without a free list: what is live, and what each call may answer.
use openshmem_rs.Prelude.{
  ℕ, ◌+◌, ◌-◌, ◌%◌, ◌≤◌, ◌<◌, ◌≡◌, ◌⊎◌, List, [], ◌∷◌, Option, none, some, if◌then◌else◌, ◌==◌,
  usize_mod,
}
use openshmem_rs.SymHeap.Address.{SymPtr}
use openshmem_rs.SymHeap.Carve.{Rounded}
use openshmem_rs.SymHeap.Runs.{Call, mallocs, frees}

-- The length of the allocation at an address.
abbrev pub View : Type 0
View = ℕ → Option ℕ

pub data Answer : Type 0 where
  granted : ℕ → Answer
  freed : Answer
  refused : Answer
  crashed : Answer

-- No live allocation has a byte of the range.
abbrev pub IsFree : View → ℕ → ℕ → Type 0
IsFree v address len = (a l : ℕ) → v a ≡ some l → (a + l ≤ address) ⊎ (address + len ≤ a)

-- A call on a heap at `base`, of `capacity` bytes: what was live, the answer, and what is live then.
pub data Step (base capacity : ℕ) : View → Call → Answer → View → Type 0 where
  -- A free, aligned range inside the heap becomes live.
  gives :
      {v v' : View} {size requested address : ℕ}
      → 0 < size
      → Rounded size requested
      → base ≤ address
      → (address - base) % 8 ≡ 0
      → address + requested ≤ base + capacity
      → IsFree v address requested
      → ((a : ℕ) → v' a ≡ (if address == a then some requested else v a))
      → Step base capacity v (mallocs size) (granted address) v'
  bad_size :
      {v : View} {size : ℕ}
      → (size ≡ 0) ⊎ (usize_mod ≤ size + 7)
      → Step base capacity v (mallocs size) refused v
  -- There is no free range that is long enough, aligned or not.
  no_room :
      {v : View} {size requested : ℕ}
      → Rounded size requested
      → ((address : ℕ)
          → base ≤ address
          → address + requested ≤ base + capacity
          → IsFree v address requested
          → ⊥)
      → Step base capacity v (mallocs size) refused v
  takes :
      {v v' : View} {p : SymPtr} {len : ℕ}
      → v p.addr ≡ some len
      → ((a : ℕ) → v' a ≡ (if p.addr == a then none else v a))
      → Step base capacity v (frees p) freed v'
  rejects : {v : View} {p : SymPtr} → v p.addr ≡ none → Step base capacity v (frees p) refused v

-- The same of a history of calls.
pub data Trace (base capacity : ℕ) : View → List Call → List Answer → View → Type 0 where
  stop : {v : View} → Trace base capacity v [] [] v
  next :
      {v v' w : View} {c : Call} {cs : List Call} {a : Answer} {answers : List Answer}
      → Step base capacity v c a v'
      → Trace base capacity v' cs answers w
      → Trace base capacity v (c ∷ cs) (a ∷ answers) w
