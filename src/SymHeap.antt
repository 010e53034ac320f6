-- ===== src/SymHeap.antt =====
-- src/symheap.rs: the symmetric heap of one PE and its first-fit allocator.
-- `usize` and `u64` are both 64 bits wide, so the casts between them change nothing.
pub mod Address
pub mod Blocks
pub mod Cover
pub mod Coalesce
pub mod Canonical
pub mod Sorting
pub mod Carve
pub mod Live
pub mod Invariant
pub mod Grant
pub mod Malloc
pub mod Release
pub mod Roundtrip
pub mod Create
pub mod Runs
pub mod Spec
pub mod Refine
pub mod Pointer
mod Tests
pub mod PeerRkeys
pub mod Alloc
pub mod Twins
pub mod First
pub mod Symmetry
use Prim.Native.Nat.{bit_and}
use openshmem_rs.Prelude.{
  ℕ, ◌+◌, ◌-◌, ◌*◌, ◌/◌, ◌%◌, ◌^◌, Bool, true, false, not, ◌||◌, Option, none, some, List, [], ◌∷◌,
  ◌++◌, if◌then◌else◌, ltb, leb, ◌==◌, length, get_elem?, set, erase_idx, replicate, position,
  add_usize, checked_add, checked_sub, isize_limit, Outcome,
}
use openshmem_rs.Prelude.BTree
use openshmem_rs.Error.{Error, usage, Result, ok, err, panic, Exec, ok_or, ◌>>=◌, ◌>>◌}
use openshmem_rs.Error.Convert.{Statuses, from_ucx, map_err}
pub use Address.{SymPtr}
use Blocks.{Block, merge, sort_by_start}

abbrev pub alignment : ℕ
alignment = 8

-- `size_of::<u64>()`
abbrev pub word_size : ℕ
word_size = 8

abbrev pub default_heap_size : ℕ
default_heap_size = 64 * 1024 * 1024

-- `SymHeap`. `memh` stands for the handle of the registration with UCX, `region` for the words of
-- the heap, whose first has the address `local_base`.
pub record SymHeap : Type 0 where
  pub memh : ℕ
  pub region : List ℕ
  pub free_list : List Block
  pub allocations : List (ℕ × ℕ)
  pub packed_rkey : List ℕ
  pub local_base : ℕ

abbrev pub capacity : SymHeap → ℕ
capacity h = length h.region * word_size

-- What `with_size` asks of the global allocator and of UCX: the address of a fresh vector of `n`
-- words, `MemHandle::map` of an address and a length, and `pack_rkey`.
pub record Registration : Type 0 where
  pub vec_address : ℕ → ℕ
  pub map_region : ℕ → ℕ → Outcome ℕ
  pub pack_rkey : ℕ → Outcome (List ℕ)

-- The part of `with_size` behind the vector: the heap is registered with UCX.
unfoldable pub register : Statuses → Registration → ℕ → Result SymHeap
unfolding from_ucx
register s r words = do
  let total = words * word_size
  let base = r.vec_address words
  handle ← map_err (from_ucx s) (r.map_region base total)
  rkey ← map_err (from_ucx s) (r.pack_rkey handle)
  ok (record {
    memh = handle;
    region = replicate words 0;
    free_list = record { start = 0; len = total } ∷ [];
    allocations = [];
    packed_rkey = rkey;
    local_base = base;
  })

-- `vec![0_u64; words]` panics when its bytes pass `isize::MAX`.
unfoldable pub allocate : Statuses → Registration → ℕ → Result SymHeap
unfolding register
allocate s r words = if ltb (words * word_size) isize_limit then register s r words else panic

unfoldable pub with_size : Statuses → Registration → ℕ → Result SymHeap
unfolding allocate
with_size s r size =
    if ltb size alignment
    then err (usage "symmetric heap is too small")
    else elim (checked_add size (word_size - 1)) [
      | none ↦ err (usage "symmetric heap size overflow")
      | some rounded ↦ allocate s r (rounded / word_size)
    ]

-- `SymHeap::new`, given what `SHMEM_SYMMETRIC_SIZE` parses to, if it is set and does.
unfoldable pub new : Statuses → Registration → Option ℕ → Result SymHeap
new s r none = with_size s r default_heap_size
new s r (some size) = with_size s r size

-- `(size + 7) & !7`, unless the sum overflows.
unfoldable pub round_up : ℕ → Option ℕ
round_up size = elim (checked_add size (alignment - 1)) [
  | none ↦ none
  | some sum ↦ some (bit_and sum (2 ^ 64 - alignment))
]

-- The free list without the first `requested` bytes of the block at `index`.
unfoldable pub carve : List Block → ℕ → Block → ℕ → List Block
carve blocks index block requested =
    if block.len == requested
    then erase_idx blocks index
    else set blocks index
        (record { start = add_usize block.start requested; len = block.len - requested })

-- The part of `malloc` behind the search: `self.free[index]` panics out of range.
unfoldable pub take_block : ℕ → ℕ → Exec SymHeap SymPtr
unfolding carve
take_block requested index h = elim (get_elem? h.free_list index) [
  | none ↦ (panic, h)
  | some block ↦
      let address = add_usize h.local_base block.start in
      (
        ok (record { addr = address }),
        record h {
          free_list = carve h.free_list index block requested;
          allocations = BTree.insert address requested h.allocations;
        },
      )
]

abbrev pub fits : ℕ → Block → Bool
fits requested b = leb requested b.len

unfoldable pub malloc : ℕ → Exec SymHeap SymPtr
unfolding round_up take_block
malloc size h =
    if size == 0
    then (err (usage "symmetric allocation size must be nonzero"), h)
    else elim (round_up size) [
      | none ↦ (err (usage "symmetric allocation size overflow"), h)
      | some requested ↦ elim (position (fits requested) h.free_list) [
        | none ↦ (err (usage "symmetric heap exhausted"), h)
        | some index ↦ take_block requested index h
      ]
    ]

abbrev pub invalid_pointer : Error
invalid_pointer = usage "invalid symmetric pointer"

-- The range check of `free`: the end overflows or lies past the heap, or the start is unaligned.
unfoldable pub out_of_heap : SymHeap → ℕ → ℕ → Bool
out_of_heap h start len = elim (checked_add start len) [
  | none ↦ true
  | some end ↦ not (leb end (capacity h)) || not (start % alignment == 0)
]

-- The part of `free` behind the removal of the allocation.
unfoldable pub give_back : SymPtr → ℕ → Exec SymHeap (Unit {0})
unfolding out_of_heap
give_back ptr len h = elim (checked_sub ptr.addr h.local_base) [
  | none ↦ (err invalid_pointer, h)
  | some start ↦ if out_of_heap h start len then (err invalid_pointer, h) else (
    ok tt,
    record h {
      free_list = merge (sort_by_start (h.free_list ++ record { start = start; len = len } ∷ []));
    },
  )
]

unfoldable pub free : SymPtr → Exec SymHeap (Unit {0})
unfolding give_back
free ptr h = elim (BTree.get ptr.addr h.allocations) [
  | none ↦ (err invalid_pointer, h)
  | some len ↦ give_back ptr len (record h { allocations = BTree.erase ptr.addr h.allocations })
]
