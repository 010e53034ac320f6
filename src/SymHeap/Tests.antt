-- ===== src/SymHeap/Tests.antt =====
-- Runs of the allocator on a heap of 128 bytes at address 4096, and the theorems at them.
use openshmem_rs.Prelude.{
  ℕ, ◌+◌, ◌%◌, ◌≤◌, ◌<◌, ◌≡◌, ◌⊎◌, refl, [], ◌∷◌, arith, done, not, ◌==◌, position,
}
use openshmem_rs.Prelude.BTree
use openshmem_rs.Error.{ok, err, usage}
use openshmem_rs.Error.Convert.{Statuses}
use openshmem_rs.SymHeap.Blocks.{sort_by_start, merge}
use openshmem_rs.SymHeap.Invariant.{IsValid}
use openshmem_rs.SymHeap.Malloc.{Allocates, malloc_lem}
use openshmem_rs.SymHeap.Release.{Frees, free-Frees}
use openshmem_rs.SymHeap.Roundtrip.{free-malloc}
use openshmem_rs.SymHeap.Create.{IsVector, IsFresh, with_size-IsValid, with_size-total}
use openshmem_rs.SymHeap.Spec.{Trace, granted, refused, freed}
use openshmem_rs.SymHeap.Refine.{view, run-Trace}
use openshmem_rs.SymHeap.Runs.{mallocs, frees, run, step, step-IsValid, run-IsValid, live_disjoint}
use openshmem_rs.SymHeap.{SymHeap, Registration, capacity, with_size, malloc, free}
use openshmem_rs.Prelude.{isize_limit, usize_mod, ◌*◌, ◌/◌, ◌^◌}
use openshmem_rs.Error.{panic}
use openshmem_rs.Prelude.{List}
use openshmem_rs.SymHeap.Symmetry.{Request, asks, returns, offset_answers, offset_answers-with_size}
use openshmem_rs.SymHeap.Pointer.{to_remote_addr}
use openshmem_rs.SymHeap.Pointer.Laws.{to_remote_addr-malloc}

-- The bindings' statuses: zero is success.
abbrev statuses : Statuses
statuses = record {
  pmix_success = λ s. s == 0;
  ucx_is_err = λ s. not (s == 0);
  ucc_is_error = λ s. not (s == 0);
}

abbrev registration : Registration
registration = record {
  vec_address = λ n. 4096;
  map_region = λ address len. done 1;
  pack_rkey = λ handle. done (7 ∷ 7 ∷ 7 ∷ 7 ∷ []);
}

registration-IsVector : IsVector registration
registration-IsVector = record { word_aligned = λ n. refl; ends = λ n h. omega arith }

abbrev heap : SymHeap
heap = record {
  memh = 1;
  region = 0 ∷ 0 ∷ 0 ∷ 0 ∷ 0 ∷ 0 ∷ 0 ∷ 0 ∷ 0 ∷ 0 ∷ 0 ∷ 0 ∷ 0 ∷ 0 ∷ 0 ∷ 0 ∷ [];
  free_list = record { start = 0; len = 128 } ∷ [];
  allocations = [];
  packed_rkey = 7 ∷ 7 ∷ 7 ∷ 7 ∷ [];
  local_base = 4096;
}

heap_made : with_size statuses registration 128 ≡ ok heap
unfolding with_size
heap_made = refl

heap-IsValid : IsValid heap
heap-IsValid = (with_size-IsValid statuses registration 128 heap registration-IsVector heap_made).0

-- The heap after `malloc(1)`, and after `malloc(8)` on top.
abbrev heap1 : SymHeap
heap1 = record heap {
  free_list = record { start = 8; len = 120 } ∷ [];
  allocations = (4096, 8) ∷ [];
}

malloc_one : malloc 1 heap ≡ (ok (record { addr = 4096 }), heap1)
unfolding malloc position BTree.insert
malloc_one = refl

abbrev heap2 : SymHeap
heap2 = record heap {
  free_list = record { start = 16; len = 112 } ∷ [];
  allocations = (4096, 8) ∷ (4104, 8) ∷ [];
}

malloc_two : malloc 8 heap1 ≡ (ok (record { addr = 4104 }), heap2)
unfolding malloc position BTree.insert
malloc_two = refl

heap1-IsValid : IsValid heap1
unfolding step malloc position BTree.insert
heap1-IsValid = step-IsValid heap (mallocs 1) heap-IsValid

heap2-IsValid : IsValid heap2
unfolding step malloc position BTree.insert
heap2-IsValid = step-IsValid heap1 (mallocs 8) heap1-IsValid

-- `allocator_alignment_distinct_and_reuses_freed_space`: the first fit is the freed block.
abbrev heap3 : SymHeap
heap3 = record heap {
  free_list = record { start = 0; len = 8 } ∷ record { start = 16; len = 112 } ∷ [];
  allocations = (4104, 8) ∷ [];
}

free_one : free (record { addr = 4096 }) heap2 ≡ (ok tt, heap3)
unfolding free BTree.get BTree.erase sort_by_start merge
free_one = refl

reuse : (malloc 8 heap3).0 ≡ ok (record { addr = 4096 })
unfolding malloc position BTree.insert
reuse = refl

with_size-IsValid_example : IsValid heap × IsFresh 128 heap
with_size-IsValid_example =
    with_size-IsValid statuses registration 128 heap registration-IsVector heap_made

malloc_lem_example : Allocates heap1 8 (malloc 8 heap1)
malloc_lem_example = malloc_lem heap1 8 heap1-IsValid

free-Frees_example : Frees heap2 (record { addr = 4096 }) (free (record { addr = 4096 }) heap2)
free-Frees_example = free-Frees heap2 (record { addr = 4096 }) heap2-IsValid

run-IsValid_example :
    IsValid (run heap (mallocs 1 ∷ frees (record { addr = 5 }) ∷ mallocs 500 ∷ []))
run-IsValid_example =
    run-IsValid heap (mallocs 1 ∷ frees (record { addr = 5 }) ∷ mallocs 500 ∷ []) heap-IsValid

free-malloc_example : free (record { addr = 4104 }) heap2 ≡ (ok tt, heap1)
free-malloc_example = free-malloc heap1 heap2 8 (record { addr = 4104 }) heap1-IsValid malloc_two

live_disjoint_example : (4096 + 8 ≤ 4104) ⊎ (4104 + 8 ≤ 4096)
unfolding run step malloc position BTree.insert BTree.get
live_disjoint_example =
    live_disjoint statuses registration 128 heap (mallocs 1 ∷ mallocs 8 ∷ []) registration-IsVector
      heap_made 4096 4104 8 8 refl refl (omega arith)

with_size-total_example :
    ((8 ≤ 2 ^ 63)
      × ((2 ^ 63 + 7) / 8 * 8 < isize_limit)
      × ((h : SymHeap) × (with_size statuses registration (2 ^ 63) ≡ ok h)))
    ⊎ ((2 ^ 63 < 8)
        × (with_size statuses registration (2 ^ 63) ≡ err (usage "symmetric heap is too small")))
    ⊎ ((usize_mod ≤ 2 ^ 63 + 7)
        × (with_size statuses registration (2 ^ 63) ≡ err (usage "symmetric heap size overflow")))
    ⊎ ((isize_limit ≤ (2 ^ 63 + 7) / 8 * 8)
        × (2 ^ 63 + 7 < usize_mod)
        × (with_size statuses registration (2 ^ 63) ≡ panic))
with_size-total_example =
    with_size-total statuses registration (2 ^ 63) 1 (7 ∷ 7 ∷ 7 ∷ 7 ∷ []) refl refl

to_remote_addr-malloc_example :
    (offset : ℕ) × (4104 ≡ 4096 + offset)
    × (to_remote_addr (record { addr = 4104 }) 4096 8192 ≡ ok (8192 + offset))
    × (to_remote_addr (record { addr = 8192 + offset }) 8192 4096 ≡ ok 4104)
    × (offset + 8 ≤ capacity heap1)
    × (offset % 8 ≡ 0)
to_remote_addr-malloc_example =
    to_remote_addr-malloc heap1 heap2 8 8192 (record { addr = 4104 }) heap1-IsValid malloc_two
      (omega arith)

-- One of eight bytes, one that finds no room, the release of the first, and a second release of it.
run-Trace_example :
    Trace 4096 128
      (view heap)
      (mallocs 1
        ∷ mallocs 121
        ∷ frees (record { addr = 4096 })
        ∷ frees (record { addr = 4096 })
        ∷ [])
      (granted 4096 ∷ refused ∷ freed ∷ refused ∷ [])
      (view (
        run heap (
          mallocs 1
          ∷ mallocs 121
          ∷ frees (record { addr = 4096 })
          ∷ frees (record { addr = 4096 })
          ∷ [])))
unfolding step malloc free position sort_by_start BTree.get BTree.insert BTree.erase merge
run-Trace_example =
    run-Trace heap
      (mallocs 1
        ∷ mallocs 121
        ∷ frees (record { addr = 4096 })
        ∷ frees (record { addr = 4096 })
        ∷ [])
      heap-IsValid

-- A second PE, whose vectors lie elsewhere.
abbrev elsewhere : Registration
elsewhere = record registration { vec_address = λ n. 65536 }

elsewhere-IsVector : IsVector elsewhere
elsewhere-IsVector = record { word_aligned = λ n. refl; ends = λ n small. omega (arith, small) }

abbrev twin : SymHeap
twin = record heap { local_base = 65536 }

twin_made : with_size statuses elsewhere 128 ≡ ok twin
unfolding with_size
twin_made = refl

abbrev requests : List Request
requests = asks 1 ∷ asks 121 ∷ returns 8 ∷ returns 0 ∷ asks 121 ∷ []

offset_answers-with_size_example : offset_answers heap requests ≡ offset_answers twin requests
offset_answers-with_size_example =
    offset_answers-with_size statuses statuses registration elsewhere 128 heap twin
      registration-IsVector elsewhere-IsVector heap_made twin_made requests
