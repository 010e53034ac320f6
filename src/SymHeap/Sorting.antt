-- ===== src/SymHeap/Sorting.antt =====
-- `push` and `sort_by_key` put a block into its place in the sorted free list, so with the merge
-- loop `free` returns a spaced list that covers one block more.
use openshmem_rs.Prelude.{
  ℕ, suc, ◌+◌, ◌≤◌, ◌<◌, ◌≡◌, refl, ◌∙◌, List, [], ◌∷◌, ◌++◌, arith, All, usize_mod,
}
use openshmem_rs.SymHeap.Blocks.{Block, insert_by_start, sort_by_start, merge}
use openshmem_rs.SymHeap.Cover.{
  hits, cover, IsSpaced, IsOrdered, Below, IsOrdered-mono, IsSpaced-mono,
}
use openshmem_rs.SymHeap.Coalesce.{IsAligned, cover-merge, merge-IsSpaced, merge-IsAligned}

-- The last element of an otherwise sorted list moves to its place.
sort-append :
    (f : Block) (lo : ℕ) (xs : List Block)
    → IsSpaced lo xs
    → cover xs f.start ≡ 0
    → sort_by_start (xs ++ f ∷ []) ≡ insert_by_start f xs
unfolding sort_by_start
sort-append f lo [] s e = refl
sort-append f lo (a ∷ []) s e = ground arith
sort-append f lo (a ∷ c ∷ cs) s e =
    rw (sort-append f (suc (a.start + a.len)) (c ∷ cs) s.2 (ground arith)) (ground arith)

cover-insert_by_start :
    (f : Block) (xs : List Block) (x : ℕ)
    → cover (insert_by_start f xs) x ≡ hits f.start f.len x + cover xs x
unfolding insert_by_start
cover-insert_by_start f [] x = refl
cover-insert_by_start f (b ∷ bs) x = ground (arith, cover-insert_by_start f bs x)

All-insert_by_start {κ} :
    (P : Block → Type κ) (f : Block) (xs : List Block)
    → P f
    → All P xs
    → All P (insert_by_start f xs)
unfolding insert_by_start
All-insert_by_start P f [] p a = (p, tt)
All-insert_by_start P f (b ∷ bs) p a = ground (arith, All-insert_by_start P f bs p a.1)

IsSpaced-IsOrdered : (lo : ℕ) (xs : List Block) → IsSpaced lo xs → IsOrdered lo xs
IsSpaced-IsOrdered lo [] s = tt
IsSpaced-IsOrdered lo (b ∷ bs) s = (
  s.0,
  s.1,
  IsOrdered-mono _ (suc (b.start + b.len)) bs (omega arith)
      (IsSpaced-IsOrdered (suc (b.start + b.len)) bs s.2),
)

-- A block whose bytes are not covered fits between the others.
insert_by_start-IsOrdered :
    (f : Block) (lo : ℕ) (xs : List Block)
    → 0 < f.len
    → lo ≤ f.start
    → IsSpaced lo xs
    → ((x : ℕ) → f.start ≤ x → x < f.start + f.len → cover xs x ≡ 0)
    → IsOrdered lo (insert_by_start f xs)
unfolding insert_by_start
insert_by_start-IsOrdered f lo [] p l s e = (l, p, tt)
insert_by_start-IsOrdered f lo (b ∷ bs) p l s e = ground (
  arith,
  e b.start,
  e f.start,
  IsSpaced-IsOrdered (suc (b.start + b.len)) bs s.2,
  IsOrdered-mono (b.start + b.len) (suc (b.start + b.len)) bs,
  insert_by_start-IsOrdered f (b.start + b.len) bs p,
  IsSpaced-mono (b.start + b.len) (suc (b.start + b.len)) bs (omega arith) s.2,
  λ (x : ℕ) (u : f.start ≤ x) (v : x < f.start + f.len). e x u v,
)

-- The free list after `free` of a block whose bytes are not free and which ends in the heap.
module _ (f : Block) (xs : List Block) (limit : ℕ) (in_range : limit < usize_mod)
    (nonempty : 0 < f.len) (end : f.start + f.len ≤ limit) (spaced : IsSpaced 0 xs)
    (below : Below limit xs)
    (taken : (x : ℕ) → f.start ≤ x → x < f.start + f.len → cover xs x ≡ 0) where
  sorted : sort_by_start (xs ++ f ∷ []) ≡ insert_by_start f xs
  sorted = sort-append f 0 xs spaced (taken f.start (omega arith) (omega arith))

  ordered : IsOrdered 0 (insert_by_start f xs)
  ordered = insert_by_start-IsOrdered f 0 xs nonempty (omega arith) spaced taken

  ends : Below limit (insert_by_start f xs)
  ends = All-insert_by_start (λ b. b.start + b.len ≤ limit) f xs end below

  pub cover-merge_sort :
      (x : ℕ) → cover (merge (sort_by_start (xs ++ f ∷ []))) x ≡ hits f.start f.len x + cover xs x
  cover-merge_sort x = rw sorted (
      cover-merge (insert_by_start f xs) 0 limit x in_range ordered ends
      ∙ cover-insert_by_start f xs x)

  pub merge_sort-IsSpaced : IsSpaced 0 (merge (sort_by_start (xs ++ f ∷ [])))
  merge_sort-IsSpaced =
      rw sorted (merge-IsSpaced (insert_by_start f xs) 0 limit in_range ordered ends)

  pub merge_sort-IsAligned :
      IsAligned f → All IsAligned xs → All IsAligned (merge (sort_by_start (xs ++ f ∷ [])))
  merge_sort-IsAligned p a =
      rw sorted (merge-IsAligned (insert_by_start f xs) (All-insert_by_start IsAligned f xs p a))
