-- ===== src/SymHeap/Blocks.antt =====
-- The free list's blocks, sorted by `sort_by_key(|b| b.start)` and merged where they touch.
use openshmem_rs.Prelude.{ℕ, List, [], ◌∷◌, foldl, reverse, if◌then◌else◌, leb, ◌==◌, add_usize}

pub record Block : Type 0 where
  pub start : ℕ
  pub len : ℕ

-- A stable sort: a block goes before the first one that starts no earlier.
unfoldable pub insert_by_start : Block → List Block → List Block
insert_by_start b [] = b ∷ []
insert_by_start b (c ∷ cs) = if leb b.start c.start then b ∷ c ∷ cs else c ∷ insert_by_start b cs

unfoldable pub sort_by_start : List Block → List Block
unfolding insert_by_start
sort_by_start [] = []
sort_by_start (b ∷ bs) = insert_by_start b (sort_by_start bs)

-- One round of the merge loop. `merged` is kept with its last block first.
unfoldable pub push_merged : List Block → Block → List Block
push_merged [] block = block ∷ []
push_merged (last ∷ done) block =
    if add_usize last.start last.len == block.start
    then record last { len = add_usize last.len block.len } ∷ done
    else block ∷ last ∷ done

unfoldable pub merge : List Block → List Block
unfolding push_merged
merge blocks = reverse (foldl push_merged [] blocks)
