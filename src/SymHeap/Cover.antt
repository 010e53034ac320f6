-- ===== src/SymHeap/Cover.antt =====
-- Which bytes the free list covers, and the shape that the allocator keeps it in.
use openshmem_rs.Prelude.{
  ℕ, suc, ◌+◌, ◌-◌, ◌≤◌, ◌<◌, ◌≡◌, refl, ◌&&◌, List, [], ◌∷◌, ◌++◌, if◌then◌else◌, leb, ltb, arith,
  All,
}
use openshmem_rs.SymHeap.Blocks.{Block}

-- 1 if `x` lies among the `len` bytes from `start`, else 0.
abbrev pub hits : ℕ → ℕ → ℕ → ℕ
hits start len x = if leb start x && ltb x (start + len) then 1 else 0

-- How many of the blocks hold the byte `x`.
abbrev pub cover : List Block → ℕ → ℕ
cover [] x = 0
cover (b ∷ bs) x = hits b.start b.len x + cover bs x

-- No block is empty, and a gap parts each from the one before it: the blocks ascend from `lo`.
abbrev pub IsSpaced : ℕ → List Block → Type 0
IsSpaced lo [] = Unit
IsSpaced lo (b ∷ bs) = (lo ≤ b.start) × (0 < b.len) × IsSpaced (suc (b.start + b.len)) bs

-- The same where neighbours may touch.
abbrev pub IsOrdered : ℕ → List Block → Type 0
IsOrdered lo [] = Unit
IsOrdered lo (b ∷ bs) = (lo ≤ b.start) × (0 < b.len) × IsOrdered (b.start + b.len) bs

-- Every block ends at `limit` or before.
abbrev pub Below : ℕ → List Block → Type 0
Below limit = All (λ b. b.start + b.len ≤ limit)

pub cover-append : (xs ys : List Block) (x : ℕ) → cover (xs ++ ys) x ≡ cover xs x + cover ys x
cover-append [] ys x = omega arith
cover-append (b ∷ bs) ys x = omega (arith, cover-append bs ys x)

pub IsSpaced-mono : (lo hi : ℕ) (bs : List Block) → lo ≤ hi → IsSpaced hi bs → IsSpaced lo bs
IsSpaced-mono lo hi [] h s = tt
IsSpaced-mono lo hi (b ∷ bs) h s = (omega arith, s.1, s.2)

pub IsOrdered-mono : (lo hi : ℕ) (bs : List Block) → lo ≤ hi → IsOrdered hi bs → IsOrdered lo bs
IsOrdered-mono lo hi [] h s = tt
IsOrdered-mono lo hi (b ∷ bs) h s = (omega arith, s.1, s.2)

pub cover-below : (lo x : ℕ) (bs : List Block) → IsSpaced lo bs → x < lo → cover bs x ≡ 0
cover-below lo x [] s h = refl
cover-below lo x (b ∷ bs) s h = ground (arith, cover-below (suc (b.start + b.len)) x bs s.2)

-- A byte just past a block, and every byte up to the next block, is not covered.
pub cover_gap : (lo x : ℕ) (bs : List Block) → IsSpaced lo bs → cover bs x ≤ 1
cover_gap lo x [] s = omega arith
cover_gap lo x (b ∷ bs) s = ground (
  arith,
  cover_gap (suc (b.start + b.len)) x bs s.2,
  cover-below (suc (b.start + b.len)) x bs s.2,
)

-- A block in the middle that gives up bytes keeps the list spaced.
pub IsSpaced-shrink :
    (lo : ℕ) (pre : List Block) (b c : Block) (post : List Block)
    → IsSpaced lo (pre ++ b ∷ post)
    → b.start ≤ c.start
    → c.start + c.len ≡ b.start + b.len
    → 0 < c.len
    → IsSpaced lo (pre ++ c ∷ post)
IsSpaced-shrink lo [] b c post s h e l =
    (omega arith, l, IsSpaced-mono _ (suc (b.start + b.len)) post (omega arith) s.2)
IsSpaced-shrink lo (a ∷ pre) b c post s h e l =
    (s.0, s.1, IsSpaced-shrink (suc (a.start + a.len)) pre b c post s.2 h e l)

pub IsSpaced-remove :
    (lo : ℕ) (pre : List Block) (b : Block) (post : List Block)
    → IsSpaced lo (pre ++ b ∷ post)
    → IsSpaced lo (pre ++ post)
IsSpaced-remove lo [] b post s = IsSpaced-mono lo (suc (b.start + b.len)) post (omega arith) s.2
IsSpaced-remove lo (a ∷ pre) b post s =
    (s.0, s.1, IsSpaced-remove (suc (a.start + a.len)) pre b post s.2)

-- A list whose covered bytes all lie below `limit` has no block that ends past it.
pub Below-cover :
    (limit : ℕ) (bs : List Block) (lo : ℕ)
    → IsSpaced lo bs
    → ((x : ℕ) → limit ≤ x → cover bs x ≡ 0)
    → Below limit bs
Below-cover limit [] lo s h = tt
Below-cover limit (b ∷ bs) lo s h = (
  ground (arith, h (b.start + b.len - 1)),
  Below-cover limit bs (suc (b.start + b.len)) s.2 (λ x l. ground (arith, h x)),
)
