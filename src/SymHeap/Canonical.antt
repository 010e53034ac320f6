-- ===== src/SymHeap/Canonical.antt =====
-- A spaced free list is determined by the bytes that it covers.
use openshmem_rs.Prelude.{ℕ, suc, ◌+◌, ◌≡◌, refl, List, [], ◌∷◌, arith}
use openshmem_rs.SymHeap.Blocks.{Block}
use openshmem_rs.SymHeap.Cover.{cover, IsSpaced, cover-below}

module _ (lo hi : ℕ) (b c : Block) (bs cs : List Block) (s : IsSpaced lo (b ∷ bs))
    (t : IsSpaced hi (c ∷ cs)) (e : (x : ℕ) → cover (b ∷ bs) x ≡ cover (c ∷ cs) x) where
  start-eq : b.start ≡ c.start
  start-eq = ground (
    arith,
    e b.start,
    e c.start,
    cover-below (suc (b.start + b.len)) c.start bs s.2,
    cover-below (suc (c.start + c.len)) b.start cs t.2,
  )

  len-eq : b.len ≡ c.len
  len-eq = ground (
    arith,
    start-eq,
    e (b.start + b.len),
    e (c.start + c.len),
    cover-below (suc (b.start + b.len)) (b.start + b.len) bs s.2,
    cover-below (suc (c.start + c.len)) (c.start + c.len) cs t.2,
  )

  rest-cover : (x : ℕ) → cover bs x ≡ cover cs x
  rest-cover x = ground (arith, start-eq, len-eq, e x)

pub eq_of_cover :
    (lo hi : ℕ) (xs ys : List Block)
    → IsSpaced lo xs
    → IsSpaced hi ys
    → ((x : ℕ) → cover xs x ≡ cover ys x)
    → xs ≡ ys
eq_of_cover lo hi [] [] s t e = refl
eq_of_cover lo hi [] (c ∷ cs) s t e = absurd (ground (arith, e c.start))
eq_of_cover lo hi (b ∷ bs) [] s t e = absurd (ground (arith, e b.start))
eq_of_cover lo hi (b ∷ bs) (c ∷ cs) s t e = ground (
  arith,
  start-eq lo hi b c bs cs s t e,
  len-eq lo hi b c bs cs s t e,
  eq_of_cover (suc (b.start + b.len)) (suc (c.start + c.len)) bs cs s.2 t.2
      (rest-cover lo hi b c bs cs s t e),
)
