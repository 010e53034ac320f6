-- ===== src/SymHeap/Live.antt =====
-- Which bytes of the heap the allocations hold. The map's keys are addresses; `x` is an offset
-- from the heap's base.
use openshmem_rs.Prelude.{ℕ, suc, ◌+◌, ◌≡◌, refl, List, [], ◌∷◌, none, some, arith}
use openshmem_rs.Prelude.BTree.{get, insert, erase, IsAscending, erase-below}
use openshmem_rs.SymHeap.Cover.{hits}

-- How many of the allocations hold the byte at offset `x`.
abbrev pub live_cover : ℕ → List (ℕ × ℕ) → ℕ → ℕ
live_cover base [] x = 0
live_cover base ((address, len) ∷ m) x = hits address len (base + x) + live_cover base m x

pub live_cover-insert :
    (base k l : ℕ) (m : List (ℕ × ℕ)) (x : ℕ)
    → get k m ≡ none
    → live_cover base (insert k l m) x ≡ hits k l (base + x) + live_cover base m x
unfolding get insert
live_cover-insert base k l [] x e = refl
live_cover-insert base k l ((j, w) ∷ m) x e = ground (arith, live_cover-insert base k l m x)

pub live_cover-erase :
    (base k l lo : ℕ) (m : List (ℕ × ℕ)) (x : ℕ)
    → IsAscending lo m
    → get k m ≡ some l
    → live_cover base m x ≡ hits k l (base + x) + live_cover base (erase k m) x
unfolding get erase
live_cover-erase base k l lo [] x a e = cc
live_cover-erase base k l lo ((j, w) ∷ m) x a e =
    ground (arith, live_cover-erase base k l (suc j) m x a.1, erase-below (suc j) k m a.1)

pub hits-shift : (base start len x : ℕ) → hits (base + start) len (base + x) ≡ hits start len x
hits-shift base start len x = ground arith
