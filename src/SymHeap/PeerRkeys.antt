-- ===== src/SymHeap/PeerRkeys.antt =====
-- `PeerRkeys`: the heap base and the packed key that each PE has published.
use openshmem_rs.Prelude.{ℕ, List, [], Option, some, if◌then◌else◌, ◌==◌, ◌≡◌}
use openshmem_rs.Prelude.BTree
use openshmem_rs.Prelude.BTree.{get-insert}

pub record PeerRkey : Type 0 where
  pub heap_base : ℕ
  pub rkey : List ℕ

abbrev pub PeerRkeys : Type 0
PeerRkeys = List (ℕ × PeerRkey)

abbrev pub default : PeerRkeys
default = []

unfoldable pub insert : ℕ → ℕ → List ℕ → PeerRkeys → PeerRkeys
insert pe heap_base rkey keys = BTree.insert pe (record { heap_base = heap_base; rkey = rkey }) keys

unfoldable pub get : ℕ → PeerRkeys → Option PeerRkey
get pe keys = BTree.get pe keys

-- A PE's newest metadata is found again, and every other PE's stays.
pub get-insert_lem :
    (pe other base : ℕ) (rkey : List ℕ) (keys : PeerRkeys)
    → get other (insert pe base rkey keys)
      ≡ (if pe == other then some (record { heap_base = base; rkey = rkey }) else get other keys)
unfolding get insert
get-insert_lem pe other base rkey keys = get-insert pe other _ keys
