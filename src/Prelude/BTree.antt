-- ===== src/Prelude/BTree.antt =====
-- `BTreeMap` with integer keys, as the association list that it iterates: keys ascend.
use openshmem_rs.Prelude.Tests.{ltb, ◌==◌, if◌then◌else◌}
use Prim.Native.Nat.{ℕ, suc, ◌≤◌, ◌<◌}
use mathlib.Core.Path.{◌≡◌, refl}
use mathlib.Core.Logic.{◌≢◌}
use mathlib.Core.List.{List, [], ◌∷◌}
use mathlib.Core.Option.{Option, none, some}
use native.Mathlib.Omega.{arith}

module _ {ℓ} {V : Type ℓ} where
  unfoldable pub get : ℕ → List (ℕ × V) → Option V
  get k [] = none
  get k ((j, w) ∷ m) = if j == k then some w else get k m

  unfoldable pub insert : ℕ → V → List (ℕ × V) → List (ℕ × V)
  insert k v [] = (k, v) ∷ []
  insert k v ((j, w) ∷ m) =
      if ltb k j
      then (k, v) ∷ (j, w) ∷ m
      else (if j == k then (k, v) ∷ m else (j, w) ∷ insert k v m)

  unfoldable pub erase : ℕ → List (ℕ × V) → List (ℕ × V)
  erase k [] = []
  erase k ((j, w) ∷ m) = if j == k then erase k m else (j, w) ∷ erase k m

  -- Keys ascend strictly, from `lo` on.
  abbrev pub IsAscending : ℕ → List (ℕ × V) → Type 0
  IsAscending lo [] = Unit
  IsAscending lo ((k, v) ∷ m) = (lo ≤ k) × IsAscending (suc k) m

  -- Every entry satisfies `P`.
  abbrev pub AllEntries {κ} : (ℕ → V → Type κ) → List (ℕ × V) → Type κ
  AllEntries P [] = Unit
  AllEntries P ((k, v) ∷ m) = P k v × AllEntries P m

module _ {ℓ} {V : Type ℓ} where
  pub get-insert :
      (k j : ℕ) (v : V) (m : List (ℕ × V))
      → get j (insert k v m) ≡ (if k == j then some v else get j m)
  unfolding get insert
  get-insert k j v [] = refl
  get-insert k j v ((i, w) ∷ m) = ground (arith, get-insert k j v m)

  pub get-erase_self : (k : ℕ) (m : List (ℕ × V)) → get k (erase k m) ≡ none
  unfolding get erase
  get-erase_self k [] = refl
  get-erase_self k ((i, w) ∷ m) = ground (arith, get-erase_self k m)

  pub get-erase_ne : (k j : ℕ) (m : List (ℕ × V)) → k ≢ j → get j (erase k m) ≡ get j m
  unfolding get erase
  get-erase_ne k j [] h = refl
  get-erase_ne k j ((i, w) ∷ m) h = ground (arith, get-erase_ne k j m)

  IsAscending-mono : (lo hi : ℕ) (m : List (ℕ × V)) → lo ≤ hi → IsAscending hi m → IsAscending lo m
  IsAscending-mono lo hi [] h a = tt
  IsAscending-mono lo hi ((k, v) ∷ m) h a = (omega arith, a.1)

  pub get-below : (lo k : ℕ) (m : List (ℕ × V)) → IsAscending lo m → k < lo → get k m ≡ none
  unfolding get
  get-below lo k [] a h = refl
  get-below lo k ((j, w) ∷ m) a h = ground (arith, get-below (suc j) k m a.1)

  pub insert-IsAscending :
      (lo k : ℕ) (v : V) (m : List (ℕ × V))
      → lo ≤ k
      → IsAscending lo m
      → IsAscending lo (insert k v m)
  unfolding insert
  insert-IsAscending lo k v [] h a = (h, tt)
  insert-IsAscending lo k v ((j, w) ∷ m) h a = ground (arith, insert-IsAscending (suc j) k v m)

  pub erase-IsAscending :
      (lo k : ℕ) (m : List (ℕ × V)) → IsAscending lo m → IsAscending lo (erase k m)
  unfolding erase
  erase-IsAscending lo k [] a = tt
  erase-IsAscending lo k ((j, w) ∷ m) a =
      ground (arith, erase-IsAscending (suc j) k m a.1, IsAscending-mono lo (suc j) (erase k m))

  pub AllEntries-get {κ} :
      (P : ℕ → V → Type κ) (k : ℕ) (v : V) (m : List (ℕ × V))
      → AllEntries P m
      → get k m ≡ some v
      → P k v
  unfolding get
  AllEntries-get P k v [] a e = cc
  AllEntries-get P k v ((j, w) ∷ m) a e = ground (arith, AllEntries-get P k v m a.1)

  pub AllEntries-insert {κ} :
      (P : ℕ → V → Type κ) (k : ℕ) (v : V) (m : List (ℕ × V))
      → P k v
      → AllEntries P m
      → AllEntries P (insert k v m)
  unfolding insert
  AllEntries-insert P k v [] p a = (p, tt)
  AllEntries-insert P k v ((j, w) ∷ m) p a = ground (arith, AllEntries-insert P k v m p a.1)

  pub AllEntries-erase {κ} :
      (P : ℕ → V → Type κ) (k : ℕ) (m : List (ℕ × V)) → AllEntries P m → AllEntries P (erase k m)
  unfolding erase
  AllEntries-erase P k [] a = tt
  AllEntries-erase P k ((j, w) ∷ m) a = ground (arith, AllEntries-erase P k m a.1)

  -- Removing a key that is just inserted gives the map back.
  pub erase-below : (lo k : ℕ) (m : List (ℕ × V)) → IsAscending lo m → k < lo → erase k m ≡ m
  unfolding erase
  erase-below lo k [] a h = refl
  erase-below lo k ((j, w) ∷ m) a h = ground (arith, erase-below (suc j) k m a.1)

  pub erase-insert :
      (lo k : ℕ) (v : V) (m : List (ℕ × V))
      → IsAscending lo m
      → get k m ≡ none
      → erase k (insert k v m) ≡ m
  unfolding erase insert get
  erase-insert lo k v [] a e = ground arith
  erase-insert lo k v ((j, w) ∷ m) a e =
      ground (arith, erase-insert (suc j) k v m a.1, erase-below (suc j) k m a.1)
