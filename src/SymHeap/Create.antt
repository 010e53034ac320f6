-- ===== src/SymHeap/Create.antt =====
-- `with_size`: a new heap is valid and has one free block, the whole region.
use mathlib.Core.Path.{subst}
use openshmem_rs.Prelude.{
  sym, ◌⊎◌, inl, inr, Bool-cases, ℕ, ◌+◌, ◌*◌, ◌/◌, ◌%◌, ◌≤◌, ◌<◌, ◌≡◌, refl, ap, List, [], ◌∷◌,
  ltb, arith, length-replicate, replicate, usize_mod, isize_limit, Outcome-cases, done,
}
use openshmem_rs.Error.{ok, err, panic, usage}
use openshmem_rs.Error.Convert.{Statuses}
use openshmem_rs.SymHeap.Invariant.{IsValid}
use openshmem_rs.SymHeap.{SymHeap, Registration, capacity, with_size, register, allocate}

-- What a vector of words has by the language: it is aligned, and ends inside the address space.
pub record IsVector (r : Registration) : Type 0 where
  pub word_aligned : (n : ℕ) → r.vec_address n % 8 ≡ 0
  pub ends : (n : ℕ) → n * 8 < isize_limit → r.vec_address n + n * 8 < usize_mod

-- A heap as `with_size` leaves it.
pub record IsFresh (size : ℕ) (h : SymHeap) : Type 0 where
  pub enough : size ≤ capacity h
  pub tight : capacity h < size + 8
  pub unused : h.allocations ≡ []
  pub whole : h.free_list ≡ record { start = 0; len = capacity h } ∷ []

fresh : ℕ → ℕ → List ℕ → ℕ → SymHeap
fresh handle words rkey base = record {
  memh = handle;
  region = replicate words 0;
  free_list = record { start = 0; len = words * 8 } ∷ [];
  allocations = [];
  packed_rkey = rkey;
  local_base = base;
}

fresh-capacity :
    (handle words : ℕ) (rkey : List ℕ) (base : ℕ)
    → capacity (fresh handle words rkey base) ≡ words * 8
unfolding fresh
fresh-capacity handle words rkey base = ap (λ n. n * 8) (length-replicate {A = ℕ} words 0)

fresh-IsValid :
    (handle words : ℕ) (rkey : List ℕ) (base : ℕ)
    → 0 < words
    → base % 8 ≡ 0
    → base + words * 8 < usize_mod
    → IsValid (fresh handle words rkey base)
unfolding fresh
fresh-IsValid handle words rkey base pos aligned ends = record {
  spaced = (omega arith, omega arith, tt);
  aligned = ((omega arith, omega arith), tt);
  ascending = tt;
  live = tt;
  exact = λ x. ground (arith, length-replicate {A = ℕ} words 0);
  base_aligned = aligned;
  in_range = omega (arith, length-replicate {A = ℕ} words 0);
}

module _ (s : Statuses) (r : Registration) where
  -- What a registration that succeeds has got from UCX.
  register-inv :
      (words : ℕ) (h : SymHeap)
      → register s r words ≡ ok h
      → (handle : ℕ) × (rkey : List ℕ) × (r.map_region (r.vec_address words) (words * 8)
          ≡ done handle)
        × (r.pack_rkey handle ≡ done rkey)
        × (h ≡ fresh handle words rkey (r.vec_address words))
  unfolding register fresh
  register-inv words h e = elim (Outcome-cases (r.map_region (r.vec_address words) (words * 8))) [
    | inl (handle, mapped) ↦ elim (Outcome-cases (r.pack_rkey handle)) [
      | inl (rkey, packed) ↦ (handle, rkey, mapped, packed, ground arith)
      | inr (status, unpacked) ↦ absurd (ground arith)
    ]
    | inr (status, unmapped) ↦ absurd (ground arith)
  ]

  -- With a global allocator whose vectors are aligned and end in the address space, a heap that
  -- `with_size` returns is valid, at most seven bytes larger than asked, and wholly free.
  pub with_size-IsValid :
      (size : ℕ) (h : SymHeap) → IsVector r → with_size s r size ≡ ok h → IsValid h × IsFresh size h
  unfolding with_size allocate fresh
  with_size-IsValid size h vec e =
      let big : 8 ≤ size = ground arith in
      let fit : size + 7 < usize_mod = ground arith in
      let words : ℕ = (size + 7) / 8 in
      let small : words * 8 < isize_limit = ground arith in
      let made : register s r words ≡ ok h = ground arith in
      let (handle, rkey, _, _, same) = register-inv words h made in
      let base = r.vec_address words in
      let total = length-replicate {A = ℕ} words 0 in
      subst (λ g. IsValid g × IsFresh size g) (sym same)
        (
          fresh-IsValid handle words rkey base (omega arith) (vec.word_aligned words)
              (vec.ends words (omega arith)),
          record {
            enough = omega (arith, total);
            tight = omega (arith, total);
            unused = refl;
            whole = ap (λ n. record { start = 0; len = n * 8 } ∷ []) (sym total);
          },
        )

  -- Where UCX maps the region and packs its key, the outcome is decided by the size: a heap, an
  -- error for a size under eight or so large that rounding it up overflows, and a panic between
  -- `isize::MAX` and there.
  pub with_size-total :
      (size handle : ℕ) (rkey : List ℕ)
      → r.map_region (r.vec_address ((size + 7) / 8)) ((size + 7) / 8 * 8) ≡ done handle
      → r.pack_rkey handle ≡ done rkey
      → ((8 ≤ size)
          × ((size + 7) / 8 * 8 < isize_limit)
          × ((h : SymHeap) × (with_size s r size ≡ ok h)))
        ⊎ ((size < 8) × (with_size s r size ≡ err (usage "symmetric heap is too small")))
        ⊎ ((usize_mod ≤ size + 7)
            × (with_size s r size ≡ err (usage "symmetric heap size overflow")))
        ⊎ ((isize_limit ≤ (size + 7) / 8 * 8)
            × (size + 7 < usize_mod)
            × (with_size s r size ≡ panic))
  unfolding with_size allocate register fresh
  with_size-total size handle rkey mapped packed = elim (Bool-cases (ltb size 8)) [
    | inl small ↦ inr (inl (ground arith, rw small))
    | inr big ↦ elim (Bool-cases (ltb (size + 7) usize_mod)) [
      | inl fit ↦ elim (Bool-cases (ltb ((size + 7) / 8 * 8) isize_limit)) [
        | inl room ↦ inl (
          ground arith,
          ground arith,
          (fresh handle ((size + 7) / 8) rkey (r.vec_address ((size + 7) / 8)), ground arith),
        )
        | inr full ↦ inr (inr (inr (ground arith, ground arith, ground arith)))
      ]
      | inr over ↦ inr (inr (inl (ground arith, rw (big, over))))
    ]
  ]
