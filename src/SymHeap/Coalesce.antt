-- ===== src/SymHeap/Coalesce.antt =====
-- `free` puts a block into the sorted free list and merges neighbours: the bytes covered are those
-- of the list and of the block, and the result is spaced.
use mathlib.Core.Path.{subst}
use mathlib.Core.List.{reverse-cons, append_assoc}
use openshmem_rs.Prelude.{
  ℕ, suc, ◌+◌, ◌%◌, sym, ap, All, ◌≤◌, ◌<◌, ◌≡◌, refl, ◌∙◌, List, [], ◌∷◌, ◌++◌, if◌then◌else◌,
  ◌==◌, Bool-cases, inl, inr, arith, foldl, reverse, add_usize, usize_mod,
}
use openshmem_rs.SymHeap.Blocks.{Block, push_merged, merge}
use openshmem_rs.SymHeap.Cover.{hits, cover, IsSpaced, IsOrdered, Below, IsOrdered-mono}

-- The merge loop without an accumulator: `last` is the newest block of the result.
coalesce : Block → List Block → List Block
coalesce last [] = last ∷ []
coalesce last (b ∷ bs) =
    if add_usize last.start last.len == b.start
    then coalesce (record last { len = add_usize last.len b.len }) bs
    else last ∷ coalesce b bs

foldl-push_merged :
    (last : Block) (done bs : List Block)
    → reverse (foldl push_merged (last ∷ done) bs) ≡ reverse done ++ coalesce last bs
unfolding push_merged coalesce
foldl-push_merged last done [] = reverse-cons last done
foldl-push_merged last done (b ∷ bs) =
    elim (Bool-cases (add_usize last.start last.len == b.start)) [
      | inl touch ↦
          rw touch (foldl-push_merged (record last { len = add_usize last.len b.len }) done bs)
      | inr gap ↦ rw gap (
          foldl-push_merged b (last ∷ done) bs
          ∙ rw (reverse-cons last done) (append_assoc (reverse done) (last ∷ []) (coalesce b bs)))
    ]

merge-coalesce : (b : Block) (bs : List Block) → merge (b ∷ bs) ≡ coalesce b bs
unfolding merge push_merged
merge-coalesce b bs = foldl-push_merged b [] bs

cover-coalesce :
    (last : Block) (bs : List Block) (limit x : ℕ)
    → limit < usize_mod
    → IsOrdered (last.start + last.len) bs
    → last.start + last.len ≤ limit
    → Below limit bs
    → cover (coalesce last bs) x ≡ hits last.start last.len x + cover bs x
unfolding coalesce
cover-coalesce last [] limit x h o l a = refl
cover-coalesce last (b ∷ bs) limit x h o l a = ground (
  arith,
  cover-coalesce (record last { len = add_usize last.len b.len }) bs limit x h,
  cover-coalesce b bs limit x h o.2 a.0 a.1,
)

coalesce-IsSpaced :
    (lo : ℕ) (last : Block) (bs : List Block) (limit : ℕ)
    → limit < usize_mod
    → lo ≤ last.start
    → 0 < last.len
    → IsOrdered (last.start + last.len) bs
    → last.start + last.len ≤ limit
    → Below limit bs
    → IsSpaced lo (coalesce last bs)
unfolding coalesce
coalesce-IsSpaced lo last [] limit h s p o l a = (s, p, tt)
coalesce-IsSpaced lo last (b ∷ bs) limit h s p o l a =
    let sum : add_usize last.start last.len ≡ last.start + last.len = omega arith in
    let total : add_usize last.len b.len ≡ last.len + b.len = omega arith in
    elim (Bool-cases (add_usize last.start last.len == b.start)) [
      | inl touch ↦
          let next : last.start + last.len ≡ b.start = ground arith in
          rw touch (
            coalesce-IsSpaced lo (record last { len = add_usize last.len b.len }) bs limit h s
              (omega arith) (IsOrdered-mono _ (b.start + b.len) bs (omega arith) o.2) (omega arith)
              a.1)
      | inr gap ↦ rw gap (
        s,
        p,
        coalesce-IsSpaced (suc (last.start + last.len)) b bs limit h (ground arith) o.1 o.2 a.0 a.1,
      )
    ]

-- Starts and lengths are multiples of eight.
abbrev pub IsAligned : Block → Type 0
IsAligned b = (b.start % 8 ≡ 0) × (b.len % 8 ≡ 0)

coalesce-IsAligned :
    (last : Block) (bs : List Block)
    → IsAligned last
    → All IsAligned bs
    → All IsAligned (coalesce last bs)
unfolding coalesce
coalesce-IsAligned last [] p a = (p, tt)
coalesce-IsAligned last (b ∷ bs) p a = ground (
  arith,
  coalesce-IsAligned (record last { len = add_usize last.len b.len }) bs,
  coalesce-IsAligned b bs a.0 a.1,
)

pub cover-merge :
    (bs : List Block) (lo limit x : ℕ)
    → limit < usize_mod
    → IsOrdered lo bs
    → Below limit bs
    → cover (merge bs) x ≡ cover bs x
unfolding merge
cover-merge [] lo limit x h o a = refl
cover-merge (b ∷ bs) lo limit x h o a =
    ap (λ l. cover l x) (merge-coalesce b bs) ∙ cover-coalesce b bs limit x h o.2 a.0 a.1

pub merge-IsSpaced :
    (bs : List Block) (lo limit : ℕ)
    → limit < usize_mod
    → IsOrdered lo bs
    → Below limit bs
    → IsSpaced lo (merge bs)
unfolding merge
merge-IsSpaced [] lo limit h o a = tt
merge-IsSpaced (b ∷ bs) lo limit h o a =
    subst (IsSpaced lo) (sym (merge-coalesce b bs))
      (coalesce-IsSpaced lo b bs limit h o.0 o.1 o.2 a.0 a.1)

pub merge-IsAligned : (bs : List Block) → All IsAligned bs → All IsAligned (merge bs)
unfolding merge
merge-IsAligned [] a = tt
merge-IsAligned (b ∷ bs) a =
    subst (All IsAligned) (sym (merge-coalesce b bs)) (coalesce-IsAligned b bs a.0 a.1)
