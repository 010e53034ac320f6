-- ===== src/SymHeap/Symmetry.antt =====
-- What makes the heap symmetric: the same calls give the same offsets on every PE.
use mathlib.Core.Path.{ap₂}
use openshmem_rs.Prelude.{ℕ, ◌≡◌, refl, ap, sym, ◌∙◌, List, [], ◌∷◌, arith}
use openshmem_rs.Error.{Result, ok, ◌>>=◌}
use openshmem_rs.Error.Convert.{Statuses}
use openshmem_rs.SymHeap.Invariant.{IsValid}
use openshmem_rs.SymHeap.Runs.{mallocs, frees, Call, step, step-IsValid}
use openshmem_rs.SymHeap.Pointer.{offset_from}
use openshmem_rs.SymHeap.Create.{IsVector, IsFresh, with_size-IsValid}
use openshmem_rs.SymHeap.Twins.{located, Twins, Agree, both, neither, at, malloc-Agree, free-Agree}
use openshmem_rs.SymHeap.{SymPtr, SymHeap, Registration, capacity, with_size, malloc, free}

-- A call that every PE makes: an allocation, or the release of what lies at an offset.
pub data Request : Type 0 where
  asks : ℕ → Request
  returns : ℕ → Request

abbrev pub call_of : SymHeap → Request → Call
call_of h (asks size) = mallocs size
call_of h (returns offset) = frees (at h.local_base offset)

-- What the caller sees: the offset of what it was given or has released, or the error.
unfoldable pub offset_answer : SymHeap → Request → Result ℕ
offset_answer h (asks size) = (malloc size h).0 >>= λ p. offset_from p h.local_base
offset_answer h (returns offset) = (free (at h.local_base offset) h).0 >>= λ _. ok offset

unfoldable pub offset_answers : SymHeap → List Request → List (Result ℕ)
offset_answers h [] = []
offset_answers h (r ∷ rs) = offset_answer h r ∷ offset_answers (step h (call_of h r)) rs

unfoldable pub after_requests : SymHeap → List Request → SymHeap
after_requests h [] = h
after_requests h (r ∷ rs) = after_requests (step h (call_of h r)) rs

module _ (h g : SymHeap) (twins : Twins h g) where
  -- The offset in an answer does not depend on the base.
  malloc_answers :
      {r t : Result SymPtr × SymHeap}
      → Agree at h g r t
      → ((r.0 >>= λ p. offset_from p h.local_base) ≡ (t.0 >>= λ p. offset_from p g.local_base))
        × Twins r.1 t.1
  unfolding offset_from
  malloc_answers (both offset after same_h same_g) = (ground arith, after)
  malloc_answers neither = (refl, twins)

  free_answers :
      (offset : ℕ) {r t : Result (Unit {0}) × SymHeap}
      → Agree (λ base o. tt) h g r t
      → ((r.0 >>= λ _. ok offset) ≡ (t.0 >>= λ _. ok offset)) × Twins r.1 t.1
  free_answers offset (both o after same_h same_g) = (refl, after)
  free_answers offset neither = (refl, twins)

  pub step-Twins :
      (r : Request)
      → IsValid h
      → IsValid g
      → (offset_answer h r ≡ offset_answer g r)
        × Twins (step h (call_of h r)) (step g (call_of g r))
  unfolding offset_answer step
  step-Twins (asks size) v w = malloc_answers (malloc-Agree h g v w twins size)
  step-Twins (returns offset) v w = free_answers offset (free-Agree h g v w twins offset)

pub run-Twins :
    (h g : SymHeap) (rs : List Request)
    → IsValid h
    → IsValid g
    → Twins h g
    → offset_answers h rs ≡ offset_answers g rs
unfolding offset_answers
run-Twins h g [] v w twins = refl
run-Twins h g (r ∷ rs) v w twins =
    let (same, after) = step-Twins h g twins r v w in
    ap₂ (λ a l. a ∷ l) same
      (run-Twins (step h (call_of h r)) (step g (call_of g r)) rs (step-IsValid h _ v)
        (step-IsValid g _ w) after)

pub after_requests-IsValid :
    (h : SymHeap) (rs : List Request) → IsValid h → IsValid (after_requests h rs)
unfolding after_requests
after_requests-IsValid h [] v = v
after_requests-IsValid h (r ∷ rs) v =
    after_requests-IsValid (step h (call_of h r)) rs (step-IsValid h _ v)

pub after_requests-Twins :
    (h g : SymHeap) (rs : List Request)
    → IsValid h
    → IsValid g
    → Twins h g
    → Twins (after_requests h rs) (after_requests g rs)
unfolding after_requests
after_requests-Twins h g [] v w twins = twins
after_requests-Twins h g (r ∷ rs) v w twins =
    after_requests-Twins (step h (call_of h r)) (step g (call_of g r)) rs (step-IsValid h _ v)
      (step-IsValid g _ w) (step-Twins h g twins r v w).1

pub fresh-Twins : (size : ℕ) (h g : SymHeap) → IsFresh size h → IsFresh size g → Twins h g
unfolding located
fresh-Twins size h g f k =
    let same : capacity g ≡ capacity h = omega (arith, f.enough, f.tight, k.enough, k.tight) in
    record {
      same_capacity = same;
      same_free = k.whole ∙ ap (λ n. record { start = 0; len = n } ∷ []) same ∙ sym f.whole;
      offsets = [];
      first = f.unused;
      second = k.unused;
    }

-- Two PEs whose heaps were made with the same size, on global allocators whose vectors are aligned and
-- end in the address space, wherever those lie and whatever UCX has registered: the same calls in the same
-- order, allocations and releases of what lies at an offset, bad ones included, give the same offsets and
-- the same errors on both.
pub offset_answers-with_size :
    (s t : Statuses) (r q : Registration) (size : ℕ) (h g : SymHeap)
    → IsVector r
    → IsVector q
    → with_size s r size ≡ ok h
    → with_size t q size ≡ ok g
    → (rs : List Request) → offset_answers h rs ≡ offset_answers g rs
offset_answers-with_size s t r q size h g vec wec e f rs =
    let (valid, fresh) = with_size-IsValid s r size h vec e in
    let (sound, new) = with_size-IsValid t q size g wec f in
    run-Twins h g rs valid sound (fresh-Twins size h g fresh new)
