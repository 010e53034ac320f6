-- ===== src/Atomic.antt =====
-- src/rma.rs, the atomic operations on 32-bit and 64-bit integers in the peers' heaps.
pub mod Bits
pub mod Calls
pub mod Outcomes
pub mod Returns
pub mod Signed
pub mod Tests
use openshmem_rs.Prelude.{ℕ, List, [], ◌∷◌, Option, some, ◌^◌, Outcome}
use openshmem_rs.Prelude.Int.{ℤ, to_unsigned, to_signed}
use openshmem_rs.Error.{Result, ok}
use openshmem_rs.Error.Convert.{from_ucx, map_err}
use openshmem_rs.World.{
  Services, Atomics, History, amo_called, Amo, amo_add32, amo_xor32, amo_swap32, amo_and32,
  amo_or32, amo_cswap32, amo_fadd32, amo_fxor32, amo_fswap32, amo_fcswap32, amo_add64, amo_xor64,
  amo_swap64, amo_and64, amo_or64, amo_cswap64, amo_fadd64, amo_fxor64, amo_fswap64, amo_fcswap64,
}
use openshmem_rs.World.Loop.{Loop, then_loop, and_loop}
use openshmem_rs.Init.State.{ShmemState, Global}
use openshmem_rs.Init.Locked.{with_state_loop}
use openshmem_rs.Rma.{peer_and_address, complete_request, complete_fetch}

-- The arguments that `atomic_family!` takes: a width, and the binding's methods.
pub record Family : Type 0 where
  -- `size_of`, in bytes
  pub size : ℕ
  pub add : Amo
  pub xor : Amo
  pub swap : Amo
  pub and : Amo
  pub or : Amo
  pub cswap : Amo
  pub fadd : Amo
  pub fxor : Amo
  pub fswap : Amo
  pub fcswap : Amo

-- What a method of the binding answers, and the history with its call.
abbrev pub Made : Type 0 → Type 0
Made A = History → Outcome A × History

-- Methods that post an operation: endpoint, operand, address, key, and the size of the datatype; and
-- methods with a reply: endpoint, worker, operand, address, key, and what the reply's buffer holds.
abbrev pub Post : Type 0
Post = ℕ → ℕ → ℕ → ℕ → ℕ → Made (Option ℕ)

abbrev pub Fetch : Type 0
Fetch = ℕ → ℕ → ℕ → ℕ → ℕ → ℕ → Made ℕ

-- `AtomicValue`
pub record AtomicValue (T : Type 0) : Type 0 where
  pub size : ℕ
  pub bits : T → ℕ
  pub from_bits : ℕ → T
  pub add : Post
  pub xor : Post
  pub swap : Post
  pub and : Post
  pub or : Post
  -- expected and replacement
  pub cswap : ℕ → Post
  pub fadd : Fetch
  pub fxor : Fetch
  pub fswap : Fetch
  pub fcswap : ℕ → Fetch

module _ (a : Atomics) where
  -- A call of one of the binding's methods on an endpoint.
  abbrev pub post : Amo → ℕ → List ℕ → ℕ → ℕ → ℕ → Made (Option ℕ)
  post method e operands address key p h =
      (a.amo h method e operands address key p, amo_called method e operands address key ∷ h)

  abbrev pub fetch : Amo → ℕ → ℕ → List ℕ → ℕ → ℕ → ℕ → Made ℕ
  fetch method e worker operands address key reply h = (
    a.fetch_amo h method e operands address key reply,
    amo_called method e operands address key ∷ h,
  )

  -- `atomic_family!`, the implementation for the unsigned type.
  unfoldable pub unsigned : Family → AtomicValue ℕ
  unsigned f = record {
    size = f.size;
    bits = λ v. v;
    from_bits = λ v. v;
    add = λ e v address k p. post f.add e (v ∷ []) address k p;
    xor = λ e v address k p. post f.xor e (v ∷ []) address k p;
    swap = λ e v address k p. post f.swap e (v ∷ []) address k p;
    and = λ e v address k p. post f.and e (v ∷ []) address k p;
    or = λ e v address k p. post f.or e (v ∷ []) address k p;
    cswap = λ e x y address k p. post f.cswap e (x ∷ y ∷ []) address k p;
    fadd = λ e w v address k r. fetch f.fadd e w (v ∷ []) address k r;
    fxor = λ e w v address k r. fetch f.fxor e w (v ∷ []) address k r;
    fswap = λ e w v address k r. fetch f.fswap e w (v ∷ []) address k r;
    fcswap = λ e w x y address k r. fetch f.fcswap e w (x ∷ y ∷ []) address k r;
  }

  -- The implementation for the signed type casts, and calls that for the unsigned type.
  unfoldable pub signed : Family → AtomicValue ℤ
  unfolding unsigned
  signed f = record {
    size = f.size;
    bits = to_unsigned (256 ^ f.size);
    from_bits = to_signed (256 ^ f.size);
    add = λ e v address k p. (unsigned f).add e v address k p;
    xor = λ e v address k p. (unsigned f).xor e v address k p;
    swap = λ e v address k p. (unsigned f).swap e v address k p;
    and = λ e v address k p. (unsigned f).and e v address k p;
    or = λ e v address k p. (unsigned f).or e v address k p;
    cswap = λ e x y address k p. (unsigned f).cswap e x y address k p;
    fadd = λ e w v address k r. (unsigned f).fadd e w v address k r;
    fxor = λ e w v address k r. (unsigned f).fxor e w v address k r;
    fswap = λ e w v address k r. (unsigned f).fswap e w v address k r;
    fcswap = λ e w x y address k r. (unsigned f).fcswap e w x y address k r;
  }

-- The two uses of `atomic_family!`, for `u32` and `i32` and for `u64` and `i64`.
pub data Width : Type 0 where
  w32 w64 : Width

abbrev pub family : Width → Family
family w32 = record {
  size = 4;
  add = amo_add32;
  xor = amo_xor32;
  swap = amo_swap32;
  and = amo_and32;
  or = amo_or32;
  cswap = amo_cswap32;
  fadd = amo_fadd32;
  fxor = amo_fxor32;
  fswap = amo_fswap32;
  fcswap = amo_fcswap32;
}
family w64 = record {
  size = 8;
  add = amo_add64;
  xor = amo_xor64;
  swap = amo_swap64;
  and = amo_and64;
  or = amo_or64;
  cswap = amo_cswap64;
  fadd = amo_fadd64;
  fxor = amo_fxor64;
  fswap = amo_fswap64;
  fcswap = amo_fcswap64;
}

module _ (s : Services) where
  -- `.map_err(Error::from)` on what a method has answered.
  abbrev pub converted : {A : Type 0} → Outcome A × History → Result A × History
  converted (outcome, h) = (map_err (from_ucx s.statuses) outcome, h)

module _ (s : Services) (a : Atomics) {T : Type 0} (v : AtomicValue T) where
  -- The body of an operation without a result: a method on the endpoint, at the address, with the key
  -- and the size of the datatype.
  unfoldable pub posted :
      (ℕ → ℕ → ℕ → ℕ → Made (Option ℕ)) → ℕ → ℕ → ℕ → ShmemState → Loop (Unit {0})
  unfolding peer_and_address complete_request
  posted method rounds pe offset st h =
      then_loop (peer_and_address st pe offset v.size, h)
        λ target g.
          then_loop (converted s (method target.0.endpoint target.1 target.0.rkey v.size g))
            (complete_request s rounds st.transport)

  -- The body of an operation with a reply: a method on the endpoint, the worker, at the address, with
  -- the key.
  unfoldable pub fetched : (ℕ → ℕ → ℕ → ℕ → Made ℕ) → ℕ → ℕ → ℕ → ShmemState → Loop T
  unfolding peer_and_address complete_fetch
  fetched method rounds pe offset st h =
      then_loop (peer_and_address st pe offset v.size, h)
        λ target g.
          then_loop
            (converted s (method target.0.endpoint st.transport.worker target.1 target.0.rkey g))
            λ request f.
              and_loop (complete_fetch s rounds request f)
                λ _ k. some (ok (v.from_bits (a.replied k request)), k)

  -- `atomic_op!`
  unfoldable pub atomic_op : Post → ℕ → ℕ → ℕ → T → Global → Option (Result (Unit {0}) × Global)
  unfolding posted
  atomic_op method rounds pe offset value =
      with_state_loop
        (posted (λ e address key p. method e (v.bits value) address key p) rounds pe offset)

  abbrev pub atomic_add : ℕ → ℕ → ℕ → T → Global → Option (Result (Unit {0}) × Global)
  atomic_add = atomic_op v.add

  abbrev pub atomic_xor : ℕ → ℕ → ℕ → T → Global → Option (Result (Unit {0}) × Global)
  atomic_xor = atomic_op v.xor

  abbrev pub atomic_swap : ℕ → ℕ → ℕ → T → Global → Option (Result (Unit {0}) × Global)
  atomic_swap = atomic_op v.swap

  abbrev pub atomic_and : ℕ → ℕ → ℕ → T → Global → Option (Result (Unit {0}) × Global)
  atomic_and = atomic_op v.and

  abbrev pub atomic_or : ℕ → ℕ → ℕ → T → Global → Option (Result (Unit {0}) × Global)
  atomic_or = atomic_op v.or

  unfoldable pub atomic_cswap : ℕ → ℕ → ℕ → T → T → Global → Option (Result (Unit {0}) × Global)
  unfolding posted
  atomic_cswap rounds pe offset expected replacement = with_state_loop (
      posted (λ e address key p. v.cswap e (v.bits expected) (v.bits replacement) address key p)
        rounds pe offset)

  -- `atomic_fetch!`
  unfoldable pub atomic_fetch : Fetch → ℕ → ℕ → ℕ → T → Global → Option (Result T × Global)
  unfolding fetched
  atomic_fetch method rounds pe offset operand = with_state_loop (
      fetched
        (λ e worker address key. method e worker (v.bits operand) address key (v.bits operand))
        rounds pe offset)

  abbrev pub atomic_fadd : ℕ → ℕ → ℕ → T → Global → Option (Result T × Global)
  atomic_fadd = atomic_fetch v.fadd

  abbrev pub atomic_fxor : ℕ → ℕ → ℕ → T → Global → Option (Result T × Global)
  atomic_fxor = atomic_fetch v.fxor

  abbrev pub atomic_fswap : ℕ → ℕ → ℕ → T → Global → Option (Result T × Global)
  atomic_fswap = atomic_fetch v.fswap

  unfoldable pub atomic_fcswap : ℕ → ℕ → ℕ → T → T → Global → Option (Result T × Global)
  unfolding fetched
  atomic_fcswap rounds pe offset expected replacement = with_state_loop (
      fetched
        (λ e worker address key.
          v.fcswap e worker (v.bits expected) (v.bits replacement) address key (v.bits expected))
        rounds pe offset)
