-- ===== src/World/Calls.antt =====
-- Histories of calls, and the monad of code that makes calls and may fail.
use openshmem_rs.Prelude.{ℕ, String, List, ◌∷◌, Outcome, ◌≡◌, refl, arith}
use openshmem_rs.Error.{Error, Result, ok, err, panic, Exec}
use openshmem_rs.Error.Convert.{map_err}
use openshmem_rs.World.Ucc.{CollectiveBuilder}

-- The bindings' atomic memory operations, by their names.
pub data Amo : Type 0 where
  amo_add32 amo_xor32 amo_swap32 amo_and32 amo_or32 amo_cswap32 : Amo
  amo_fadd32 amo_fxor32 amo_fswap32 amo_fcswap32 : Amo
  amo_add64 amo_xor64 amo_swap64 amo_and64 amo_or64 amo_cswap64 : Amo
  amo_fadd64 amo_fxor64 amo_fswap64 amo_fcswap64 : Amo

pub data Event : Type 0 where
  connected : Event
  disconnected : ℕ → Event
  put_value : String → ℕ → Event
  committed : Event
  fenced : ℕ → Event
  get_value : ℕ → String → Event
  created_ep : ℕ → List ℕ → Event
  unpacked_rkey : ℕ → List ℕ → Event
  waited : ℕ → Event
  freed : ℕ → Event
  -- a request's state, and a round of the worker's progress
  checked : ℕ → Event
  progressed : Event
  worker_fenced : ℕ → Event
  flushed : ℕ → Event
  -- endpoint, bytes or length, address, key
  rma_put : ℕ → List ℕ → ℕ → ℕ → Event
  rma_get : ℕ → ℕ → ℕ → ℕ → Event
  -- endpoint, operands, address, key
  amo_called : Amo → ℕ → List ℕ → ℕ → ℕ → Event
  -- a collective: its creation for a team, its start, and its end; and a round of a context's progress
  collective_made : CollectiveBuilder → ℕ → Event
  collective_posted : ℕ → Event
  collective_finalized : ℕ → Event
  ucc_progressed : ℕ → Event

abbrev pub History : Type 0
History = List Event

abbrev pub Io {ℓ} : Type ℓ → Type ℓ
Io A = Exec History A

module _ {ℓ} {A : Type ℓ} where
  abbrev pub pure : A → Io A
  pure a h = (ok a, h)

  abbrev pub raise : Error → Io A
  raise e h = (err e, h)

  abbrev pub lift : Result A → Io A
  lift r h = (r, h)

  -- A call: it enters the history, and a status that reports failure becomes an error.
  abbrev pub call : Event → (History → Outcome A) → (ℕ → Error) → Io A
  call event answer convert h = (map_err convert (answer h), event ∷ h)

module _ {ℓ κ} {A : Type ℓ} {B : Type κ} where
  -- Shut, so that a proof about a chain of calls can step through it by rules.
  unfoldable pub and_then : Result A × History → (A → Io B) → Result B × History
  and_then (ok a, h) k = k a h
  and_then (err e, h) k = (err e, h)
  and_then (panic, h) k = (panic, h)

  infixl 5 ◌>>=◌ ◌>>◌
  abbrev pub ◌>>=◌ : Io A → (A → Io B) → Io B
  ◌>>=◌ m k h = and_then (m h) k

  abbrev pub ◌>>◌ : Io A → Io B → Io B
  m >> k = m >>= λ _. k

  -- A run that returns has come through its first part.
  pub and_then-inv :
      (m : Io A) (k : A → Io B) (h g : History) {b : B}
      → (m >>= k) h ≡ (ok b, g)
      → (a : A) × (f : History) × (m h ≡ (ok a, f)) × (k a f ≡ (ok b, g))
  unfolding and_then
  and_then-inv m k h g e = go (m h) refl e
    where
      go :
          {b : B} (r : Result A × History)
          → m h ≡ r
          → and_then r k ≡ (ok b, g)
          → (a : A) × (f : History) × (m h ≡ (ok a, f)) × (k a f ≡ (ok b, g))
      go (ok a, f) same e = (a, f, same, e)
      go (err x, f) same e = absurd (ground arith)
      go (panic, f) same e = absurd (ground arith)
