-- ===== src/Init.antt =====
-- src/init.rs: the lifecycle of the process.
pub mod State
pub mod Locked
pub mod Held
pub mod Start
pub mod Lifecycle
pub mod Runs
pub mod Tests
use openshmem_rs.Prelude.{
  ℕ, ◌∷◌, Option, none, some, Bool, true, false, Outcome, done, failed, if◌then◌else◌, u32_try_from,
}
use openshmem_rs.Error.{
  Error, pmix, ucc, usage, internal, already_initialized, not_initialized, Result, ok, err, panic,
  Exec, ok_or,
}
use openshmem_rs.Error.Convert.{from_pmix, map_err}
use openshmem_rs.World.{
  Services, Event, connected, disconnected, get_value, History, Io, pure, raise, lift, call, ◌>>=◌,
  ◌>>◌,
}
use openshmem_rs.SymHeap
use openshmem_rs.SymHeap.{SymHeap, Registration, SymPtr}
use openshmem_rs.Transport
use openshmem_rs.Transport.{UcxTransport}
use openshmem_rs.Bootstrap.{Bootstrap, handshake}
use State.{Runtime, ShmemState, Process, Global, lock_state, with_state, with_state_mut}

-- What a start reads besides PMIx and UCX: the parsed environment variables, the registration of the
-- heap, and with the feature `collectives` the creation of the UCC team.
pub record Setup : Type 0 where
  -- `SHMEM_SYMMETRIC_SIZE` and `PMIX_SIZE`
  pub symmetric_size : Option ℕ
  pub pmix_size : Option ℕ
  pub registration : Registration
  pub collectives : Bool
  -- `UccLib::init`, `UccContext::new`, and `UccTeam::with_params`, which runs the exchange with the
  -- client, of a rank and a job size.
  pub ucc_lib : Outcome ℕ
  pub ucc_context : ℕ → Outcome ℕ
  pub ucc_team : History → ℕ → ℕ → ℕ → ℕ → Outcome ℕ

abbrev pub map_ucc : ℕ → Error
map_ucc status = ucc status

-- `let _ = client.disconnect(None)`: its result is dropped.
unfoldable pub after_error {ℓ} : {A : Type ℓ} → ℕ → Result A × History → Result A × History
after_error client (ok a, h) = (ok a, h)
after_error client (err e, h) = (err e, disconnected client ∷ h)
after_error client (panic, h) = (panic, h)

-- A step of `init` whose error disconnects the client before it is returned.
abbrev pub or_disconnect {ℓ} : {A : Type ℓ} → ℕ → Io A → Io A
or_disconnect client m h = after_error client (m h)

module _ (s : Services) (u : Setup) where
  abbrev pub or_env : Outcome ℕ → Option ℕ
  or_env (done value) = some (s.pmix.uint32 value)
  or_env (failed status) = u.pmix_size

  -- The job size from PMIx, else from `PMIX_SIZE`.
  unfoldable pub job_size : ℕ → Io (Option ℕ)
  job_size client h = elim (s.pmix.proc_with_nspace client s.pmix.rank_wildcard) [
    | done wildcard ↦ (
      ok (or_env (s.pmix.get_value h wildcard "pmix.job.size")),
      get_value wildcard "pmix.job.size" ∷ h,
    )
    | failed status ↦ (ok u.pmix_size, h)
  ]

  -- `coll::Runtime::new`
  unfoldable pub runtime_new : ℕ → ℕ → ℕ → Io Runtime
  runtime_new client rank size = do
    ranks ← lift (ok_or (u32_try_from size) (usage "job size exceeds UCC limits"))
    lib ← lift (map_err map_ucc u.ucc_lib)
    context ← lift (map_err map_ucc (u.ucc_context lib))
    team ← λ h. (map_err map_ucc (u.ucc_team h client context rank ranks), h)
    pure (record { team = team; context = context })

  -- The runtime is there with the feature only.
  unfoldable pub new_runtime : ℕ → ℕ → ℕ → Io (Option Runtime)
  unfolding runtime_new
  new_runtime client rank size h = elim u.collectives [
    | false ↦ (ok none, h)
    | true ↦ (runtime_new client rank size >>= λ runtime. pure (some runtime)) h
  ]

  -- The part of `init` behind the connection. The state is installed before the team is made and
  -- taken back if that fails; the lock is held meanwhile.
  unfoldable pub with_client : ℕ → Io ShmemState
  unfolding job_size new_runtime
  with_client client = do
    let rank = s.pmix.require_rank client
    transport ← or_disconnect client (lift (Transport.new s))
    heap ← or_disconnect client (lift (SymHeap.new s.statuses u.registration u.symmetric_size))
    found ← job_size client
    size ← or_disconnect client (
        lift (
          ok_or found
            (internal "PMIx job size unavailable and PMIX_SIZE is not set to a valid value")))
    b ← or_disconnect client (handshake s client transport heap size)
    runtime ← or_disconnect client (new_runtime client rank size)
    pure (record {
      peers = b.peers;
      heap = heap;
      transport = transport;
      collectives = runtime;
      client = client;
      rank = rank;
      size = size;
      peer_rkeys = b.peer_rkeys;
    })

  -- The part of `init` that runs without a state.
  unfoldable pub start : Io ShmemState
  unfolding with_client
  start = call connected s.pmix.connect_new (from_pmix s.statuses) >>= with_client

  unfoldable pub install : Result ShmemState × History → Result (Unit {0}) × Process
  install (ok st, h) = (ok tt, record { state = some st; history = h })
  install (err e, h) = (err e, record { state = none; history = h })
  install (panic, h) = (panic, record { state = none; history = h })

  unfoldable pub init_locked : Option ShmemState → Exec Process (Unit {0})
  unfolding start install
  init_locked (some st) p = (err already_initialized, p)
  init_locked none p = install (start p.history)

  unfoldable pub init : Exec Global (Unit {0})
  unfolding init_locked
  init = lock_state λ p. init_locked p.state p

module _ (s : Services) where
  -- The state is taken before the client is disconnected, so it is gone whatever that returns.
  unfoldable pub finalize_locked : Option ShmemState → Exec Process (Unit {0})
  finalize_locked none p = (ok tt, p)
  finalize_locked (some st) p = (
    map_err (λ status. pmix (s.pmix.from_raw status)) (s.pmix.disconnect p.history st.client),
    record { state = none; history = disconnected st.client ∷ p.history },
  )

  unfoldable pub finalize : Exec Global (Unit {0})
  unfolding finalize_locked
  finalize = lock_state λ p. finalize_locked p.state p

abbrev pub query : {T : Type 0} → (ShmemState → T) → ShmemState → Io T
query f st = pure (f st)

unfoldable pub my_pe : Exec Global ℕ
my_pe = with_state (query (λ st. st.rank))

unfoldable pub n_pes : Exec Global ℕ
n_pes = with_state (query (λ st. st.size))

-- `symheap::malloc`, `symheap::free` and `symheap::heap_base`: the allocator of the installed heap.
abbrev pub on_heap : {T : Type 0} → Exec SymHeap T → Exec ShmemState T
on_heap method st = let (r, h) = method st.heap in (r, record st { heap = h })

unfoldable pub malloc : ℕ → Exec Global SymPtr
malloc size = with_state_mut (on_heap (SymHeap.malloc size))

unfoldable pub free : SymPtr → Exec Global (Unit {0})
free ptr = with_state_mut (on_heap (SymHeap.free ptr))

unfoldable pub heap_base : Exec Global ℕ
heap_base = with_state (query (λ st. st.heap.local_base))
