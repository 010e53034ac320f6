-- ===== src/Init/Start.antt =====
-- `init` on a process without a state: what it leaves when it returns and when it fails.
use openshmem_rs.Prelude.{
  done, failed, ◌∙◌, ap, sym, ℕ, ◌%◌, ◌<◌, ◌≡◌, refl, ◌∷◌, Option, none, some, true, inl, inr,
  Outcome-cases, u32_mod, arith,
}
use openshmem_rs.Error.{Error, Result, ok, err, panic}
use openshmem_rs.Error.Convert.{from_pmix}
use openshmem_rs.World.{
  Services, History, Io, connected, disconnected, and_then, ◌>>=◌, and_then-inv, pure,
}
use openshmem_rs.SymHeap
use openshmem_rs.SymHeap.{SymHeap}
use openshmem_rs.SymHeap.Invariant.{IsValid}
use openshmem_rs.SymHeap.Create.{IsVector, IsFresh, with_size-IsValid}
use openshmem_rs.Bootstrap.Peers.{ConnectedBelow}
use openshmem_rs.Bootstrap.Handshake.{handshake_lem, not_empty}
use openshmem_rs.Init.State.{Runtime, ShmemState, Process}
use openshmem_rs.Init.{
  Setup, with_client, after_error, job_size, runtime_new, new_runtime, start, install,
}

-- A run that returns what `P` says of, or that fails with the disconnection of the client as its last
-- call, or that panics.
data Settles {A : Type 0} (client : ℕ) (P : A → Type 0) : Result A × History → Type 0 where
  settled : {a : A} {h : History} → P a → Settles client P (ok a, h)
  released : {e : Error} {h : History} → Settles client P (err e, disconnected client ∷ h)
  panicked : {h : History} → Settles client P (panic, h)

module _ {A B : Type 0} {client : ℕ} {P : B → Type 0} where
  guarded :
      (r : Result A × History) (k : A → Io B)
      → ((a : A) (g : History) → r ≡ (ok a, g) → Settles client P (k a g))
      → Settles client P (and_then (after_error client r) k)
  unfolding and_then after_error
  guarded (ok a, g) k next = next a g refl
  guarded (err e, g) k next = released
  guarded (panic, g) k next = panicked

-- What a process has while it is initialised: a valid heap; a connection and a key for each PE below
-- the job size, as far as a `u32` goes; its own rank; and a team if there are collectives.
pub record IsSound (s : Services) (u : Setup) (st : ShmemState) : Type 0 where
  pub heap_valid : IsValid st.heap
  pub some_pe : 0 < st.size
  pub connected :
      ConnectedBelow (st.size % u32_mod) (record { peer_rkeys = st.peer_rkeys; peers = st.peers })
  pub own_rank : st.rank ≡ s.pmix.require_rank st.client
  pub team :
      u.collectives ≡ true
      → (st.size < u32_mod) × ((runtime : Runtime) × (st.collectives ≡ some runtime))

-- At the start the heap is wholly free.
pub record IsReady (s : Services) (u : Setup) (st : ShmemState) : Type 0 where
  pub sound : IsSound s u st
  pub heap_fresh : (size : ℕ) × IsFresh size st.heap

module _ (s : Services) (u : Setup) where
  runtime_new_lem :
      (client rank size : ℕ) (h g : History) (runtime : Runtime)
      → runtime_new s u client rank size h ≡ (ok runtime, g)
      → size < u32_mod
  unfolding runtime_new and_then
  runtime_new_lem client rank size h g runtime e = ground arith

  new_runtime_lem :
      (client rank size : ℕ) (h g : History) (runtime : Option Runtime)
      → new_runtime s u client rank size h ≡ (ok runtime, g)
      → u.collectives ≡ true
      → (size < u32_mod) × ((t : Runtime) × (runtime ≡ some t))
  unfolding new_runtime
  new_runtime_lem client rank size h g runtime e on =
      let run : (runtime_new s u client rank size >>= λ t. pure (some t)) h ≡ (ok runtime, g) =
        ground arith in
      let (t, f, made, left) =
        and_then-inv (runtime_new s u client rank size) (λ t. pure (some t)) h g run in
      (runtime_new_lem client rank size h f t made, (t, ground arith))

  sized :
      {B : Type 0} {P : B → Type 0} {client : ℕ} (h : History) (k : Option ℕ → Io B)
      → ((x : Option ℕ) (g : History) → Settles client P (k x g))
      → Settles client P (and_then (job_size s u client h) k)
  unfolding job_size and_then
  sized {client = client} h k next =
      elim (Outcome-cases (s.pmix.proc_with_nspace client s.pmix.rank_wildcard)) [
        | inl (proc, e) ↦ rw (e, and_then, job_size) (next _ _)
        | inr (status, e) ↦ rw (e, and_then, job_size) (next _ _)
      ]

  new_heap_lem :
      (size : Option ℕ) (heap : SymHeap)
      → IsVector u.registration
      → SymHeap.new s.statuses u.registration size ≡ ok heap
      → IsValid heap × ((n : ℕ) × IsFresh n heap)
  unfolding SymHeap.new
  new_heap_lem none heap vec e =
      let (valid, whole) = with_size-IsValid s.statuses u.registration _ heap vec e in
      (valid, (_, whole))
  new_heap_lem (some n) heap vec e =
      let (valid, whole) = with_size-IsValid s.statuses u.registration n heap vec e in
      (valid, (n, whole))

  -- What `init` has done to a process without a state. Where PMIx connected a client: there is a state
  -- that is ready and holds it; or, after an error, the client was disconnected last and there is no
  -- state; or a panic has left none. Where PMIx refused, its status is the error and nothing else was
  -- called.
  pub data Started (h : History) : Result (Unit {0}) × Process → Type 0 where
    ready :
        {st : ShmemState} {g : History}
        → s.pmix.connect_new h ≡ done st.client
        → IsReady s u st
        → Started h (ok tt, record { state = some st; history = g })
    refused :
        {status : ℕ}
        → s.pmix.connect_new h ≡ failed status
        → Started h
            (err (from_pmix s.statuses status), record { state = none; history = connected ∷ h })
    undone :
        {e : Error} {client : ℕ} {g : History}
        → s.pmix.connect_new h ≡ done client
        → Started h (err e, record { state = none; history = disconnected client ∷ g })
    crashed :
        {client : ℕ} {g : History}
        → s.pmix.connect_new h ≡ done client
        → Started h (panic, record { state = none; history = g })

  with_client-Settles :
      (client : ℕ) (h : History)
      → IsVector u.registration
      → Settles client (λ st. IsReady s u st × (st.client ≡ client)) (with_client s u client h)
  unfolding with_client
  with_client-Settles client h vec = guarded _ _ λ transport h1 e1. guarded _ _ λ heap h2 e2.
      sized h2 _ λ found h3. guarded _ _ λ size h4 e4. guarded _ _ λ b h5 e5.
        guarded _ _ λ team h6 e6.
          let made : SymHeap.new s.statuses u.registration u.symmetric_size ≡ ok heap =
            λ i. (e2 i).0 in
          let (valid, whole) = new_heap_lem u.symmetric_size heap vec made in
          settled (
            record {
              sound = record {
                heap_valid = valid;
                some_pe = not_empty s client transport heap size h4 h5 b e5;
                connected = (handshake_lem s client transport heap size h4 h5 b e5).0;
                own_rank = refl;
                team = new_runtime_lem client (s.pmix.require_rank client) size h5 h6 team e6;
              };
              heap_fresh = whole;
            },
            refl,
          )

  install-Started :
      (client : ℕ) (h : History) (r : Result ShmemState × History)
      → s.pmix.connect_new h ≡ done client
      → Settles client (λ st. IsReady s u st × (st.client ≡ client)) r
      → Started h (install s u r)
  unfolding install
  install-Started client h r e (settled p) = ready (e ∙ ap done (sym p.1)) p.0
  install-Started client h r e released = undone e
  install-Started client h r e panicked = crashed e

  -- `init` on a process without a state, with a global allocator whose vectors are aligned.
  pub start_lem : (h : History) → IsVector u.registration → Started h (install s u (start s u h))
  unfolding start and_then install
  start_lem h vec = elim (Outcome-cases (s.pmix.connect_new h)) [
    | inl (client, e) ↦
        rw (e, and_then)
          (install-Started client h _ e (with_client-Settles client (connected ∷ h) vec))
    | inr (status, e) ↦ rw (e, and_then, install) (refused e)
  ]
