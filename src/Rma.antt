-- ===== src/Rma.antt =====
-- src/rma.rs: blocking remote access to the peers' heaps, and its completion.
pub mod Wait
pub mod Complete
pub mod Replies
pub mod Target
pub mod Symmetric
pub mod Fetch
pub mod Transfer
pub mod Gets
pub mod Attempt
pub mod Outcomes
pub mod Flushes
pub mod Returns
pub mod Typed
pub mod Values
pub mod Roundtrip
pub mod Tests
use openshmem_rs.Prelude.{
  ℕ, zero, suc, ◌∷◌, List, [], Option, none, some, Bool, true, false, if◌then◌else◌, ◌==◌, length,
  replicate, overwrite, checked_add, u32_try_from, leb, isize_limit, done, failed,
}
use openshmem_rs.Prelude.BTree
use openshmem_rs.Error.{
  Error, usage, internal, not_initialized, Result, ok, err, panic, ok_or, ◌>>=◌,
}
use openshmem_rs.Error.Convert.{from_ucx}
use openshmem_rs.World.Loop.{Loop, then_loop, and_loop}
use openshmem_rs.World.{
  Services, History, call, waited, freed, checked, progressed, worker_fenced, flushed, rma_put,
  rma_get,
}
use openshmem_rs.Transport.{UcxTransport}
use openshmem_rs.Bootstrap.{PeerConnection}
use openshmem_rs.Init.State.{ShmemState, Global, with_state}
use openshmem_rs.Init.Locked.{with_state_loop}

-- The connection to a PE, and the address of an offset in its heap. On a 64-bit target the conversions
-- of offsets and lengths to `u64` cannot fail.
unfoldable pub peer_and_address : ShmemState → ℕ → ℕ → ℕ → Result (PeerConnection × ℕ)
peer_and_address st pe offset len = elim (u32_try_from pe) [
  | none ↦ err (usage "PE number is out of range")
  | some pe ↦ elim (BTree.get pe st.peers) [
    | none ↦ err (usage "PE number is not in the job")
    | some peer ↦ elim (checked_add peer.heap_base offset) [
      | none ↦ err (usage "RMA address overflow")
      | some address ↦ elim (checked_add offset len) [
        | none ↦ err (usage "RMA range overflow")
        | some end ↦ ok (peer, address)
      ]
    ]
  ]
]

module _ (s : Services) where
  -- `wait_request`. Each round is a call of the binding's helper, which has a budget of its own.
  unfoldable pub wait_request : ℕ → UcxTransport → ℕ → Loop (Unit {0})
  wait_request zero t request h = none
  wait_request (suc rounds) t request h = elim (s.ucx.wait_request h t.worker request) [
    | failed status ↦ some (err (from_ucx s.statuses status), waited request ∷ h)
    | done true ↦ some (ok tt, waited request ∷ h)
    | done false ↦ wait_request rounds t request (waited request ∷ h)
  ]

  -- `complete_request`, which the transfers below have inline: an immediate completion has no request.
  unfoldable pub complete_request : ℕ → UcxTransport → Option ℕ → Loop (Unit {0})
  unfolding wait_request
  complete_request rounds t none h = some (ok tt, h)
  complete_request rounds t (some request) h =
      and_loop (wait_request rounds t request h) λ _ g. some (ok tt, freed request ∷ g)

  -- `complete_fetch`, which drives the worker itself between the tests of the request.
  unfoldable pub complete_fetch : ℕ → ℕ → Loop (Unit {0})
  complete_fetch zero request h = none
  complete_fetch (suc rounds) request h = elim (s.ucx.check_finished h request) [
    | failed status ↦ some (err (from_ucx s.statuses status), checked request ∷ h)
    | done true ↦ some (ok tt, freed request ∷ checked request ∷ h)
    | done false ↦ complete_fetch rounds request (progressed ∷ checked request ∷ h)
  ]

  -- The body of `putmem` behind the test of the range.
  unfoldable pub issue_put : ℕ → List ℕ → UcxTransport → PeerConnection × ℕ → Loop (Unit {0})
  unfolding complete_request
  issue_put rounds bytes t (peer, address) h =
      if length bytes == 0
      then some (ok tt, h)
      else then_loop
          (call (rma_put peer.endpoint bytes address peer.rkey)
            (λ g. s.ucx.rma_put g peer.endpoint bytes address peer.rkey) (from_ucx s.statuses) h)
          (complete_request rounds t)

  -- The body of `putmem`.
  unfoldable pub put_bytes : ℕ → ℕ → List ℕ → ℕ → ShmemState → Loop (Unit {0})
  unfolding peer_and_address issue_put
  put_bytes rounds pe bytes offset st h =
      then_loop (peer_and_address st pe offset (length bytes), h)
        (issue_put rounds bytes st.transport)

  unfoldable pub putmem : ℕ → ℕ → List ℕ → ℕ → Global → Option (Result (Unit {0}) × Global)
  unfolding put_bytes
  putmem rounds pe bytes offset = with_state_loop (put_bytes rounds pe bytes offset)

  -- The body of `getmem` behind the test of the range. `vec![0; len]` panics where the length is over
  -- `isize::MAX`.
  unfoldable pub issue_get : ℕ → ℕ → UcxTransport → PeerConnection × ℕ → Loop (List ℕ)
  unfolding complete_request
  issue_get rounds len t (peer, address) h =
      if leb isize_limit len
      then some (panic, h)
      else if len == 0
      then some (ok [], h)
      else then_loop
          (call (rma_get peer.endpoint len address peer.rkey)
            (λ g. s.ucx.rma_get g peer.endpoint len address peer.rkey) (from_ucx s.statuses) h)
          λ request f. and_loop (complete_request rounds t request f) λ _ k. some (
            ok (overwrite (replicate len 0) (s.ucx.received k peer.endpoint address len peer.rkey)),
            k,
          )

  -- The body of `getmem`.
  unfoldable pub get_bytes : ℕ → ℕ → ℕ → ℕ → ShmemState → Loop (List ℕ)
  unfolding peer_and_address issue_get
  get_bytes rounds pe offset len st h =
      then_loop (peer_and_address st pe offset len, h) (issue_get rounds len st.transport)

  unfoldable pub getmem : ℕ → ℕ → ℕ → ℕ → Global → Option (Result (List ℕ) × Global)
  unfolding get_bytes
  getmem rounds pe offset len = with_state_loop (get_bytes rounds pe offset len)

  unfoldable pub fence : Global → Result (Unit {0}) × Global
  fence = with_state λ st.
      call (worker_fenced st.transport.worker) (λ h. s.ucx.worker_fence h st.transport.worker)
        (from_ucx s.statuses)

  -- One endpoint's flush, and its completion.
  unfoldable pub flush_peer : ℕ → UcxTransport → PeerConnection → Loop (Unit {0})
  unfolding complete_request
  flush_peer rounds t peer h =
      then_loop
        (call (flushed peer.endpoint) (λ g. s.ucx.flush g peer.endpoint) (from_ucx s.statuses) h)
        (complete_request rounds t)

  unfoldable pub flush_peers : ℕ → UcxTransport → List (ℕ × PeerConnection) → Loop (Unit {0})
  unfolding flush_peer
  flush_peers rounds t [] h = some (ok tt, h)
  flush_peers rounds t (entry ∷ peers) h =
      and_loop (flush_peer rounds t entry.1 h) λ _. flush_peers rounds t peers

  unfoldable pub quiet : ℕ → Global → Option (Result (Unit {0}) × Global)
  unfolding flush_peers
  quiet rounds = with_state_loop λ st. flush_peers rounds st.transport st.peers

  abbrev pub find_peer : ShmemState → ℕ → Result PeerConnection
  find_peer st pe = do
    pe ← ok_or (u32_try_from pe) (usage "PE number is out of range")
    ok_or (BTree.get pe st.peers) (usage "PE number is not in the job")

  unfoldable pub quiet_pe : ℕ → ℕ → Global → Option (Result (Unit {0}) × Global)
  unfolding flush_peer
  quiet_pe rounds pe =
      with_state_loop λ st h. then_loop (find_peer st pe, h) (flush_peer rounds st.transport)

  abbrev pub quiet_all : ℕ → Global → Option (Result (Unit {0}) × Global)
  quiet_all = quiet
