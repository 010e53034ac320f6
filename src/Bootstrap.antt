-- ===== src/Bootstrap.antt =====
-- src/bootstrap.rs: each PE publishes its worker address, its packed key and its heap base, fences,
-- and connects to every PE.
pub mod Peers
pub mod Joined
pub mod Handshake
pub mod Tests
use openshmem_rs.Prelude.{
  ℕ, zero, suc, ◌+◌, ◌%◌, ◌<◌, String, Bool, ◌||◌, List, [], ◌∷◌, Option, length, if◌then◌else◌,
  ltb, ◌==◌, u32_mod,
}
use openshmem_rs.Prelude.BTree
use openshmem_rs.Error.{Error, pmix, usage, internal, Result, ok, err}
use openshmem_rs.Error.Convert.{Statuses, from_pmix, from_ucx, map_err}
use openshmem_rs.World.{
  Services, Event, History, Io, pure, raise, lift, call, ◌>>=◌, ◌>>◌, put_value, committed, fenced,
  get_value, created_ep, unpacked_rkey,
}
use openshmem_rs.SymHeap.{SymHeap}
use openshmem_rs.SymHeap.PeerRkeys
use openshmem_rs.SymHeap.PeerRkeys.{PeerRkeys}
use openshmem_rs.Transport.{UcxTransport, create_endpoint}

abbrev pub worker_addr_key : String
worker_addr_key = "shmem.worker.addr"

abbrev pub heap_rkey_key : String
heap_rkey_key = "shmem.heap.rkey"

abbrev pub heap_base_key : String
heap_base_key = "shmem.heap.base"

pub record PeerConnection : Type 0 where
  pub endpoint : ℕ
  pub rkey : ℕ
  pub heap_base : ℕ

pub record Bootstrap : Type 0 where
  pub peer_rkeys : PeerRkeys
  pub peers : List (ℕ × PeerConnection)

-- Metadata that a peer cannot have published: no worker address, a key shorter than its frame, or a
-- null heap base.
unfoldable pub incomplete : List ℕ → List ℕ → ℕ → Bool
incomplete address rkey heap_base = length address == 0 || ltb (length rkey) 4 || heap_base == 0

module _ (s : Services) where
  open s.pmix use {
    from_raw, byte_object, uint64_builder, build, proc_with_nspace, rank_wildcard, bytes_copy,
    uint64,
  }

  -- `pmix_error`
  unfoldable pub pmix_error : ℕ → Error
  pmix_error status = pmix (from_raw status)

  unfoldable pub put_bytes : String → List ℕ → Io (Unit {0})
  unfolding pmix_error
  put_bytes key bytes = do
    builder ←
        lift (map_err (λ _. usage "bootstrap byte value must not be empty") (byte_object bytes))
    value ← lift (map_err (λ _. usage "failed to build bootstrap byte value") (build builder))
    call (put_value key value) (λ h. s.pmix.put_value h key value) pmix_error

  -- What is published before the fence.
  unfoldable pub publish : UcxTransport → SymHeap → Io (Unit {0})
  unfolding put_bytes
  publish transport heap = do
    put_bytes worker_addr_key transport.packed_address
    put_bytes heap_rkey_key heap.packed_rkey
    base ← lift (
        map_err (λ _. usage "failed to build heap base value")
          (build (uint64_builder heap.local_base)))
    call (put_value heap_base_key base) (λ h. s.pmix.put_value h heap_base_key base) pmix_error

  unfoldable pub read_key : ℕ → String → Io ℕ
  read_key proc key =
      call (get_value proc key) (λ h. s.pmix.get_value h proc key) (from_pmix s.statuses)

  -- One round of the loop over the PEs.
  unfoldable pub connect_peer : ℕ → UcxTransport → ℕ → Bootstrap → Io Bootstrap
  unfolding read_key
  connect_peer client transport pe b = do
    proc ← lift (map_err (from_pmix s.statuses) (proc_with_nspace client pe))
    address ← read_key proc worker_addr_key
    rkey_value ← read_key proc heap_rkey_key
    base_value ← read_key proc heap_base_key
    let rkey_bytes = bytes_copy rkey_value
    let heap_base = uint64 base_value
    if incomplete (bytes_copy address) rkey_bytes heap_base
        then raise (internal "peer published incomplete bootstrap metadata")
        else do
          endpoint ← create_endpoint s transport (bytes_copy address)
          rkey ←
              call (unpacked_rkey endpoint rkey_bytes)
                (λ h. s.ucx.unpack_rkey h endpoint rkey_bytes) (from_ucx s.statuses)
          pure (record {
            peer_rkeys = PeerRkeys.insert pe heap_base rkey_bytes b.peer_rkeys;
            peers =
                BTree.insert pe (record { endpoint = endpoint; rkey = rkey; heap_base = heap_base })
                  b.peers;
          })

  -- The loop over `pe..pe + rounds`.
  unfoldable pub connect_peers : ℕ → UcxTransport → ℕ → ℕ → Bootstrap → Io Bootstrap
  connect_peers client transport zero pe b = pure b
  connect_peers client transport (suc rounds) pe b =
      connect_peer client transport pe b >>= connect_peers client transport rounds (pe + 1)

  unfoldable pub handshake : ℕ → UcxTransport → SymHeap → ℕ → Io Bootstrap
  unfolding publish connect_peers
  handshake client transport heap size =
      if size == 0 then raise (usage "bootstrap job size must be nonzero") else do
        publish transport heap
        call committed (λ h. s.pmix.commit h) pmix_error
        wildcard ← lift (map_err (from_pmix s.statuses) (proc_with_nspace client rank_wildcard))
        call (fenced wildcard) (λ h. s.pmix.fence h wildcard) pmix_error
        connect_peers client transport (size % u32_mod) 0
            (record { peer_rkeys = PeerRkeys.default; peers = [] })
