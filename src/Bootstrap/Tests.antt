-- ===== src/Bootstrap/Tests.antt =====
-- A job of two PEs that both publish a key of four bytes, and the theorems at it.
use openshmem_rs.Prelude.{
  ℕ, ◌+◌, ◌*◌, ◌%◌, ◌<◌, ◌^◌, ◌≡◌, refl, [], ◌∷◌, none, done, true, not, ◌==◌, u32_mod,
}
use openshmem_rs.Prelude.BTree
use openshmem_rs.Error.{ok}
use openshmem_rs.Error.Convert.{Statuses}
use openshmem_rs.World.{Services, Pmix, Ucx, config, and_then}
use openshmem_rs.SymHeap.{SymHeap}
use openshmem_rs.SymHeap.PeerRkeys
use openshmem_rs.Transport.{UcxTransport, create_endpoint}
use openshmem_rs.Bootstrap.{Bootstrap, handshake, incomplete, connect_peer}
use openshmem_rs.Bootstrap.Peers.{ConnectedBelow, Absent}
use openshmem_rs.Bootstrap.Handshake.{Handshaken, handshake_lem, handshake_wraps}

abbrev pub statuses : Statuses
statuses = record {
  pmix_success = λ s. s == 0;
  ucx_is_err = λ s. not (s == 0);
  ucc_is_error = λ s. not (s == 0);
}

abbrev pub two_pes : Pmix
two_pes = record {
  connect_new = λ h. done 1;
  require_rank = λ client. 0;
  disconnect = λ h client. done tt;
  from_raw = λ status. status;
  proc_with_nspace = λ client rank. done rank;
  rank_wildcard = 99;
  byte_object = λ bytes. done 5;
  uint64_builder = λ n. 6;
  build = λ builder. done builder;
  put_value = λ h key value. done tt;
  commit = λ h. done tt;
  fence = λ h proc. done tt;
  get_value = λ h proc key. done (proc + 1);
  bytes_copy = λ v. v ∷ 0 ∷ 0 ∷ 0 ∷ [];
  uint64 = λ v. v * 4096;
  uint32 = λ v. 2;
}

abbrev pub loopback : Ucx
loopback = record {
  config_read = config 1;
  context_new = λ c. done 2;
  worker_create = λ c. done 3;
  pack_address = λ w. done (8 ∷ []);
  mt_worker = λ w. done 4;
  create_ep = λ h w address. done 10;
  unpack_rkey = λ h ep bytes. done 20;
  wait_request = λ h w r. done true;
  check_finished = λ h r. done true;
  worker_fence = λ h w. done tt;
  flush = λ h ep. done none;
  rma_put = λ h ep bytes addr key. done none;
  rma_get = λ h ep len addr key. done none;
  received = λ h ep addr len key. [];
}

abbrev pub services : Services
services = record { statuses = statuses; pmix = two_pes; ucx = loopback }

abbrev pub transport : UcxTransport
transport = record {
  worker = 4;
  context = 2;
  packed_address = 8 ∷ [];
  capabilities = record { rma = true; loopback = true };
}

abbrev pub heap : SymHeap
heap = record {
  memh = 1;
  region = 0 ∷ 0 ∷ [];
  free_list = record { start = 0; len = 16 } ∷ [];
  allocations = [];
  packed_rkey = 1 ∷ 0 ∷ 0 ∷ 0 ∷ [];
  local_base = 4096;
}

abbrev pub outcome : Bootstrap
outcome = record {
  peer_rkeys =
      (0, record { heap_base = 4096; rkey = 1 ∷ 0 ∷ 0 ∷ 0 ∷ [] })
      ∷ (1, record { heap_base = 8192; rkey = 2 ∷ 0 ∷ 0 ∷ 0 ∷ [] })
      ∷ [];
  peers =
      (0, record { endpoint = 10; rkey = 20; heap_base = 4096 })
      ∷ (1, record { endpoint = 10; rkey = 20; heap_base = 8192 })
      ∷ [];
}

handshake_two : (handshake services 1 transport heap 2 []).0 ≡ ok outcome
unfolding handshake connect_peer create_endpoint incomplete and_then BTree.insert PeerRkeys.insert
handshake_two = refl

handshake_lem_example :
    ConnectedBelow (2 % u32_mod) outcome
    × Handshaken services 1 transport heap
        (2 % u32_mod)
        []
        outcome
        (handshake services 1 transport heap 2 []).1
unfolding handshake connect_peer create_endpoint incomplete and_then BTree.insert PeerRkeys.insert
handshake_lem_example =
    handshake_lem services 1 transport heap 2 [] (handshake services 1 transport heap 2 []).1
      outcome refl

abbrev nobody : Bootstrap
nobody = record { peer_rkeys = []; peers = [] }

handshake_wraps_example : (0 < 2 ^ 32) × ((pe : ℕ) → Absent nobody pe)
unfolding handshake and_then
handshake_wraps_example =
    handshake_wraps services 1 transport heap (2 ^ 32) []
      (handshake services 1 transport heap (2 ^ 32) []).1 nobody refl refl
