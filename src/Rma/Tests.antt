-- ===== src/Rma/Tests.antt =====
-- Transfers between two PEs, on services with fixed answers.
use openshmem_rs.Prelude.{
  ◌<◌, ◌≤◌, ◌≡◌, ◌⊎◌, refl, [], ◌∷◌, some, arith, done, u32_mod, leb, length,
}
use openshmem_rs.Prelude.BTree
use openshmem_rs.Error.{err, usage}
use openshmem_rs.World.{Services, Ucx, and_then}
use openshmem_rs.SymHeap.{SymHeap, with_size}
use openshmem_rs.SymHeap.PeerRkeys
use openshmem_rs.SymHeap.Create.{with_size-IsValid}
use openshmem_rs.Transport.{create_endpoint}
use openshmem_rs.Bootstrap.{PeerConnection, handshake, connect_peer, incomplete}
use openshmem_rs.Bootstrap.Handshake.{handshake_lem}
use openshmem_rs.Bootstrap.Tests as Two
use openshmem_rs.Init.Tests.{setup, vectors}
use openshmem_rs.Init.State.{ShmemState}
use openshmem_rs.Init.Start.{IsSound}
use openshmem_rs.Init.State.{unlocked}
use openshmem_rs.Rma.{peer_and_address, putmem, getmem, quiet}
use openshmem_rs.Rma.Wait.{after_rounds}
use openshmem_rs.Prelude.{List, position}
use openshmem_rs.SymHeap.{Registration, malloc, free}
use openshmem_rs.SymHeap.Create.{IsVector}
use openshmem_rs.SymHeap.Runs.{step}
use openshmem_rs.SymHeap.Symmetry.{Request, asks, returns, after_requests}
use openshmem_rs.Rma.Symmetric.{Lands, peer_and_address-malloc}
use openshmem_rs.Rma.Target.{Admitted, peer_and_address_lem}
use openshmem_rs.Prelude.{inl, usize_mod, ◌*◌}
use openshmem_rs.Pod.{little, u16}
use openshmem_rs.Pod.Decode.{values_of}
use openshmem_rs.World.Loop.{map_run}
use openshmem_rs.Init.Held.{Held}
use openshmem_rs.Rma.{quiet_pe}
use openshmem_rs.Rma.Complete.{Prompt}
use openshmem_rs.Rma.Outcomes.{PutBody, GetBody, putmem-Puts, getmem-Gets}
use openshmem_rs.Rma.Flushes.{Flushes, quiet-Flushes}
use openshmem_rs.Rma.Returns.{Returns, transfers_return}
use openshmem_rs.Rma.Typed.{get}
use openshmem_rs.Rma.Values.{get-getmem}

-- UCX needs two rounds for request 5, and completes the others in one.
abbrev slow : Ucx
slow = record Two.loopback {
  rma_put = λ h ep bytes addr key. done (some 5);
  flush = λ h ep. done (some 6);
  wait_request = λ h w r. done (leb 3 (length h));
}

abbrev pub services : Services
services = record Two.services { ucx = slow }

abbrev words : SymHeap
words = record {
  memh = 7;
  region = 0 ∷ 0 ∷ 0 ∷ [];
  free_list = record { start = 0; len = 24 } ∷ [];
  allocations = [];
  packed_rkey = 9 ∷ 0 ∷ 0 ∷ 0 ∷ [];
  local_base = 4096;
}

abbrev pub running : ShmemState
running = record {
  peers = Two.outcome.peers;
  heap = words;
  transport = Two.transport;
  collectives = some (record { team = 30; context = 29 });
  client = 1;
  rank = 0;
  size = 2;
  peer_rkeys = Two.outcome.peer_rkeys;
}

running-IsSound : IsSound Two.services setup running
unfolding handshake connect_peer create_endpoint incomplete and_then BTree.insert PeerRkeys.insert
    with_size
running-IsSound = record {
  heap_valid = (with_size-IsValid Two.services.statuses setup.registration 20 words vectors refl).0;
  some_pe = omega arith;
  connected =
      (handshake_lem Two.services 1 Two.transport Two.heap 2 []
        (handshake Two.services 1 Two.transport Two.heap 2 []).1 Two.outcome refl).0;
  own_rank = refl;
  team = λ on. (omega arith, (_, refl));
}

peer_and_address_lem_example :
    ((1 < 2)
      × ((peer : PeerConnection) × (BTree.get 1 running.peers ≡ some peer)
          × (0 < peer.heap_base)
          × Admitted running 1 16 8 peer))
    ⊎ ((2 ≤ 1)
        × (1 < u32_mod)
        × (peer_and_address running 1 16 8 ≡ err (usage "PE number is not in the job")))
    ⊎ ((u32_mod ≤ 1) × (peer_and_address running 1 16 8 ≡ err (usage "PE number is out of range")))
peer_and_address_lem_example =
    peer_and_address_lem Two.services setup running 1 16 8 running-IsSound (omega arith)

-- Two bytes of which UCX has stored one.
abbrev sparse : Services
sparse = record services {
  ucx = record slow {
    rma_get = λ h ep len addr key. done (some 5);
    received = λ h ep addr len key. 3 ∷ [];
  };
}

-- Request 5 of the put is incomplete in the first rounds.
putmem-Puts_example :
    Held
      (PutBody services 9 1 (3 ∷ 4 ∷ []) 16)
      (unlocked (some running) [])
      (putmem services 9 1 (3 ∷ 4 ∷ []) 16 (unlocked (some running) []))
putmem-Puts_example = putmem-Puts services 9 1 (3 ∷ 4 ∷ []) 16 (unlocked (some running) [])

getmem-Gets_example :
    Held
      (GetBody sparse 9 1 16 2)
      (unlocked (some running) [])
      (getmem sparse 9 1 16 2 (unlocked (some running) []))
getmem-Gets_example = getmem-Gets sparse 9 1 16 2 (unlocked (some running) [])

quiet-Flushes_example :
    Held
      (λ st h. Flushes services 9 st.transport st.peers h)
      (unlocked (some running) [])
      (quiet services 9 (unlocked (some running) []))
quiet-Flushes_example = quiet-Flushes services 9 (unlocked (some running) [])

pub prompt : Prompt services 4
unfolding after_rounds
prompt t request h = (3, omega arith, inl (ground arith))

transfers_return_example :
    Returns (putmem services 4 1 (3 ∷ 4 ∷ []) 16 (unlocked (some running) []))
    × Returns (getmem services 4 1 16 2 (unlocked (some running) []))
    × Returns (quiet_pe services 4 1 (unlocked (some running) []))
    × Returns (quiet services 4 (unlocked (some running) []))
transfers_return_example =
    transfers_return services 4 4 prompt (omega arith) 1 16 2 (3 ∷ 4 ∷ [])
      (unlocked (some running) [])

-- A get of two values of two bytes, of which UCX has stored one byte.
get-getmem_example :
    ((usize_mod ≤ 2 * 2)
      × (get sparse little 9 u16 1 16 2 (unlocked (some running) [])
          ≡ some (err (usage "typed RMA length overflow"), unlocked (some running) [])))
    ⊎ ((2 * 2 < usize_mod)
        × (get sparse little 9 u16 1 16 2 (unlocked (some running) [])
            ≡ map_run
                (values_of little u16 2)
                (getmem sparse 9 1 16 (2 * 2) (unlocked (some running) []))))
get-getmem_example = get-getmem sparse little u16 9 1 16 2 (unlocked (some running) [])

-- PE 1 of the job, whose heap has the base 8192.
abbrev far_heap : SymHeap
far_heap = record words { local_base = 8192 }

abbrev far_registration : Registration
far_registration = record setup.registration { vec_address = λ n. 8192 }

far_vectors : IsVector far_registration
far_vectors = record { word_aligned = λ n. refl; ends = λ n small. omega (arith, small) }

abbrev both_call : List Request
both_call = asks 8 ∷ asks 3 ∷ returns 0 ∷ []

-- The third to sixth byte of the second allocation.
peer_and_address-malloc_example :
    Lands
      (after_requests words both_call)
      (after_requests far_heap both_call)
      running
      1
      (record { endpoint = 10; rkey = 20; heap_base = 8192 })
      (record { addr = 4104 })
      8
      2
      4
unfolding after_requests BTree.get BTree.insert BTree.erase malloc free step with_size position
peer_and_address-malloc_example =
    peer_and_address-malloc Two.services.statuses Two.services.statuses setup.registration
      far_registration 20 words far_heap both_call vectors far_vectors refl refl running 1
      (record { endpoint = 10; rkey = 20; heap_base = 8192 }) (omega arith) refl refl
      (record { addr = 4104 }) 8 2 4 refl (omega arith)
