-- ===== src/Init/Tests.antt =====
-- Two PEs come up, run and shut down, on services with fixed answers.
use openshmem_rs.Prelude.{◌≡◌, refl, [], ◌∷◌, some, none, true, arith, done}
use openshmem_rs.Error.{ok}
use openshmem_rs.Lock.{with_lock}
use openshmem_rs.World.{and_then}
use openshmem_rs.SymHeap.{Registration}
use openshmem_rs.SymHeap.Create.{IsVector}
use openshmem_rs.SymHeap
use openshmem_rs.Transport
use openshmem_rs.Bootstrap.{handshake, connect_peer, incomplete}
use openshmem_rs.Bootstrap.Tests.{services}
use openshmem_rs.Init.State.{Global, lock_state}
use openshmem_rs.Init.State.{unlocked}
use openshmem_rs.Init.Lifecycle.{Initialised, Finalised, Ended, init_lem, finalize_lem}
use openshmem_rs.Init.Runs.{IsKept, stateless, run, run-IsKept, inits, finalizes, mallocs}
use openshmem_rs.Init.{Setup, after_error, init, finalize, start, install}

abbrev pub setup : Setup
setup = record {
  symmetric_size = some 20;
  pmix_size = none;
  registration = record {
    vec_address = λ n. 4096;
    map_region = λ base total. done 7;
    pack_rkey = λ handle. done (9 ∷ 0 ∷ 0 ∷ 0 ∷ []);
  };
  collectives = true;
  ucc_lib = done 28;
  ucc_context = λ lib. done 29;
  ucc_team = λ h client context rank ranks. done 30;
}

pub vectors : IsVector setup.registration
vectors = record { word_aligned = λ n. refl; ends = λ n small. omega (arith, small) }

init_lem_example :
    Initialised services setup (unlocked none []) (init services setup (unlocked none []))
init_lem_example = init_lem services setup (unlocked none []) vectors

run-IsKept_example :
    IsKept services setup
      (run services setup
        (unlocked none [])
        (inits ∷ mallocs 5 ∷ inits ∷ finalizes ∷ [])).value.state
run-IsKept_example =
    run-IsKept services setup (unlocked none []) (inits ∷ mallocs 5 ∷ inits ∷ finalizes ∷ [])
      vectors stateless

-- The start succeeds, twice is an error, and the state goes away.
init_two : (init services setup (unlocked none [])).0 ≡ ok tt
unfolding init start install and_then handshake connect_peer incomplete lock_state with_lock
    after_error Transport.new SymHeap.new SymHeap.with_size Transport.create_endpoint
init_two = refl

abbrev begun : Global
begun = (init services setup (unlocked none [])).1

finalize_lem_example :
    Finalised services begun (finalize services begun)
    × Ended services setup (finalize services begun).1
finalize_lem_example = finalize_lem services setup vectors begun
