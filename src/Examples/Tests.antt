-- ===== src/Examples/Tests.antt =====
-- The examples between two PEs, on services with fixed answers.
use openshmem_rs.Prelude.{◌≡◌, refl, [], Option, none, some, Bool, arith, leb, length}
use openshmem_rs.Prelude.BTree
use openshmem_rs.Error.{Result, ok}
use openshmem_rs.World.{History, and_then}
use openshmem_rs.World.Loop.{and_loop, then_loop}
use openshmem_rs.Lock.{with_lock}
use openshmem_rs.Pod.{little, pod_as_bytes, to_le_bytes}
use openshmem_rs.Transport
use openshmem_rs.SymHeap
use openshmem_rs.SymHeap.Pointer.{offset_from}
use openshmem_rs.Bootstrap.{handshake, connect_peer, incomplete}
use openshmem_rs.Bootstrap.Tests.{services}
use openshmem_rs.Rma.{fence, quiet_pe}
use openshmem_rs.Rma.Typed.{put}
use openshmem_rs.Prelude.{position}
use openshmem_rs.Init.{my_pe, n_pes, malloc, free, heap_base, init, start, install, after_error}
use openshmem_rs.Init.State.{
  ShmemState, Process, Global, unlocked, lock_state, with_state, with_state_mut,
}
use openshmem_rs.Init.Start.{IsReady}
use openshmem_rs.Init.Tests.{setup, vectors}
use openshmem_rs.Init.Locked.{with_state_loop}
use openshmem_rs.Rma.Tests as Slow
use openshmem_rs.Rma.Returns.{Returns}
use openshmem_rs.Coll.{barrier}
use openshmem_rs.Coll.Tests as Coll
use openshmem_rs.Examples.Program.{and_run}
use openshmem_rs.Examples.PingPutGet
use openshmem_rs.Examples.Barrier
use openshmem_rs.Examples.Closing.{Closes, unpoisoned, main-Closes}
use openshmem_rs.Examples.Agreement.{Exchanged, run-Exchanged}
use openshmem_rs.Examples.Passing.{Passes, run-Passes}
use openshmem_rs.Examples.Finishing.{main-Returns}

abbrev late : History → Bool
late h = leb 20 (length h)

abbrev idle : Process
idle = record { state = none; history = [] }

main-Closes_example :
    Closes Slow.services
      (PingPutGet.run Slow.services setup little late 9 4 (unpoisoned idle))
      (PingPutGet.main Slow.services setup little late 9 4 (unpoisoned idle))
main-Closes_example = main-Closes Slow.services setup little late 9 4 idle

main-Returns_example :
    Returns (PingPutGet.main Slow.services setup little late 4 21 (unlocked none []))
main-Returns_example =
    main-Returns Slow.services setup little late 4 4 20 Slow.prompt (omega arith)
      (λ h over. ground arith) (unlocked none [])

abbrev left_by : Option (Result (Unit {0}) × Global) → Global
left_by none = unlocked none []
left_by (some out) = out.1

-- PE 0 comes through.
abbrev end_of_run : Global
end_of_run = left_by (PingPutGet.run services setup little late 9 4 (unlocked none []))

run-Exchanged_example :
    (st : ShmemState) × (h g : History) × IsReady services setup st
    × (st.size ≡ 2)
    × (init services setup (unlocked none []) ≡ (ok tt, unlocked (some st) h))
    × Exchanged services little late st 0 h g
    × (end_of_run ≡ unlocked (some st) g)
unfolding PingPutGet.run PingPutGet.with_buffer PingPutGet.ping and_run init start install and_then
    handshake connect_peer incomplete lock_state with_lock with_state with_state_mut after_error
    Transport.new SymHeap.new SymHeap.with_size Transport.create_endpoint and_loop then_loop
    with_state_loop BTree.get offset_from pod_as_bytes to_le_bytes my_pe n_pes malloc SymHeap.malloc
    position heap_base BTree.insert free SymHeap.free BTree.erase put fence quiet_pe
run-Exchanged_example =
    run-Exchanged services little late setup 9 4 (unlocked none []) end_of_run vectors refl

abbrev started : Global
started = (init services setup (unlocked none [])).1

-- The end of the operation fails.
run-Passes_example :
    Passes services
      (barrier Coll.broken 9 started)
      (Barrier.run services setup Coll.broken 9 (unlocked none []))
unfolding init start install and_then handshake connect_peer incomplete lock_state with_lock
    after_error Transport.new SymHeap.new SymHeap.with_size Transport.create_endpoint
run-Passes_example = run-Passes services setup Coll.broken 9 (unlocked none []) started vectors refl
