-- ===== src/Examples/Barrier.antt =====
-- examples/barrier.rs: every PE passes one barrier.
use openshmem_rs.Prelude.{ℕ}
use openshmem_rs.World.{Services, Collectives}
use openshmem_rs.Init.{Setup, init, finalize, my_pe, n_pes}
use openshmem_rs.Coll.{barrier}
use openshmem_rs.Examples.Program.{Program, plain, and_run, ◌>>◌}

-- `run`, with the feature `collectives`. Its error is what `main` prints before it exits with status 1.
module _ (s : Services) (u : Setup) (c : Collectives) (rounds : ℕ) where
  unfoldable pub run : Program (Unit {0})
  unfolding and_run
  run = do plain (init s u); plain my_pe; plain n_pes; barrier c rounds; plain (finalize s)
