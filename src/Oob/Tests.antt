-- ===== src/Oob/Tests.antt =====
-- An exchange of four bytes between two PEs.
use openshmem_rs.Prelude.{[], ◌∷◌, none, some}
use openshmem_rs.Prelude.Int.{pos}
use openshmem_rs.World.{put_value, committed, fenced, get_value}
use openshmem_rs.Bootstrap.Tests as Two
use openshmem_rs.Oob.{OobState, Memory, oob_key}

abbrev state : OobState
state = record { client = 1; rank = 0; size = 2 }

abbrev before : Memory
before = record {
  dst = some (0 ∷ 0 ∷ 0 ∷ 0 ∷ 0 ∷ 0 ∷ 0 ∷ 0 ∷ []);
  request = some none;
  history = [];
}

abbrev after_exchange : Memory
after_exchange = record {
  dst = some (1 ∷ 0 ∷ 0 ∷ 0 ∷ 2 ∷ 0 ∷ 0 ∷ 0 ∷ []);
  request = some (some (record { status = pos 0 }));
  history =
      get_value 1 oob_key ∷ get_value 0 oob_key ∷ fenced 99 ∷ committed ∷ put_value oob_key 5 ∷ [];
}
