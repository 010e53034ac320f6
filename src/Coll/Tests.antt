-- ===== src/Coll/Tests.antt =====
-- Collectives of two PEs, on a UCC with fixed answers.
use openshmem_rs.Prelude.{
  inl, ℕ, zero, suc, ◌<◌, ◌≡◌, refl, [], ◌∷◌, none, some, true, arith, done, failed, leb, length,
  if◌then◌else◌,
}
use openshmem_rs.Error.{ok, err, ucc}
use openshmem_rs.Lock.{with_lock}
use openshmem_rs.World.{
  Collectives, History, and_then, collective_made, collective_posted, collective_finalized,
  ucc_progressed,
}
use openshmem_rs.World.Loop.{and_loop, then_loop}
use openshmem_rs.World.Ucc.{CollectiveBuilder, broadcast_type, inplace, uint16, sum}
use openshmem_rs.Pod.{little, u16, encode, decode, to_le_bytes, from_le_bytes, take}
use openshmem_rs.Init.State.{unlocked, with_state, lock_state, reading}
use openshmem_rs.Init.Locked.{with_state_loop, locked_loop}
use openshmem_rs.Rma.Tests as Two
use openshmem_rs.Coll.{wait, barrier, broadcast, reduce, collect}
use openshmem_rs.Coll.Wait.{status, ended, after_progress, wait_lem}
use openshmem_rs.Coll.Request
use openshmem_rs.Coll.Request.{CollectiveRequest, Destination, result}
use openshmem_rs.Coll.Posting.{broadcast_nb, reduce_nb, collect_nb}
use openshmem_rs.Coll.Agree.{then_wait}
use openshmem_rs.Coll.Blocking.{slice, broadcast-broadcast_nb, reduce-reduce_nb}
use openshmem_rs.Coll.Collected.{collect-collect_nb}
use openshmem_rs.Coll.Poll.{IsFit, Answers, test-after_error}
use openshmem_rs.Rma.Returns.{Returns}
use openshmem_rs.Coll.Returns.{Progresses}
use openshmem_rs.Coll.Requests.{HasEnded, collectives_return}
use openshmem_rs.Coll.Posted.{tested, posted-Answers}

-- A collective has ended once three calls were made; it stores the bytes of 513 in its buffer.
abbrev pub team : Collectives
team = record {
  ucc_ok = 0;
  ucc_err_no_message = 6;
  team_size = λ t. done 2;
  init = λ h b t. done 40;
  post = λ h op. done tt;
  request_status = λ h op. if leb 3 (length h) then 0 else 6;
  finalize = λ h op. done tt;
  stored = λ h op. 1 ∷ 2 ∷ [];
}

-- Its finalization fails.
abbrev pub broken : Collectives
broken = record team { finalize = λ h op. failed 13 }

three_pending : (k : ℕ) → k < 3 → status team 29 40 (after_progress k 29 []) ≡ 6
unfolding after_progress
three_pending zero small = refl
three_pending (suc zero) small = refl
three_pending (suc (suc zero)) small = refl
three_pending (suc (suc (suc k))) small = absurd (omega arith)

wait_lem_example : wait team 9 29 40 [] ≡ some (ended team 29 40 (after_progress 3 29 []))
unfolding after_progress
wait_lem_example =
    wait_lem team 29 40 3 9 [] (omega arith) (λ e. absurd (omega arith)) three_pending
      (λ e. absurd (omega arith))

abbrev sent : CollectiveBuilder
sent = record {
  collective_type = broadcast_type;
  buffers = inplace (7 ∷ 0 ∷ []);
  count = 1;
  dtype = some uint16;
  root = some 1;
  reduction_op = none;
}

abbrev broadcast_history : History
broadcast_history =
    collective_finalized 40
    ∷ ucc_progressed 29
    ∷ collective_posted 40
    ∷ collective_made sent 30
    ∷ []

broadcast-broadcast_nb_example :
    some (ok (513 ∷ []), unlocked (some Two.running) broadcast_history)
    ≡ then_wait team little slice 9
        (broadcast_nb team little u16 1 (7 ∷ []) (unlocked (some Two.running) []))
unfolding broadcast encode decode with_state_loop locked_loop and_then and_loop then_loop wait
    to_le_bytes take from_le_bytes
broadcast-broadcast_nb_example =
    broadcast-broadcast_nb team little 9 u16 1 (7 ∷ []) (unlocked (some Two.running) [])
      (λ e. absurd (omega arith))

reduce-reduce_nb_example :
    reduce team 9 little u16 sum (7 ∷ []) (unlocked (some Two.running) [])
    ≡ then_wait team little slice 9
        (reduce_nb team little u16 sum (7 ∷ []) (unlocked (some Two.running) []))
reduce-reduce_nb_example =
    reduce-reduce_nb team little 9 u16 sum (7 ∷ []) (unlocked (some Two.running) [])
      (λ e. absurd (omega arith)) (omega arith)

collect-collect_nb_example :
    collect team 9 little u16 (7 ∷ []) (unlocked (some Two.running) [])
    ≡ then_wait team little
        (result little u16)
        9
        (collect_nb team little u16 (7 ∷ []) (unlocked (some Two.running) []))
collect-collect_nb_example =
    collect-collect_nb team little u16 (7 ∷ []) 9 (unlocked (some Two.running) [])
      (λ e. absurd (omega arith))

abbrev posted_request : CollectiveRequest
posted_request = record {
  op = some 40;
  context = 29;
  buffers = (7 ∷ 0 ∷ []) ∷ [];
  destination = some (record { ty = u16; values = 7 ∷ [] });
  result_index = none;
}

test-after_error_example :
    ((Request.test broken little (posted_request, broadcast_history)).0 ≡ err (ucc 13))
    × ((Request.test broken little (posted_request, broadcast_history)).1.1
        ≡ collective_finalized 40 ∷ broadcast_history)
    × ((Request.test broken little (posted_request, broadcast_history)).1.0.destination
        ≡ some (record { ty = u16; values = 7 ∷ [] }))
    × (Request.test broken little (Request.test broken little (posted_request, broadcast_history)).1
        ≡ (ok true, (Request.test broken little (posted_request, broadcast_history)).1))
    × (Request.wait broken little 3
          (Request.test broken little (posted_request, broadcast_history)).1
        ≡ some (ok tt, (Request.test broken little (posted_request, broadcast_history)).1))
test-after_error_example =
    test-after_error broken little 2 40 13 posted_request broadcast_history
      (λ e. absurd (omega arith)) refl refl refl

abbrev started : History
started = collective_posted 40 ∷ collective_made sent 30 ∷ []

posted-Answers_example :
    IsFit (tested team little 1 (posted_request, started)).0
    × Answers (Request.test team little (tested team little 1 (posted_request, started))).0
unfolding broadcast_nb with_state lock_state with_lock reading and_then encode to_le_bytes
posted-Answers_example =
    posted-Answers team little u16 1 sum 1 (7 ∷ []) (unlocked (some Two.running) [])
      (unlocked (some Two.running) started) posted_request started (inl refl)

-- After three calls each operation has ended.
team-Progresses : Progresses team 4
unfolding after_progress
team-Progresses context op h = (3, omega arith, λ e. ground arith)

collectives_return_example :
    Returns (barrier team 4 (unlocked (some Two.running) []))
    × Returns (broadcast team 4 little u16 1 (7 ∷ []) (unlocked (some Two.running) []))
    × Returns (reduce team 4 little u16 sum (7 ∷ []) (unlocked (some Two.running) []))
    × Returns (collect team 4 little u16 (7 ∷ []) (unlocked (some Two.running) []))
    × HasEnded (Request.wait team little 4 (posted_request, started))
collectives_return_example =
    collectives_return team 4 4 team-Progresses (omega arith) little u16 sum 1 (7 ∷ [])
      (unlocked (some Two.running) []) posted_request started
