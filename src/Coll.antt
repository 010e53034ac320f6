-- ===== src/Coll.antt =====
-- src/coll.rs: the collectives that wait. Each step between `with_state` and the wait is a call of UCC;
-- what UCC has stored in a buffer is read when the collective has ended.
pub mod Request
pub mod Posting
pub mod Wait
pub mod Returns
pub mod Requests
pub mod Agree
pub mod Blocking
pub mod Collected
pub mod Poll
pub mod Posted
pub mod Tests
use openshmem_rs.Prelude.{
  ℕ, zero, suc, ◌/◌, ◌++◌, List, [], ◌∷◌, Option, none, some, if◌then◌else◌, ◌==◌, leb, length,
  replicate, overwrite, checked_mul, isize_limit, Outcome, done, failed,
}
use openshmem_rs.Error.{Error, usage, internal, Result, ok, err, panic, ok_or}
use openshmem_rs.Error.Convert.{map_err}
use openshmem_rs.World.{
  Collectives, History, Io, pure, raise, lift, call, ◌>>=◌, ◌>>◌, collective_made,
  collective_posted, collective_finalized, ucc_progressed,
}
use openshmem_rs.World.Loop.{Loop, then_loop, and_loop}
use openshmem_rs.World.Ucc.{
  UccReductionOp, CollectiveBuilder, barrier_type, broadcast_type, allgather_type, allreduce_type,
  inplace, src_dst,
}
use openshmem_rs.Pod.{Endian, Scalar, size_of, encode, decode}
use openshmem_rs.Pod.Collective.{ucc_datatype, reduction_supported, decode_parts}
use openshmem_rs.Init.{map_ucc}
use openshmem_rs.Init.State.{Runtime, ShmemState, Global}
use openshmem_rs.Init.Locked.{with_state_loop}

abbrev pub runtime_of : ShmemState → Result Runtime
runtime_of st = ok_or st.collectives (internal "collectives are not initialized")

-- `?` on what the lock gives back, and then the rest of the function.
abbrev pub afterwards :
    {A B : Type 0} → (A → Result B) → Option (Result A × Global) → Option (Result B × Global)
afterwards rest none = none
afterwards rest (some (ok a, m)) = some (rest a, m)
afterwards rest (some (err e, m)) = some (err e, m)
afterwards rest (some (panic, m)) = some (panic, m)

-- The buffer to receive: its length is checked, and `vec!` panics over `isize::MAX`.
unfoldable pub receive_buffer : ℕ → ℕ → Result (List ℕ)
receive_buffer len ranks = elim (checked_mul len ranks) [
  | none ↦ err (usage "collective receive buffer overflow")
  | some size ↦ if leb isize_limit size then panic else ok (replicate size 0)
]

module _ (u : Collectives) where
  -- `wait`, on rounds of progress.
  unfoldable pub wait : ℕ → ℕ → ℕ → Loop (Unit {0})
  wait zero context op h = none
  wait (suc rounds) context op h =
      let rest = wait rounds context op (ucc_progressed context ∷ h) in
      if u.request_status h op == u.ucc_ok
      then some (map_err map_ucc (u.finalize h op), collective_finalized op ∷ h)
      else if u.request_status h op == u.ucc_err_no_message
      then rest
      else some (err (map_ucc (u.request_status h op)), h)

  -- `init(&runtime.team)` and `post()`.
  abbrev pub launch : CollectiveBuilder → Runtime → Io (Runtime × ℕ)
  launch b rt = do
    op ← call (collective_made b rt.team) (λ g. u.init g b rt.team) map_ucc
    call (collective_posted op) (λ g. u.post g op) map_ucc
    pure (rt, op)

  -- The start of each collective, which the functions that wait and those that do not have alike.
  unfoldable pub start_barrier : ShmemState → Io (Runtime × ℕ)
  start_barrier st =
      lift (runtime_of st)
      >>= launch (record {
        collective_type = barrier_type;
        buffers = inplace (0 ∷ []);
        count = 1;
        dtype = none;
        root = none;
        reduction_op = none;
      })

  unfoldable pub start_broadcast : Scalar → ℕ → ℕ → List ℕ → ShmemState → Io (Runtime × ℕ)
  unfolding ucc_datatype
  start_broadcast ty root count bytes st = do
    rt ← lift (runtime_of st)
    ranks ← lift (map_err map_ucc (u.team_size rt.team))
    if leb ranks root
        then raise (usage "broadcast root is outside the UCC team")
        else launch
            (record {
              collective_type = broadcast_type;
              buffers = inplace bytes;
              count = count;
              dtype = some (ucc_datatype ty);
              root = some root;
              reduction_op = none;
            })
            rt

  unfoldable pub start_reduce : UccReductionOp → Scalar → ℕ → List ℕ → ShmemState → Io (Runtime × ℕ)
  unfolding ucc_datatype
  start_reduce op ty count bytes st =
      lift (runtime_of st)
      >>= launch (record {
        collective_type = allreduce_type;
        buffers = inplace bytes;
        count = count;
        dtype = some (ucc_datatype ty);
        root = none;
        reduction_op = some op;
      })

  -- What was sent and what receives, with the operation.
  unfoldable pub start_collect :
      Endian → Scalar → List ℕ → ShmemState → Io ((List ℕ × List ℕ) × (Runtime × ℕ))
  unfolding ucc_datatype receive_buffer
  start_collect order ty values st = do
    rt ← lift (runtime_of st)
    send ← lift (encode order ty values)
    ranks ← lift (map_err map_ucc (u.team_size rt.team))
    recv ← lift (receive_buffer (length send) ranks)
    begun ←
        launch
          (record {
            collective_type = allgather_type;
            buffers = src_dst send recv;
            count = length values;
            dtype = some (ucc_datatype ty);
            root = none;
            reduction_op = none;
          })
          rt
    pure ((send, recv), begun)

  -- The start of a collective with one buffer, the wait, and the buffer as UCC has left it.
  unfoldable pub waited_buffer :
      ℕ → (ShmemState → Io (Runtime × ℕ)) → List ℕ → ShmemState → Loop (List ℕ)
  unfolding wait
  waited_buffer rounds start bytes st h = then_loop (start st h) λ begun g.
      and_loop (wait rounds begun.0.context begun.1 g)
        λ _ f. some (ok (overwrite bytes (u.stored f begun.1)), f)

  unfoldable pub barrier : ℕ → Global → Option (Result (Unit {0}) × Global)
  unfolding wait start_barrier
  barrier rounds =
      with_state_loop
        λ st h. then_loop (start_barrier st h) λ begun g. wait rounds begun.0.context begun.1 g

  -- The result of `broadcast` and `reduce` is what the caller's slice holds, which an error leaves alone.
  unfoldable pub broadcast :
      ℕ → Endian → Scalar → ℕ → List ℕ → Global → Option (Result (List ℕ) × Global)
  unfolding waited_buffer start_broadcast
  broadcast rounds order ty root values m =
      if length values == 0
      then some (err (usage "collective buffer must be non-empty"), m)
      else elim (encode order ty values) [
        | err e ↦ some (err e, m)
        | panic ↦ some (panic, m)
        | ok bytes ↦ afterwards (decode order ty (length values)) (
            with_state_loop
              (waited_buffer rounds (start_broadcast ty root (length values) bytes) bytes) m)
      ]

  unfoldable pub reduce :
      ℕ → Endian → Scalar → UccReductionOp → List ℕ → Global → Option (Result (List ℕ) × Global)
  unfolding waited_buffer start_reduce reduction_supported
  reduce rounds order ty op values m =
      if reduction_supported ty op
      then elim (encode order ty values) [
        | err e ↦ some (err e, m)
        | panic ↦ some (panic, m)
        | ok bytes ↦ afterwards (decode order ty (length values)) (
            with_state_loop (waited_buffer rounds (start_reduce op ty (length values) bytes) bytes)
              m)
      ]
      else some (err (usage "reduction operation is not supported for this POD type"), m)

  -- The values of the PEs are read under the lock.
  unfoldable pub collect : ℕ → Endian → Scalar → List ℕ → Global → Option (Result (List ℕ) × Global)
  unfolding wait start_collect decode_parts
  collect rounds order ty values m =
      if length values == 0
      then some (err (usage "collective contribution must be non-empty"), m)
      else with_state_loop
          (λ st h. then_loop (start_collect order ty values st h) λ begun g.
            and_loop (wait rounds begun.1.0.context begun.1.1 g) λ _ f.
              let recv = overwrite begun.0.1 (u.stored f begun.1.1) in
              some
                (decode_parts order ty (length begun.0.0) (length recv / length begun.0.0) recv, f))
          m
