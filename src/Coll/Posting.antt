-- ===== src/Coll/Posting.antt =====
-- src/coll.rs: the collectives that return a request once they are posted.
use openshmem_rs.Prelude.{ℕ, List, [], ◌∷◌, none, some, if◌then◌else◌, ◌==◌, length}
use openshmem_rs.Error.{usage, Result, ok, err, panic}
use openshmem_rs.World.{Collectives, pure, ◌>>=◌}
use openshmem_rs.World.Ucc.{UccReductionOp}
use openshmem_rs.Pod.{Endian, Scalar, encode}
use openshmem_rs.Pod.Collective.{reduction_supported}
use openshmem_rs.Init.State.{Global, with_state}
use openshmem_rs.Coll.{start_barrier, start_broadcast, start_reduce, start_collect}
use openshmem_rs.Coll.Request
use openshmem_rs.Coll.Request.{CollectiveRequest, Destination}

module _ (u : Collectives) where
  unfoldable pub barrier_nb : Global → Result CollectiveRequest × Global
  unfolding start_barrier Request.new
  barrier_nb =
      with_state
        λ st. do begun ← start_barrier u st; pure (Request.new begun ((0 ∷ []) ∷ []) none none)

  unfoldable pub broadcast_nb :
      Endian → Scalar → ℕ → List ℕ → Global → Result CollectiveRequest × Global
  unfolding start_broadcast Request.new
  broadcast_nb order ty root values m =
      if length values == 0
      then (err (usage "collective buffer must be non-empty"), m)
      else elim (encode order ty values) [
        | err e ↦ (err e, m)
        | panic ↦ (panic, m)
        | ok bytes ↦
            with_state
              (λ st. do
                begun ← start_broadcast u ty root (length values) bytes st
                pure (
                    Request.new begun (bytes ∷ []) (some (record { ty = ty; values = values }))
                      none))
              m
      ]

  unfoldable pub reduce_nb :
      Endian → Scalar → UccReductionOp → List ℕ → Global → Result CollectiveRequest × Global
  unfolding start_reduce reduction_supported Request.new
  reduce_nb order ty op values m =
      if length values == 0
      then (err (usage "collective buffer must be non-empty"), m)
      else if reduction_supported ty op
      then elim (encode order ty values) [
        | err e ↦ (err e, m)
        | panic ↦ (panic, m)
        | ok bytes ↦
            with_state
              (λ st. do
                begun ← start_reduce u op ty (length values) bytes st
                pure (
                    Request.new begun (bytes ∷ []) (some (record { ty = ty; values = values }))
                      none))
              m
      ]
      else (err (usage "reduction operation is not supported for this POD type"), m)

  unfoldable pub collect_nb : Endian → Scalar → List ℕ → Global → Result CollectiveRequest × Global
  unfolding start_collect Request.new
  collect_nb order ty values m =
      if length values == 0
      then (err (usage "collective contribution must be non-empty"), m)
      else with_state
          (λ st. do
            begun ← start_collect u order ty values st
            pure (Request.new begun.1 (begun.0.0 ∷ begun.0.1 ∷ []) none (some 1)))
          m
