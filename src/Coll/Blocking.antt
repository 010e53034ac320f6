-- ===== src/Coll/Blocking.antt =====
-- Each collective that waits against the one that does not, with the request's `wait`.
use openshmem_rs.Prelude.{
  ℕ, ◌<◌, ◌≡◌, ◌≢◌, refl, ◌∷◌, [], List, none, some, false, ◌==◌, arith, length, overwrite,
  Bool-cases, inl, inr,
}
use openshmem_rs.Error.{Result, ok, err, panic, Result-cases}
use openshmem_rs.World.{Collectives, History, Io, pure, ◌>>=◌}
use openshmem_rs.World.Ucc.{UccReductionOp}
use openshmem_rs.Pod.{Endian, Scalar, encode, decode}
use openshmem_rs.Pod.Collective.{reduction_supported}
use openshmem_rs.Init.State.{Runtime, ShmemState, Global, with_state}
use openshmem_rs.Init.Locked.{with_state_loop}
use openshmem_rs.Coll.{broadcast, reduce, afterwards, waited_buffer, start_broadcast, start_reduce}
use openshmem_rs.Coll.Posting.{broadcast_nb, reduce_nb}
use openshmem_rs.Coll.Request
use openshmem_rs.Coll.Request.{
  CollectiveRequest, Destination, copy_back, decode_to, renewed, written,
}
use openshmem_rs.Coll.Agree.{then_wait, wait_is_post, closed, used, taken}

-- The caller's slice, once the request is dropped.
abbrev pub slice : CollectiveRequest → Result (List ℕ)
slice request = elim request.destination [ none ↦ ok [] | some d ↦ ok d.values ]

module _ (u : Collectives) (order : Endian) where
  -- The collectives with one buffer, whose bytes go back into the slice.
  one_buffer :
      (rounds : ℕ) (start : ShmemState → Io (Runtime × ℕ)) (ty : Scalar) (values bytes : List ℕ)
      (m : Global)
      → u.ucc_ok ≢ u.ucc_err_no_message
      → afterwards
          (decode order ty (length values))
          (with_state_loop (waited_buffer u rounds start bytes) m)
        ≡ then_wait u order slice rounds (
            with_state
              (λ st. start st >>= λ begun.
                pure (
                  Request.new begun (bytes ∷ []) (some (record { ty = ty; values = values })) none))
              m)
  unfolding waited_buffer copy_back decode_to Request.new
  one_buffer rounds start ty values bytes m apart =
      wait_is_post u order slice apart rounds start (λ x. x) (λ _. bytes ∷ [])
        (some (record { ty = ty; values = values })) none
        (λ x g. ok (overwrite bytes (u.stored g x.1))) (decode order ty (length values))
        (λ _. Unit {0}) (λ _ _ _ _ _. tt) (λ x g _ e. absurd (ground arith)) (λ x g _. read x g) m
    where
      write :
          (r : Result (List ℕ)) (request : CollectiveRequest) (g : History)
          → used slice (
              closed (
                written order (renewed order (record { ty = ty; values = values }) r) (request, g)))
            ≡ some (r, g)
      write (ok x) request g = refl
      write (err e) request g = refl
      write panic request g = refl

      read :
          (x : Runtime × ℕ) (g : History)
          → used slice (
              closed (
                copy_back order (some (record { ty = ty; values = values })) (
                  taken u order
                      (Request.new x (bytes ∷ []) (some (record { ty = ty; values = values })) none)
                      x.1
                      g,
                  g,
                )))
            ≡ some (decode order ty (length values) (overwrite bytes (u.stored g x.1)), g)
      read x g = write (decode order ty (length values) (overwrite bytes (u.stored g x.1))) _ g

  -- Where the two statuses differ that mean success and that there is no message: `broadcast` returns
  -- what a program gets that calls `broadcast_nb`, then the request's `wait`, and then reads its slice;
  -- with the same calls to UCC, the same final state, and the same errors.
  pub broadcast-broadcast_nb :
      (rounds : ℕ) (ty : Scalar) (root : ℕ) (values : List ℕ) (m : Global)
      → u.ucc_ok ≢ u.ucc_err_no_message
      → broadcast u rounds order ty root values m
        ≡ then_wait u order slice rounds (broadcast_nb u order ty root values m)
  unfolding broadcast broadcast_nb
  broadcast-broadcast_nb rounds ty root values m apart = elim (Bool-cases (length values == 0)) [
    | inl empty ↦ rw (empty, broadcast, broadcast_nb)
    | inr some_value ↦ elim (Result-cases (encode order ty values)) [
      | inl (bytes, e) ↦
          rw (some_value, e, broadcast, broadcast_nb)
            (one_buffer rounds (start_broadcast u ty root (length values) bytes) ty values bytes m
              apart)
      | inr (inl (x, e)) ↦ rw (some_value, e, broadcast, broadcast_nb)
      | inr (inr e) ↦ rw (some_value, e, broadcast, broadcast_nb)
    ]
  ]

  -- The same of `reduce` and `reduce_nb`, where there is a value.
  pub reduce-reduce_nb :
      (rounds : ℕ) (ty : Scalar) (op : UccReductionOp) (values : List ℕ) (m : Global)
      → u.ucc_ok ≢ u.ucc_err_no_message
      → 0 < length values
      → reduce u rounds order ty op values m
        ≡ then_wait u order slice rounds (reduce_nb u order ty op values m)
  unfolding reduce reduce_nb
  reduce-reduce_nb rounds ty op values m apart some_value =
      let full : (length values == 0) ≡ false = ground arith in
      elim (Bool-cases (reduction_supported ty op)) [
        | inl known ↦ elim (Result-cases (encode order ty values)) [
          | inl (bytes, e) ↦
              rw (full, known, e, reduce, reduce_nb)
                (one_buffer rounds (start_reduce u op ty (length values) bytes) ty values bytes m
                  apart)
          | inr (inl (x, e)) ↦ rw (full, known, e, reduce, reduce_nb)
          | inr (inr e) ↦ rw (full, known, e, reduce, reduce_nb)
        ]
        | inr unknown ↦ rw (full, unknown, reduce, reduce_nb)
      ]
