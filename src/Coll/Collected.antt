-- ===== src/Coll/Collected.antt =====
-- `collect` against `collect_nb`, and `barrier` against `barrier_nb`.
use native.Mathlib.Nat.{mul-div_cancel_left, mul_comm, mul_assoc}
use openshmem_rs.Prelude.{
  ℕ, ◌*◌, ◌/◌, ◌<◌, ◌≡◌, ◌≢◌, refl, ap, ◌∙◌, sym, ◌∷◌, [], List, Option, none, some, ◌==◌, arith,
  length, overwrite, length-overwrite, length-replicate, Bool-cases, inl, inr,
}
use openshmem_rs.Error.{Result, ok, err, panic}
use openshmem_rs.World.{Collectives, History}
use openshmem_rs.World.Post.{Post, Post-ok, returned, step, bind, anything}
use openshmem_rs.World.Loop.{then_loop, and_loop}
use openshmem_rs.Pod.{Endian, Scalar, size_of, length-encode}
use openshmem_rs.Pod.Collective.{decode_parts, decode_all}
use openshmem_rs.Pod.Decode.{some_bytes, decode_all-total, decode_parts-total}
use openshmem_rs.Init.State.{Runtime, ShmemState, Global}
use openshmem_rs.Init.Locked.{with_state_loop}
use openshmem_rs.Coll.{
  barrier, collect, afterwards, receive_buffer, start_barrier, start_collect, wait,
}
use openshmem_rs.Coll.Posting.{barrier_nb, collect_nb}
use openshmem_rs.Coll.Request
use openshmem_rs.Coll.Request.{CollectiveRequest, Destination, copy_back, result}
use openshmem_rs.Coll.Agree.{then_wait, wait_is_post, closed, used, taken, chained}

afterwards-ok : {A : Type 0} (r : Option (Result A × Global)) → afterwards ok r ≡ r
afterwards-ok none = refl
afterwards-ok (some (ok a, m)) = refl
afterwards-ok (some (err e, m)) = refl
afterwards-ok (some (panic, m)) = refl

and_loop-unit : (w : Option (Result (Unit {0}) × History)) → and_loop w (λ _ f. some (ok tt, f)) ≡ w
unfolding and_loop then_loop
and_loop-unit none = refl
and_loop-unit (some (ok tt, f)) = refl
and_loop-unit (some (err e, f)) = refl
and_loop-unit (some (panic, f)) = refl

length-receive_buffer :
    (len ranks : ℕ) (recv : List ℕ) → receive_buffer len ranks ≡ ok recv → length recv ≡ len * ranks
unfolding receive_buffer
length-receive_buffer len ranks recv e = ground (arith, length-replicate {A = ℕ} (len * ranks) 0)

module _ (u : Collectives) (order : Endian) (ty : Scalar) (values : List ℕ) where
  -- What was sent is the values' bytes, and the other buffer has room for as many from every rank.
  abbrev Fits : (List ℕ × List ℕ) × (Runtime × ℕ) → Type 0
  Fits x =
      (length x.0.0 ≡ length values * size_of ty)
      × ((ranks : ℕ) × (length x.0.1 ≡ length x.0.0 * ranks))

  start_collect-Fits :
      (st : ShmemState) (h : History) → Post (λ x _. Fits x) (start_collect u order ty values st h)
  unfolding start_collect
  start_collect-Fits st h = step _ λ rt _. step _ λ send sent. step _ λ ranks _. step _ λ recv made.
      bind (anything _) λ begun g _. returned (
        length-encode order ty values send sent,
        (ranks, length-receive_buffer (length send) ranks recv made),
      )

  abbrev received : (List ℕ × List ℕ) × (Runtime × ℕ) → History → List ℕ
  received x g = overwrite x.0.1 (u.stored g x.1.1)

  parts_lem :
      (x : (List ℕ × List ℕ) × (Runtime × ℕ)) (g : History)
      → 0 < length values
      → Fits x
      → (decode_parts order ty (length x.0.0) (length (received x g) / length x.0.0) (received x g)
          ≡ decode_all order ty (received x g))
        × ((vs : List ℕ) × (decode_all order ty (received x g) ≡ ok vs))
  parts_lem x g some_value (sent, (ranks, room)) =
      let full : 0 < length x.0.0 = omega (arith, some_bytes ty (length values) some_value) in
      let long : length (received x g) ≡ length x.0.0 * ranks =
        length-overwrite x.0.1 (u.stored g x.1.1) ∙ room in
      let count : length (received x g) / length x.0.0 ≡ ranks =
        rw (long, mul-div_cancel_left ranks full) in
      let swapped : length (received x g) ≡ ranks * length x.0.0 =
        long ∙ mul_comm (length x.0.0) ranks in
      let flat : length (received x g) ≡ (ranks * length values) * size_of ty =
        swapped ∙ ap (λ k. ranks * k) sent ∙ sym (mul_assoc ranks (length values) (size_of ty)) in
      let whole = decode_all-total order ty (ranks * length values) (received x g) flat in
      (
        rw
            (
              count,
              decode_parts-total order ty ranks (length values) (length x.0.0) (received x g) sent
                  swapped,
            )
            (sym whole),
        (_, whole),
      )

  abbrev by_rank : (List ℕ × List ℕ) × (Runtime × ℕ) → History → Result (List ℕ)
  by_rank x g =
      decode_parts order ty (length x.0.0) (length (received x g) / length x.0.0) (received x g)

  by_rank-calm :
      (x : (List ℕ × List ℕ) × (Runtime × ℕ)) (g : History)
      → 0 < length values
      → Fits x
      → by_rank x g ≢ panic
  by_rank-calm x g some_value fits e =
      let (same, (vs, whole)) = parts_lem x g some_value fits in
      let bad : Result.ok vs ≡ panic = sym whole ∙ sym same ∙ e in absurd (ground arith)

  result-by_rank :
      (x : (List ℕ × List ℕ) × (Runtime × ℕ)) (g : History)
      → 0 < length values
      → Fits x
      → used (result order ty) (
          closed (
            copy_back order none
              (taken u order (Request.new x.1 (x.0.0 ∷ x.0.1 ∷ []) none (some 1)) x.1.1 g, g)))
        ≡ some (chained u order (result order ty) (by_rank x g) ok, g)
  unfolding copy_back result Request.new
  result-by_rank x g some_value fits =
      let (same, (vs, whole)) = parts_lem x g some_value fits in rw (same, whole)

  -- Where there is a value, and the two statuses differ that mean success and that there is no message:
  -- `collect` returns what a program gets that calls `collect_nb`, then the request's `wait`, and then
  -- `result`, which reads all bytes at once and not rank by rank; with the same calls to UCC, the same
  -- final state, and the same errors.
  pub collect-collect_nb :
      (rounds : ℕ) (m : Global)
      → u.ucc_ok ≢ u.ucc_err_no_message
      → collect u rounds order ty values m
        ≡ then_wait u order (result order ty) rounds (collect_nb u order ty values m)
  unfolding collect collect_nb
  collect-collect_nb rounds m apart = elim (Bool-cases (length values == 0)) [
    | inl empty ↦ rw (empty, collect, collect_nb)
    | inr full ↦
        rw (full, collect, collect_nb)
          (sym (afterwards-ok _)
            ∙ wait_is_post u order (result order ty) apart rounds (start_collect u order ty values)
                (λ x. x.1) (λ x. x.0.0 ∷ x.0.1 ∷ []) none (some 1) by_rank ok Fits
                (λ st h x g e. Post-ok (start_collect-Fits st h) e)
                (λ x g fits. by_rank-calm x g (ground arith) fits)
                (λ x g fits. result-by_rank x g (ground arith) fits) m)
  ]

module _ (u : Collectives) (order : Endian) where
  -- Where the two statuses differ that mean success and that there is no message: `barrier` returns what
  -- a program gets that calls `barrier_nb` and then the request's `wait`; with the same calls to UCC,
  -- the same final state, and the same errors.
  pub barrier-barrier_nb :
      (rounds : ℕ) (m : Global)
      → u.ucc_ok ≢ u.ucc_err_no_message
      → barrier u rounds m ≡ then_wait u order (λ _. ok tt) rounds (barrier_nb u m)
  unfolding barrier barrier_nb copy_back
  barrier-barrier_nb rounds m apart =
      (λ i.
        with_state_loop
          (λ st h.
            then_loop (start_barrier u st h)
              λ begun g. sym (and_loop-unit (wait u rounds begun.0.context begun.1 g)) i)
          m)
      ∙ sym (afterwards-ok _)
      ∙ wait_is_post u order (λ _. ok tt) apart rounds (start_barrier u) (λ x. x)
          (λ _. (0 ∷ []) ∷ []) none none (λ _ _. ok tt) ok (λ _. Unit {0}) (λ _ _ _ _ _. tt)
          (λ _ _ _ e. absurd (ground arith)) (λ _ _ _. refl) m
