-- ===== src/Coll/Posted.antt =====
-- The requests that `broadcast_nb` and `reduce_nb` return, under any number of tests.
use mathlib.Core.Path.{subst}
use openshmem_rs.Prelude.{
  ℕ, zero, suc, ◌*◌, ◌<◌, ◌≡◌, ◌⊎◌, refl, ◌∷◌, [], List, Option, none, some, Bool, true, false,
  ◌==◌, arith, length, Bool-cases, inl, inr, usize_mod,
}
use openshmem_rs.Error.{Result, ok, err, panic, Result-cases}
use openshmem_rs.Lock.{after, with_lock}
use openshmem_rs.World.{Collectives, History, Io, pure, ◌>>=◌}
use openshmem_rs.World.Ucc.{UccReductionOp}
use openshmem_rs.World.Post.{Post, returned, bind, anything}
use openshmem_rs.Pod.{Endian, Scalar, size_of, encode, length-encode}
use openshmem_rs.Pod.Collective.{reduction_supported}
use openshmem_rs.Init.State.{Runtime, ShmemState, Global, with_state, lock_state, reading}
use openshmem_rs.Coll.{start_broadcast, start_reduce}
use openshmem_rs.Coll.Posting.{broadcast_nb, reduce_nb}
use openshmem_rs.Coll.Request
use openshmem_rs.Coll.Request.{CollectiveRequest, Destination, test}
use openshmem_rs.Coll.Poll.{IsFit, Answers, test-IsFit}

module _ {A : Type 0} (P : A → Type 0) where
  left_ok :
      {a : A} {m' : Global} (r : Result A × History) (state : Option ShmemState)
      → Post (λ a _. P a) r
      → after (r.0, record { state = state; history = r.1 }) ≡ (ok a, m')
      → P a
  left_ok {a = a} (ok b, g) state (returned p) e = let same : b ≡ a = ground arith in subst P same p
  left_ok (err x, g) state p e = absurd (ground arith)
  left_ok (panic, g) state p e = absurd (ground arith)

  with_state-Post :
      (operation : ShmemState → Io A) (m m' : Global) {a : A}
      → ((st : ShmemState) (h : History) → Post (λ a _. P a) (operation st h))
      → with_state operation m ≡ (ok a, m')
      → P a
  unfolding with_state lock_state with_lock reading
  with_state-Post operation m m' {a} holds e = go m.poisoned m.value.state m.value.history e
    where
      go :
          (poisoned : Bool) (state : Option ShmemState) (h : History)
          → with_state operation
              (record { poisoned = poisoned; value = record { state = state; history = h } })
            ≡ (ok a, m')
          → P a
      go true state h e = absurd (ground arith)
      go false none h e = absurd (ground arith)
      go false (some st) h e = left_ok (operation st h) (some st) (holds st h) e

module _ (u : Collectives) (order : Endian) where
  made_lem :
      (start : ShmemState → Io (Runtime × ℕ)) (ty : Scalar) (values bytes : List ℕ) (m m' : Global)
      (request : CollectiveRequest)
      → encode order ty values ≡ ok bytes
      → with_state
          (λ st. start st >>= λ begun.
            pure (Request.new begun (bytes ∷ []) (some (record { ty = ty; values = values })) none))
          m
        ≡ (ok request, m')
      → IsFit request
  unfolding Request.new encode
  made_lem start ty values bytes m m' request e =
      let small : length values * size_of ty < usize_mod = ground arith in
      with_state-Post IsFit _ m m' λ st h.
        bind (anything (start st h))
          λ begun g _. returned (bytes, refl, length-encode order ty values bytes e, small)

  -- A request after `n` tests, and the history.
  abbrev pub tested : ℕ → CollectiveRequest × History → CollectiveRequest × History
  tested zero r = r
  tested (suc n) r = (test u order (tested n r)).1

  tested-IsFit : (n : ℕ) (r : CollectiveRequest × History) → IsFit r.0 → IsFit (tested n r).0
  tested-IsFit zero r fit = fit
  tested-IsFit (suc n) r fit =
      (test-IsFit u order (tested n r).0 (tested n r).1 (tested-IsFit n r fit)).1

  kept_lem :
      (n : ℕ) (r : CollectiveRequest × History)
      → IsFit r.0
      → IsFit (tested n r).0 × Answers (test u order (tested n r)).0
  kept_lem n r fit =
      let kept = tested-IsFit n r fit in
      (kept, (test-IsFit u order (tested n r).0 (tested n r).1 kept).0)

  broadcast_nb-IsFit :
      (ty : Scalar) (root : ℕ) (values : List ℕ) (m m' : Global) (request : CollectiveRequest)
      → broadcast_nb u order ty root values m ≡ (ok request, m')
      → IsFit request
  unfolding broadcast_nb
  broadcast_nb-IsFit ty root values m m' request e = elim (Bool-cases (length values == 0)) [
    | inl empty ↦ absurd (ground arith)
    | inr full ↦ elim (Result-cases (encode order ty values)) [
      | inl (bytes, coded) ↦
          made_lem (start_broadcast u ty root (length values) bytes) ty values bytes m m' request
            coded (ground arith)
      | inr (inl (x, coded)) ↦ absurd (ground arith)
      | inr (inr coded) ↦ absurd (ground arith)
    ]
  ]

  reduce_nb-IsFit :
      (ty : Scalar) (op : UccReductionOp) (values : List ℕ) (m m' : Global)
      (request : CollectiveRequest)
      → reduce_nb u order ty op values m ≡ (ok request, m')
      → IsFit request
  unfolding reduce_nb
  reduce_nb-IsFit ty op values m m' request e = elim (Bool-cases (length values == 0)) [
    | inl empty ↦ absurd (ground arith)
    | inr full ↦ elim (Bool-cases (reduction_supported ty op)) [
      | inr unknown ↦ absurd (ground arith)
      | inl known ↦ elim (Result-cases (encode order ty values)) [
        | inl (bytes, coded) ↦
            made_lem (start_reduce u op ty (length values) bytes) ty values bytes m m' request coded
              (ground arith)
        | inr (inl (x, coded)) ↦ absurd (ground arith)
        | inr (inr coded) ↦ absurd (ground arith)
      ]
    ]
  ]

  -- Of a request that `broadcast_nb` or `reduce_nb` has returned: after any number of tests, the last
  -- buffer holds just as many bytes as the destination's values take; and the next test returns a value,
  -- or an error with a status of UCC, never one of the request's own, nor a panic.
  pub posted-Answers :
      (ty : Scalar) (root : ℕ) (op : UccReductionOp) (n : ℕ) (values : List ℕ) (m m' : Global)
      (request : CollectiveRequest) (h : History)
      → (broadcast_nb u order ty root values m ≡ (ok request, m'))
        ⊎ (reduce_nb u order ty op values m ≡ (ok request, m'))
      → IsFit (tested n (request, h)).0 × Answers (test u order (tested n (request, h))).0
  posted-Answers ty root op n values m m' request h (inl e) =
      kept_lem n (request, h) (broadcast_nb-IsFit ty root values m m' request e)
  posted-Answers ty root op n values m m' request h (inr e) =
      kept_lem n (request, h) (reduce_nb-IsFit ty op values m m' request e)
