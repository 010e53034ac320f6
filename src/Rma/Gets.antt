-- ===== src/Rma/Gets.antt =====
-- What `getmem` that returns bytes has done.
use openshmem_rs.Prelude.{
  ℕ, ◌+◌, ◌<◌, ◌≡◌, ◌⊎◌, refl, ◌∙◌, List, [], some, inl, inr, arith, Bool-cases, length, ◌==◌, leb,
  replicate, overwrite, length-overwrite, length-replicate, isize_limit,
}
use openshmem_rs.Error.{ok}
use openshmem_rs.Error.Convert.{from_ucx}
use openshmem_rs.World.{Services, History, rma_get, call}
use openshmem_rs.World.Loop.{Ends, returned, panicked, then_step, and_step, Ends-mono}
use openshmem_rs.World.Post.{map_err-done}
use openshmem_rs.Transport.{UcxTransport}
use openshmem_rs.Bootstrap.{PeerConnection}
use openshmem_rs.Init.State.{ShmemState, Global, unlocked}
use openshmem_rs.Init.Locked.{locked_Ends}
use openshmem_rs.Rma.{issue_get, get_bytes, getmem}
use openshmem_rs.Rma.Target.{Reached, Reached-step}
use openshmem_rs.Rma.Wait.{Carried, carried}

module _ (s : Services) where
  -- Nothing was asked for; or one get was made and has been completed, and the bytes are those that UCX
  -- has stored by then, in a buffer of zeros.
  abbrev pub Got : UcxTransport → ℕ → PeerConnection → ℕ → History → List ℕ → History → Type 0
  Got t len peer address h bytes g =
      ((len ≡ 0) × (bytes ≡ []) × (g ≡ h))
      ⊎ ((0 < len)
          × Carried s t (rma_get peer.endpoint len address peer.rkey)
              (s.ucx.rma_get h peer.endpoint len address peer.rkey) h g
          × (bytes
              ≡ overwrite (replicate len 0) (s.ucx.received g peer.endpoint address len peer.rkey)))

  issue_get-Ends :
      (rounds len : ℕ) (t : UcxTransport) (peer : PeerConnection) (address : ℕ) (h : History)
      → Ends
          (λ bytes g. (len < isize_limit) × (length bytes ≡ len) × Got t len peer address h bytes g)
          (issue_get s rounds len t (peer, address) h)
  unfolding issue_get
  issue_get-Ends rounds len t peer address h = elim (Bool-cases (leb isize_limit len)) [
    | inl huge ↦ rw (huge, issue_get) panicked
    | inr small ↦ elim (Bool-cases (len == 0)) [
      | inl nothing ↦
          rw (small, nothing, issue_get)
            (returned (ground arith, ground arith, inl (ground arith, refl, refl)))
      | inr something ↦
          rw (small, something, issue_get)
            (then_step
              (call (rma_get peer.endpoint len address peer.rkey)
                (λ k. s.ucx.rma_get k peer.endpoint len address peer.rkey) (from_ucx s.statuses) h)
              _
              λ request f made. and_step _ _ λ _ g e. returned (
                ground arith,
                length-overwrite (replicate len 0) _ ∙ length-replicate len 0,
                inr (
                  ground arith,
                  carried s rounds t (rma_get peer.endpoint len address peer.rkey)
                      (s.ucx.rma_get h peer.endpoint len address peer.rkey) request h f g
                      (map_err-done (from_ucx s.statuses) _ (λ i. (made i).0)) (λ i. (made i).1) e,
                  refl,
                ),
              ))
    ]
  ]

  pub get_bytes-Ends :
      (rounds pe offset len : ℕ) (st : ShmemState) (h : History)
      → Ends
          (λ bytes g.
            (peer : PeerConnection) × Reached st pe offset len peer
            × (len < isize_limit)
            × (length bytes ≡ len)
            × Got st.transport len peer (peer.heap_base + offset) h bytes g)
          (get_bytes s rounds pe offset len st h)
  unfolding get_bytes
  get_bytes-Ends rounds pe offset len st h = Reached-step st pe offset len h _ λ peer reached.
      Ends-mono (issue_get-Ends rounds len st.transport peer (peer.heap_base + offset) h)
        λ bytes g got. (peer, reached, got.0, got.1, got.2)

  -- A `getmem` that returns bytes has found the process initialised, the PE in the job, and the range
  -- free of overflow. It returns as many bytes as were asked for. Where that is none it has made no call;
  -- else it has made one get of them, at the offset from the peer's base, with the peer's key, which was
  -- complete at once or was waited for, and the bytes are what UCX had stored by then. The state is
  -- unchanged.
  pub getmem_lem :
      (rounds pe offset len : ℕ) (bytes : List ℕ) (m m' : Global)
      → getmem s rounds pe offset len m ≡ some (ok bytes, m')
      → (st : ShmemState) × (h g : History) × (m ≡ unlocked (some st) h)
        × ((peer : PeerConnection) × Reached st pe offset len peer
            × (len < isize_limit)
            × (length bytes ≡ len)
            × Got st.transport len peer (peer.heap_base + offset) h bytes g)
        × (m' ≡ unlocked (some st) g)
  unfolding getmem
  getmem_lem rounds pe offset len bytes m m' e =
      locked_Ends _ _ m m' (λ st h. get_bytes-Ends rounds pe offset len st h) e
