-- ===== src/Examples/Polling.antt =====
-- What PE 1 of ping_put_get has done when it succeeds.
use mathlib.Core.Path.{subst}
use openshmem_rs.Prelude.{
  ℕ, zero, suc, ◌+◌, ◌≡◌, ◌≢◌, sym, ap, ◌∙◌, List, [], ◌∷◌, some, Bool, true, false, inl, inr,
  arith, Bool-cases,
}
use openshmem_rs.Prelude.BTree
use openshmem_rs.Error.{ok}
use openshmem_rs.World.{Services, History}
use openshmem_rs.World.Loop.{map_run-inv}
use openshmem_rs.Bootstrap.{PeerConnection}
use openshmem_rs.Pod.{Endian, u64}
use openshmem_rs.Pod.Decode.{values_of}
use openshmem_rs.Init.State.{ShmemState, Global, unlocked}
use openshmem_rs.Rma.Gets.{Got}
use openshmem_rs.Rma.Values.{get-getmem}
use openshmem_rs.Rma.Roundtrip.{getmem-running}
use openshmem_rs.Rma.Typed.{get}
use openshmem_rs.Examples.PingPutGet.{poll, is_value, value, value_offset}
use openshmem_rs.Examples.Started.{and_run-inv}

module _ (s : Services) (order : Endian) (late : History → Bool) where
  -- The polls of a PE for the value at an offset in its own heap: each but the last has got something
  -- else before the deadline, and the last has got the value.
  pub data Polls (st : ShmemState) (offset : ℕ) : History → History → Type 0 where
    last_poll :
        {h g : History} {peer : PeerConnection} {bytes : List ℕ}
        → BTree.get st.rank st.peers ≡ some peer
        → Got s st.transport 8 peer (peer.heap_base + (offset + value_offset)) h bytes g
        → values_of order u64 1 bytes ≡ value ∷ []
        → Polls st offset h g
    next_poll :
        {h f g : History} {peer : PeerConnection} {bytes : List ℕ}
        → BTree.get st.rank st.peers ≡ some peer
        → Got s st.transport 8 peer (peer.heap_base + (offset + value_offset)) h bytes f
        → values_of order u64 1 bytes ≢ value ∷ []
        → late f ≡ false
        → Polls st offset f g
        → Polls st offset h g

  is_value-inv : (xs : List ℕ) → is_value xs ≡ true → xs ≡ value ∷ []
  unfolding is_value
  is_value-inv [] e = absurd (ground arith)
  is_value-inv (x ∷ []) e = let same : x ≡ value = ground arith in ap (λ y. y ∷ []) same
  is_value-inv (x ∷ y ∷ xs) e = absurd (ground arith)

  is_value-other : (xs : List ℕ) → is_value xs ≡ false → xs ≢ value ∷ []
  unfolding is_value
  is_value-other xs e same =
      let yes : is_value xs ≡ true = ap is_value same in absurd (ground arith)

  Got-values :
      (rounds pe offset : ℕ) (st : ShmemState) (h : History) (values : List ℕ) (m' : Global)
      → get s order rounds u64 pe offset 1 (unlocked (some st) h) ≡ some (ok values, m')
      → (bytes : List ℕ) × (peer : PeerConnection) × (g : History) × (BTree.get pe st.peers
          ≡ some peer)
        × Got s st.transport 8 peer (peer.heap_base + offset) h bytes g
        × (values ≡ values_of order u64 1 bytes)
        × (m' ≡ unlocked (some st) g)
  Got-values rounds pe offset st h values m' e =
      elim (get-getmem s order u64 rounds pe offset 1 (unlocked (some st) h)) [
        | inl (over, fails) ↦ absurd (omega arith)
        | inr (fits, bytewise) ↦
            let (bytes, got, read) = map_run-inv _ _ (sym bytewise ∙ e) in
            let (peer, g, found, stored, left) =
              getmem-running s rounds pe offset 8 bytes st h m' got in
            (bytes, peer, g, found, stored, read, left)
      ]

  pub poll-Polls :
      (rounds polls offset : ℕ) (st : ShmemState) (h : History) (m' : Global)
      → poll s order late rounds polls st.rank offset (unlocked (some st) h) ≡ some (ok tt, m')
      → (g : History) × Polls st offset h g × (m' ≡ unlocked (some st) g)
  unfolding poll
  poll-Polls rounds zero offset st h m' e = absurd (ground arith)
  poll-Polls rounds (suc polls) offset st h m' e =
      let (values, m1, gets, rest) = and_run-inv _ _ e in
      let (bytes, peer, g, found, stored, read, left) =
        Got-values rounds st.rank (offset + value_offset) st h values m1 gets in
      elim (Bool-cases (is_value values)) [
        | inl same ↦
            let here : m1 ≡ m' = ground arith in
            (g, last_poll found stored (sym read ∙ is_value-inv values same), sym here ∙ left)
        | inr other ↦ elim (Bool-cases (late m1.value.history)) [
          | inl over ↦ absurd (ground arith)
          | inr early ↦
              let again : poll s order late rounds polls st.rank offset m1 ≡ some (ok tt, m') =
                ground arith in
              let (k, polled, last) = poll-Polls rounds polls offset st g m' (
                subst (λ q. poll s order late rounds polls st.rank offset q ≡ some (ok tt, m')) left
                  again) in
              let in_time : late g ≡ false = ap (λ q. late q.value.history) (sym left) ∙ early in
              (
                k,
                next_poll found stored (λ same. is_value-other values other (read ∙ same)) in_time
                    polled,
                last,
              )
        ]
      ]
