-- ===== src/Rma/Roundtrip.antt =====
-- src/rma.rs: what was put and flushed is got.
pub mod Tests
use mathlib.Core.Path.{subst}
use openshmem_rs.Prelude.{
  Option, Outcome, ℕ, zero, suc, ◌+◌, ◌*◌, ◌^◌, ◌<◌, ◌≡◌, refl, sym, ap, ◌∙◌, List, [], ◌∷◌, some,
  All, length, inl, inr, arith, u32_mod, ltb, Bool-cases, Option-cases, replicate, overwrite,
  overwrite-whole, length-replicate,
}
use openshmem_rs.Prelude.BTree
use openshmem_rs.Error.{ok}
use openshmem_rs.World.{Services, History, Event, waited, freed, flushed, rma_put, rma_get}
use openshmem_rs.World.Loop.{then_loop-inv, Ends-ok, map_run-inv}
use openshmem_rs.Transport.{UcxTransport}
use openshmem_rs.Bootstrap.{PeerConnection}
use openshmem_rs.Pod.{Endian, Scalar, size_of, bytes_of, length-bytes_of}
use openshmem_rs.Pod.Decode.{values_of, values_of-bytes_of}
use openshmem_rs.Rma.Typed.{put, get}
use openshmem_rs.Rma.Values.{put-putmem, get-getmem}
use openshmem_rs.Init.State.{ShmemState, Global, unlocked}
use openshmem_rs.Init.Locked.{with_state_loop-running}
use openshmem_rs.Rma.{getmem, quiet_pe, find_peer, flush_peer}
use openshmem_rs.Rma.Wait.{after_rounds, Completed, Carried, Carried-Completed}
use openshmem_rs.Rma.Transfer.{Issued, putmem_lem, flush_peer-Carried}
use openshmem_rs.Rma.Gets.{Got, get_bytes-Ends}

-- The calls between two histories: waiting for requests, and freeing them.
pub data Waiting (h : History) : History → Type 0 where
  nothing_more : Waiting h h
  one_waited : {g : History} (request : ℕ) → Waiting h g → Waiting h (waited request ∷ g)
  one_freed : {g : History} (request : ℕ) → Waiting h g → Waiting h (freed request ∷ g)

-- What UCX is relied on for: where a put of some bytes went through, right after it a flush of its
-- endpoint, and right after that a get of as many bytes from there, each of the three accepted by UCX and,
-- if it left a request, waited for until UCX reported completion, the get has stored those bytes. So no
-- other PE writes there meanwhile.
abbrev pub Delivers : Services → Type 0
Delivers s =
    (t : UcxTransport) (ep address key : ℕ) (bytes : List ℕ) (h f g k : History)
    → Carried s t (rma_put ep bytes address key) (s.ucx.rma_put h ep bytes address key) h f
    → Carried s t (flushed ep) (s.ucx.flush f ep) f g
    → Carried s t (rma_get ep (length bytes) address key)
        (s.ucx.rma_get g ep (length bytes) address key) g k
    → s.ucx.received k ep address (length bytes) key ≡ bytes

after_rounds-Waiting :
    (n request : ℕ) (h g : History) → Waiting h g → Waiting h (after_rounds n request g)
unfolding after_rounds
after_rounds-Waiting zero request h g w = w
after_rounds-Waiting (suc n) request h g w =
    after_rounds-Waiting n request h (waited request ∷ g) (one_waited request w)

no_elements : (xs : List ℕ) → length xs ≡ 0 → xs ≡ []
no_elements [] e = refl
no_elements (x ∷ xs) e = absurd (omega arith)

module _ (s : Services) where
  find_peer-inv :
      (st : ShmemState) (pe : ℕ) (peer : PeerConnection)
      → find_peer s st pe ≡ ok peer
      → BTree.get pe st.peers ≡ some peer
  find_peer-inv st pe peer e = elim (Bool-cases (ltb pe u32_mod)) [
    | inl narrow ↦ elim (Option-cases (BTree.get pe st.peers)) [
      | inr (found, there) ↦ ground arith
      | inl absent ↦ absurd (ground arith)
    ]
    | inr wide ↦ absurd (ground arith)
  ]

  Completed-Waiting : (t : UcxTransport) (h g : History) → Completed s t h g → Waiting h g
  Completed-Waiting t h g (inl same) = subst (Waiting h) (sym same) nothing_more
  Completed-Waiting t h g (inr (request, f, (n, waits, last), same)) =
      subst (Waiting h) (sym same) (
        one_freed request
          (subst (Waiting h) (sym waits) (after_rounds-Waiting (suc n) request h h nothing_more)))

  pub Carried-Waiting :
      (t : UcxTransport) (made : Event) (o : Outcome (Option ℕ)) (h g : History)
      → Carried s t made o h g
      → Waiting (made ∷ h) g
  Carried-Waiting t made o h g c =
      Completed-Waiting t (made ∷ h) g (Carried-Completed s t made o h g c)

  -- What `quiet_pe` that returns `Ok` has done on a process that runs.
  pub quiet_pe-Carried :
      (rounds pe : ℕ) (st : ShmemState) (h : History) (m' : Global)
      → quiet_pe s rounds pe (unlocked (some st) h) ≡ some (ok tt, m')
      → (peer : PeerConnection) × (g : History) × (BTree.get pe st.peers ≡ some peer)
        × Carried s st.transport (flushed peer.endpoint) (s.ucx.flush h peer.endpoint) h g
        × (m' ≡ unlocked (some st) g)
  unfolding quiet_pe
  quiet_pe-Carried rounds pe st h m' e =
      let (g, run, left) = with_state_loop-running _ st h m' e in
      let (peer, f, found, rest) =
        then_loop-inv (find_peer s st pe, h) (flush_peer s rounds st.transport) g run in
      let flush = flush_peer-Carried s rounds st.transport peer f g rest in
      (
        peer,
        g,
        find_peer-inv st pe peer (λ i. (found i).0),
        subst
            (λ k. Carried s st.transport (flushed peer.endpoint) (s.ucx.flush k peer.endpoint) k g)
            (sym (λ i. (found i).1)) flush,
        left,
      )

  -- What a get that returns bytes has done on a process that runs.
  pub getmem-running :
      (rounds pe offset len : ℕ) (bytes : List ℕ) (st : ShmemState) (h : History) (m' : Global)
      → getmem s rounds pe offset len (unlocked (some st) h) ≡ some (ok bytes, m')
      → (peer : PeerConnection) × (g : History) × (BTree.get pe st.peers ≡ some peer)
        × Got s st.transport len peer (peer.heap_base + offset) h bytes g
        × (m' ≡ unlocked (some st) g)
  unfolding getmem
  getmem-running rounds pe offset len bytes st h m' e =
      let (g, run, left) = with_state_loop-running _ st h m' e in
      let (peer, reached, short, long, got) =
        Ends-ok (get_bytes-Ends s rounds pe offset len st h) run in
      (peer, g, reached.0, got, left)

  -- The bytes that were put and flushed are those that are got.
  delivered :
      (t : UcxTransport) (put_to flushed_to got_from : PeerConnection) (offset : ℕ)
      (sent bytes : List ℕ) (h f g k : History)
      → Delivers s
      → put_to ≡ flushed_to
      → put_to ≡ got_from
      → Issued s t sent put_to (put_to.heap_base + offset) h f
      → Carried s t (flushed flushed_to.endpoint) (s.ucx.flush f flushed_to.endpoint) f g
      → Got s t (length sent) got_from (got_from.heap_base + offset) g bytes k
      → bytes ≡ sent
  delivered t put_to flushed_to got_from offset sent bytes h f g k ucx to_same from_same issued
        flush got =
      let flush : Carried s t (flushed put_to.endpoint) (s.ucx.flush f put_to.endpoint) f g =
        subst (λ p. Carried s t (flushed p.endpoint) (s.ucx.flush f p.endpoint) f g) (sym to_same)
          flush in
      let got : Got s t (length sent) put_to (put_to.heap_base + offset) g bytes k =
        subst (λ p. Got s t (length sent) p (p.heap_base + offset) g bytes k) (sym from_same) got in
      arrived issued flush got
    where
      arrived :
          Issued s t sent put_to (put_to.heap_base + offset) h f
          → Carried s t (flushed put_to.endpoint) (s.ucx.flush f put_to.endpoint) f g
          → Got s t (length sent) put_to (put_to.heap_base + offset) g bytes k
          → bytes ≡ sent
      arrived (inl (nothing, same)) flush (inr (something, rest, read)) = absurd (omega arith)
      arrived (inr (something, rest)) flush (inl (nothing, empty, same)) = absurd (omega arith)
      arrived (inl (nothing, same)) flush (inl (none_asked, empty, still)) =
          empty ∙ sym (no_elements sent nothing)
      arrived (inr (something, sending)) flush (inr (some_asked, getting, read)) =
          let stored =
            ucx t put_to.endpoint (put_to.heap_base + offset) put_to.rkey sent h f g k sending flush
              getting in
          read
          ∙ ap (overwrite (replicate (length sent) 0)) stored
          ∙ overwrite-whole (replicate (length sent) 0) sent (length-replicate (length sent) 0)

  -- Typed values that their type can hold, where UCX delivers: a put of them that returns `Ok`, a
  -- `quiet_pe` of that PE that does, and a get of as many from the same offset that returns values,
  -- one after the other: these are the values that were put.
  pub get-put :
      (order : Endian) (ty : Scalar) (rounds pe offset : ℕ) (values result : List ℕ)
      (m m1 m2 m3 : Global)
      → Delivers s
      → All (λ value. value < 256 ^ size_of ty) values
      → put s order rounds ty pe values offset m ≡ some (ok tt, m1)
      → quiet_pe s rounds pe m1 ≡ some (ok tt, m2)
      → get s order rounds ty pe offset (length values) m2 ≡ some (ok result, m3)
      → result ≡ values
  get-put order ty rounds pe offset values result m m1 m2 m3 ucx small puts quiets gets =
      elim (get-getmem s order ty rounds pe offset (length values) m2) [
        | inl (over, fails) ↦ absurd (ground (arith, sym gets ∙ fails))
        | inr (fits, bytewise) ↦
            let long = length-bytes_of order ty values in
            let (bytes, got, read) = map_run-inv _ _ (sym bytewise ∙ gets) in
            let (st, h, f, before, (to, found_to, range, issued), left) =
              putmem_lem s rounds pe offset (bytes_of order ty values) m m1
                (sym (put-putmem s order ty rounds pe offset values m fits) ∙ puts) in
            let (at, g, found_at, flush, left_at) =
              quiet_pe-Carried rounds pe st f m2
                (subst (λ q. quiet_pe s rounds pe q ≡ some (ok tt, m2)) left quiets) in
            let (from, k, found_from, stored, left_from) =
              getmem-running rounds pe offset (length (bytes_of order ty values)) bytes st g m3 (
                subst
                  (λ n. getmem s rounds pe offset n (unlocked (some st) g) ≡ some (ok bytes, m3))
                  (sym long)
                  (subst
                    (λ q.
                      getmem s rounds pe offset (length values * size_of ty) q
                      ≡ some (ok bytes, m3))
                    left_at got)) in
            let to_at : to ≡ at = cc in
            let to_from : to ≡ from = cc in
            let same =
              delivered st.transport to at from offset (bytes_of order ty values) bytes h f g k ucx
                to_at to_from issued flush stored in
            read
            ∙ ap (values_of order ty (length values)) same
            ∙ values_of-bytes_of order ty values small
      ]
