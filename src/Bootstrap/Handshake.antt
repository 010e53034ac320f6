-- ===== src/Bootstrap/Handshake.antt =====
-- `handshake`: what it has done and what it leaves when it returns, and where it stops.
use openshmem_rs.Prelude.{
  String, ap, ◌∙◌, ℕ, ◌%◌, ◌<◌, ◌≡◌, refl, List, ◌∷◌, ◌==◌, inl, inr, Bool-cases, arith, done,
  u32_mod,
}
use openshmem_rs.Error.{ok}
use openshmem_rs.World.{Services, History, fenced, committed, put_value}
use openshmem_rs.World.Post.{Post, failed, bind, mono, step, last, Post-ok, both, map_err-done}
use openshmem_rs.SymHeap.{SymHeap}
use openshmem_rs.Transport.{UcxTransport}
use openshmem_rs.Bootstrap.{
  Bootstrap, publish, put_bytes, handshake, worker_addr_key, heap_rkey_key, heap_base_key,
}
use openshmem_rs.Bootstrap.Peers.{Absent, ConnectedBelow, none_connected, connect_peers-Post}
use openshmem_rs.Bootstrap.Joined.{Connects, connect_peers-Connects}

module _ (s : Services) where
  -- PMIx built the value of a byte object of these bytes.
  pub record Built (bytes : List ℕ) (value : ℕ) : Type 0 where
    pub object : ℕ
    pub wrapped : s.pmix.byte_object bytes ≡ done object
    pub built : s.pmix.build object ≡ done value

  -- What the handshake has done before it asks for a peer: the values built of the worker's address, of
  -- the heap's packed key and of its base were published under their keys, then committed, then fenced
  -- with the whole job.
  pub record Published (client : ℕ) (t : UcxTransport) (heap : SymHeap) (h g : History)
      : Type 0 where
    pub address : ℕ
    pub rkey : ℕ
    pub base : ℕ
    pub wildcard : ℕ
    pub address_built : Built t.packed_address address
    pub rkey_built : Built heap.packed_rkey rkey
    pub base_built : s.pmix.build (s.pmix.uint64_builder heap.local_base) ≡ done base
    pub whole_job : s.pmix.proc_with_nspace client s.pmix.rank_wildcard ≡ done wildcard
    pub calls :
        g
        ≡ fenced wildcard
          ∷ committed
          ∷ put_value heap_base_key base
          ∷ put_value heap_rkey_key rkey
          ∷ put_value worker_addr_key address
          ∷ h

  put_bytes-Post :
      (key : String) (bytes : List ℕ) (h : History)
      → Post
          (λ _ g. (value : ℕ) × Built bytes value × (g ≡ put_value key value ∷ h))
          (put_bytes s key bytes h)
  unfolding put_bytes
  put_bytes-Post key bytes h = step _ λ object e1. step _ λ value e2. last λ _ _. (
    value,
    record { object = object; wrapped = map_err-done _ _ e1; built = map_err-done _ _ e2 },
    refl,
  )

  publish-Post :
      (t : UcxTransport) (heap : SymHeap) (h : History)
      → Post
          (λ _ g.
            (address rkey base : ℕ) × Built t.packed_address address
            × Built heap.packed_rkey rkey
            × (s.pmix.build (s.pmix.uint64_builder heap.local_base) ≡ done base)
            × (g
                ≡ put_value heap_base_key base
                  ∷ put_value heap_rkey_key rkey
                  ∷ put_value worker_addr_key address
                  ∷ h))
          (publish s t heap h)
  unfolding publish
  publish-Post t heap h = bind (put_bytes-Post worker_addr_key t.packed_address h) λ _ h1 p1.
      bind (put_bytes-Post heap_rkey_key heap.packed_rkey h1) λ _ h2 p2. step _ λ base e.
        last λ _ _. (
          p1.0,
          p2.0,
          base,
          p1.1,
          p2.1,
          map_err-done _ _ e,
          ap (λ l. put_value heap_base_key base ∷ l)
              (p2.2 ∙ ap (λ l. put_value heap_rkey_key p2.0 ∷ l) p1.2),
        )

  -- The calls of a handshake that returns: those that publish, then those for the PEs in turn.
  abbrev pub Handshaken : ℕ → UcxTransport → SymHeap → ℕ → History → Bootstrap → History → Type 0
  Handshaken client t heap n h b g =
      (f : History) × Published client t heap h f × Connects s client t b 0 n f g

  handshake-Post :
      (client : ℕ) (t : UcxTransport) (heap : SymHeap) (size : ℕ) (h : History)
      → Post
          (λ b g.
            ConnectedBelow (size % u32_mod) b × Handshaken client t heap (size % u32_mod) h b g)
          (handshake s client t heap size h)
  unfolding handshake
  handshake-Post client t heap size h = elim (Bool-cases (size == 0)) [
    | inl none_there ↦ rw none_there failed
    | inr some_there ↦ rw some_there (
        bind (publish-Post t heap h) λ _ h1 p1. step _ λ _ _. step _ λ wildcard e. step _ λ _ _.
          mono
            (both
              (connect_peers-Post s client t (size % u32_mod) 0 (size % u32_mod) _ _ none_connected
                (omega arith))
              (connect_peers-Connects s client t (size % u32_mod) 0 (size % u32_mod) _ _
                (omega arith)))
            λ b g p2. (
              p2.0,
              (
                _,
                record {
                  address = p1.0;
                  rkey = p1.1;
                  base = p1.2;
                  wildcard = wildcard;
                  address_built = p1.3;
                  rkey_built = p1.4;
                  base_built = p1.5;
                  whole_job = map_err-done _ _ e;
                  calls = ap (λ l. fenced wildcard ∷ committed ∷ l) p1.6;
                },
                p2.1.0,
              ),
            ))
  ]

-- A handshake that returns has connected every PE below the job size as far as a `u32` goes, and no
-- other: both maps hold the peer with one base, not null, and with a framed key. Its calls are these and
-- no others: the values that PMIx built of its own worker address, packed key and heap base were
-- published, committed, and fenced with the whole job; then, PE after PE in the order of the ranks, PMIx
-- was asked for the three values of that PE's process, and UCX for an endpoint to that worker address and
-- for that key unpacked there. The PE's entries in the maps are made of those answers.
pub handshake_lem :
    (s : Services) (client : ℕ) (t : UcxTransport) (heap : SymHeap) (size : ℕ) (h g : History)
    (b : Bootstrap)
    → handshake s client t heap size h ≡ (ok b, g)
    → ConnectedBelow (size % u32_mod) b × Handshaken s client t heap (size % u32_mod) h b g
handshake_lem s client t heap size h g b e = Post-ok (handshake-Post s client t heap size h) e

-- A job of no PEs is refused.
pub not_empty :
    (s : Services) (client : ℕ) (t : UcxTransport) (heap : SymHeap) (size : ℕ) (h g : History)
    (b : Bootstrap)
    → handshake s client t heap size h ≡ (ok b, g)
    → 0 < size
unfolding handshake
not_empty s client t heap size h g b e = ground arith

-- With a job size that is a multiple of 2^32, a handshake that returns has passed the test for zero and
-- has connected no PE at all.
pub handshake_wraps :
    (s : Services) (client : ℕ) (t : UcxTransport) (heap : SymHeap) (size : ℕ) (h g : History)
    (b : Bootstrap)
    → size % u32_mod ≡ 0
    → handshake s client t heap size h ≡ (ok b, g)
    → (0 < size) × ((pe : ℕ) → Absent b pe)
handshake_wraps s client t heap size h g b wrap e = (
  not_empty s client t heap size h g b e,
  λ pe. (handshake_lem s client t heap size h g b e).0.beyond pe (omega (arith, wrap)),
)
