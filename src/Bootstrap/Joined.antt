-- ===== src/Bootstrap/Joined.antt =====
-- What each round of the loop of `handshake` asks of PMIx and UCX, and where the answers go.
use mathlib.Core.Path.{subst}
use openshmem_rs.Prelude.{
  ℕ, zero, suc, ◌+◌, ◌<◌, ◌≡◌, refl, ◌∙◌, ◌∷◌, List, some, false, inl, inr, Bool-cases, arith, done,
}
use openshmem_rs.Prelude.BTree
use openshmem_rs.Prelude.BTree.{get-insert}
use openshmem_rs.World.{Services, History, get_value, created_ep, unpacked_rkey}
use openshmem_rs.World.Post.{Post, returned, failed, bind, mono, step, map_err-done}
use openshmem_rs.SymHeap.PeerRkeys
use openshmem_rs.SymHeap.PeerRkeys.{PeerRkey, get-insert_lem}
use openshmem_rs.Transport.{UcxTransport, create_endpoint}
use openshmem_rs.Bootstrap.{
  Bootstrap, PeerConnection, incomplete, connect_peer, connect_peers, worker_addr_key,
  heap_rkey_key, heap_base_key,
}

-- The entries of the PEs below `pe` are those of `b`.
abbrev Kept : ℕ → Bootstrap → Bootstrap → Type 0
Kept pe b b' =
    (q : ℕ)
    → q < pe
    → (BTree.get q b'.peers ≡ BTree.get q b.peers)
      × (PeerRkeys.get q b'.peer_rkeys ≡ PeerRkeys.get q b.peer_rkeys)

module _ (s : Services) (client : ℕ) (t : UcxTransport) where
  -- The five calls for a PE: PMIx was asked for the three values of that PE's process, and none was
  -- incomplete; UCX made the endpoint from its worker address, and unpacked its key there. The
  -- connection and the key are made of these answers.
  pub record Joined (pe : ℕ) (h : History) (c : PeerConnection) (k : PeerRkey) (g : History)
      : Type 0 where
    pub proc : ℕ
    pub address : ℕ
    pub rkey : ℕ
    pub base : ℕ
    pub named : s.pmix.proc_with_nspace client pe ≡ done proc
    pub address_read : s.pmix.get_value h proc worker_addr_key ≡ done address
    pub rkey_read :
        s.pmix.get_value (get_value proc worker_addr_key ∷ h) proc heap_rkey_key ≡ done rkey
    pub base_read :
        s.pmix.get_value
          (get_value proc heap_rkey_key ∷ get_value proc worker_addr_key ∷ h)
          proc
          heap_base_key
        ≡ done base
    pub complete :
        incomplete (s.pmix.bytes_copy address) (s.pmix.bytes_copy rkey) (s.pmix.uint64 base) ≡ false
    pub reached :
        s.ucx.create_ep
          (get_value proc heap_base_key
            ∷ get_value proc heap_rkey_key
            ∷ get_value proc worker_addr_key
            ∷ h)
          t.worker
          (s.pmix.bytes_copy address)
        ≡ done c.endpoint
    pub unpacked :
        s.ucx.unpack_rkey
          (created_ep t.worker (s.pmix.bytes_copy address)
            ∷ get_value proc heap_base_key
            ∷ get_value proc heap_rkey_key
            ∷ get_value proc worker_addr_key
            ∷ h)
          c.endpoint
          (s.pmix.bytes_copy rkey)
        ≡ done c.rkey
    pub connection_base : c.heap_base ≡ s.pmix.uint64 base
    pub key : k ≡ record { heap_base = s.pmix.uint64 base; rkey = s.pmix.bytes_copy rkey }
    pub calls :
        g
        ≡ unpacked_rkey c.endpoint (s.pmix.bytes_copy rkey)
          ∷ created_ep t.worker (s.pmix.bytes_copy address)
          ∷ get_value proc heap_base_key
          ∷ get_value proc heap_rkey_key
          ∷ get_value proc worker_addr_key
          ∷ h

  -- The PE's entries in the two maps, and the calls that they were made of.
  pub record Joins (b : Bootstrap) (pe : ℕ) (h g : History) : Type 0 where
    pub connection : PeerConnection
    pub peer_rkey : PeerRkey
    pub peer_there : BTree.get pe b.peers ≡ some connection
    pub rkey_there : PeerRkeys.get pe b.peer_rkeys ≡ some peer_rkey
    pub joined : Joined pe h connection peer_rkey g

  -- The calls for the PEs from `pe` up to `n`, one PE after the other.
  pub data Connects (b : Bootstrap) : ℕ → ℕ → History → History → Type 0 where
    all_there : {n : ℕ} {h : History} → Connects b n n h h
    next :
        {pe n : ℕ} {h f g : History}
        → Joins b pe h f
        → Connects b (pe + 1) n f g
        → Connects b pe n h g

  connect_peer-Joins :
      (pe : ℕ) (b : Bootstrap) (h : History)
      → Post (λ b' g. Joins b' pe h g × Kept pe b b') (connect_peer s client t pe b h)
  unfolding connect_peer create_endpoint
  connect_peer-Joins pe b h = step _ λ proc e1. step _ λ address e2. step _ λ rkey_value e3.
      step _ λ base_value e4.
        elim (Bool-cases (
          incomplete (s.pmix.bytes_copy address) (s.pmix.bytes_copy rkey_value)
            (s.pmix.uint64 base_value))) [
              | inl bad ↦ rw bad failed
              | inr good ↦ rw good (
                  step _ λ endpoint e5. step _ λ rkey e6. returned (
                    record {
                      connection = record {
                        endpoint = endpoint;
                        rkey = rkey;
                        heap_base = s.pmix.uint64 base_value;
                      };
                      peer_rkey = record {
                        heap_base = s.pmix.uint64 base_value;
                        rkey = s.pmix.bytes_copy rkey_value;
                      };
                      peer_there = inserted pe _ b.peers;
                      rkey_there = rkey_inserted pe _ _ b.peer_rkeys;
                      joined = record {
                        proc = proc;
                        address = address;
                        rkey = rkey_value;
                        base = base_value;
                        named = map_err-done _ _ e1;
                        address_read = map_err-done _ _ e2;
                        rkey_read = map_err-done _ _ e3;
                        base_read = map_err-done _ _ e4;
                        complete = good;
                        reached = map_err-done _ _ e5;
                        unpacked = map_err-done _ _ e6;
                        connection_base = refl;
                        key = refl;
                        calls = refl;
                      };
                    },
                    kept pe _ _ _ b,
                  ))
            ]
    where
      inserted :
          (pe : ℕ) (c : PeerConnection) (peers : List (ℕ × PeerConnection))
          → BTree.get pe (BTree.insert pe c peers) ≡ some c
      inserted pe c peers = ground (arith, get-insert pe pe c peers)

      rkey_inserted :
          (pe base : ℕ) (bytes : List ℕ) (keys : PeerRkeys.PeerRkeys)
          → PeerRkeys.get pe (PeerRkeys.insert pe base bytes keys)
            ≡ some (record { heap_base = base; rkey = bytes })
      rkey_inserted pe base bytes keys = ground (arith, get-insert_lem pe pe base bytes keys)

      kept :
          (pe base : ℕ) (bytes : List ℕ) (c : PeerConnection) (b : Bootstrap)
          → Kept pe b (record {
            peer_rkeys = PeerRkeys.insert pe base bytes b.peer_rkeys;
            peers = BTree.insert pe c b.peers;
          })
      kept pe base bytes c b q below = (
        ground (arith, get-insert pe q c b.peers),
        ground (arith, get-insert_lem pe q base bytes b.peer_rkeys),
      )

  Joins-Kept :
      (pe : ℕ) (b b' : Bootstrap) (h g : History)
      → Kept (pe + 1) b b'
      → Joins b pe h g
      → Joins b' pe h g
  Joins-Kept pe b b' h g same j = record {
    connection = j.connection;
    peer_rkey = j.peer_rkey;
    peer_there = (same pe (omega arith)).0 ∙ j.peer_there;
    rkey_there = (same pe (omega arith)).1 ∙ j.rkey_there;
    joined = j.joined;
  }

  Kept-trans : (pe : ℕ) (b b' b'' : Bootstrap) → Kept pe b b' → Kept (pe + 1) b' b'' → Kept pe b b''
  Kept-trans pe b b' b'' first second q below =
      let (peer, key) = first q below in
      let (peer', key') = second q (omega arith) in (peer' ∙ peer, key' ∙ key)

  pub connect_peers-Connects :
      (rounds pe n : ℕ) (b : Bootstrap) (h : History)
      → n ≡ pe + rounds
      → Post (λ b' g. Connects b' pe n h g × Kept pe b b') (connect_peers s client t rounds pe b h)
  unfolding connect_peers
  connect_peers-Connects zero pe n b h e =
      let same : pe ≡ n = omega arith in
      returned (subst (λ k. Connects b pe k h h) same all_there, λ q below. (refl, refl))
  connect_peers-Connects (suc rounds) pe n b h e = bind (connect_peer-Joins pe b h) λ b1 h1 p1.
      mono (connect_peers-Connects rounds (pe + 1) n b1 h1 (omega arith)) λ b2 h2 p2.
        (next (Joins-Kept pe b1 b2 h h1 p2.1 p1.0) p2.0, Kept-trans pe b b1 b2 p1.1 p2.1)
