-- ===== src/Bootstrap/Peers.antt =====
-- What `handshake` leaves in the two maps.
use mathlib.Core.Path.{subst}
use native.Mathlib.Numerals.{add-one}
use openshmem_rs.Prelude.{
  ℕ, zero, suc, ◌+◌, ◌≤◌, ◌<◌, ◌≡◌, refl, List, [], some, none, length, ◌==◌, false, inl, inr,
  Bool-cases, arith,
}
use openshmem_rs.Prelude.BTree
use openshmem_rs.Prelude.BTree.{get-insert}
use openshmem_rs.World.{Services, History}
use openshmem_rs.World.Post.{Post, returned, failed, bind, step}
use openshmem_rs.SymHeap.PeerRkeys
use openshmem_rs.SymHeap.PeerRkeys.{PeerRkey, get-insert_lem}
use openshmem_rs.Transport.{UcxTransport, create_endpoint}
use openshmem_rs.Bootstrap.{Bootstrap, PeerConnection, incomplete, connect_peer, connect_peers}

-- Both maps hold the PE, with one heap base, which is not null, and a framed key.
abbrev pub Connected : Bootstrap → ℕ → Type 0
Connected b pe =
    (c : PeerConnection) × (k : PeerRkey) × (BTree.get pe b.peers ≡ some c)
    × (PeerRkeys.get pe b.peer_rkeys ≡ some k)
    × (k.heap_base ≡ c.heap_base)
    × (0 < c.heap_base)
    × (4 ≤ length k.rkey)

abbrev pub Absent : Bootstrap → ℕ → Type 0
Absent b pe = (BTree.get pe b.peers ≡ none) × (PeerRkeys.get pe b.peer_rkeys ≡ none)

-- The PEs below `n` are connected, and no others are there.
pub record ConnectedBelow (n : ℕ) (b : Bootstrap) : Type 0 where
  pub below : (pe : ℕ) → pe < n → Connected b pe
  pub beyond : (pe : ℕ) → n ≤ pe → Absent b pe

complete_base : (address rkey : List ℕ) (base : ℕ) → incomplete address rkey base ≡ false → 0 < base
unfolding incomplete
complete_base address rkey base e = ground arith

complete_rkey :
    (address rkey : List ℕ) (base : ℕ) → incomplete address rkey base ≡ false → 4 ≤ length rkey
unfolding incomplete
complete_rkey address rkey base e = ground arith

pub none_connected : ConnectedBelow 0 (record { peer_rkeys = PeerRkeys.default; peers = [] })
unfolding BTree.get PeerRkeys.get
none_connected = record { below = λ pe h. absurd (omega arith); beyond = λ pe h. (refl, refl) }

module _ (s : Services) (client : ℕ) (t : UcxTransport) where
  extended :
      (pe endpoint rkey base : ℕ) (bytes : List ℕ) (b : Bootstrap)
      → ConnectedBelow pe b
      → 0 < base
      → 4 ≤ length bytes
      → ConnectedBelow (suc pe) (record {
        peer_rkeys = PeerRkeys.insert pe base bytes b.peer_rkeys;
        peers =
            BTree.insert pe (record { endpoint = endpoint; rkey = rkey; heap_base = base }) b.peers;
      })
  extended pe endpoint rkey base bytes b inv pos long =
      let peer : PeerConnection = record { endpoint = endpoint; rkey = rkey; heap_base = base } in
      record {
        below = λ q h. elim (Bool-cases (pe == q)) [
          | inl same ↦ (
            peer,
            record { heap_base = base; rkey = bytes },
            rw (get-insert, same),
            rw (get-insert_lem, same),
            refl,
            pos,
            long,
          )
          | inr other ↦
              let (c, k, found, key, agree, nonzero, framed) = inv.below q (ground arith) in
              (
                c,
                k,
                rw (get-insert, other) found,
                rw (get-insert_lem, other) key,
                agree,
                nonzero,
                framed,
              )
        ];
        beyond = λ q h. ground (
          arith,
          get-insert pe q peer b.peers,
          get-insert_lem pe q base bytes b.peer_rkeys,
          inv.beyond q,
        );
      }

  connect_peer-Post :
      (pe : ℕ) (b : Bootstrap) (h : History)
      → ConnectedBelow pe b
      → Post (λ b' g. ConnectedBelow (suc pe) b') (connect_peer s client t pe b h)
  unfolding connect_peer create_endpoint
  connect_peer-Post pe b h inv = step _ λ proc _. step _ λ address _. step _ λ rkey_value _.
      step _ λ base_value _.
        elim (Bool-cases (
          incomplete (s.pmix.bytes_copy address) (s.pmix.bytes_copy rkey_value)
            (s.pmix.uint64 base_value))) [
              | inl bad ↦ rw bad failed
              | inr good ↦ rw good (
                  step _ λ endpoint _. step _ λ rkey _. returned (
                    extended pe endpoint rkey _ _ b inv (complete_base _ _ _ good)
                      (complete_rkey _ _ _ good)))
            ]

  pub connect_peers-Post :
      (rounds pe n : ℕ) (b : Bootstrap) (h : History)
      → ConnectedBelow pe b
      → n ≡ pe + rounds
      → Post (λ b' g. ConnectedBelow n b') (connect_peers s client t rounds pe b h)
  unfolding connect_peers
  connect_peers-Post zero pe n b h inv e =
      let same : pe ≡ n = omega arith in returned (subst (λ k. ConnectedBelow k b) same inv)
  connect_peers-Post (suc rounds) pe n b h inv e = bind (connect_peer-Post pe b h inv) λ b1 h1 p1.
      let inv1 : ConnectedBelow (pe + 1) b1 = rw add-one p1 in
      connect_peers-Post rounds (pe + 1) n b1 h1 inv1 (omega arith)
