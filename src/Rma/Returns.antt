-- ===== src/Rma/Returns.antt =====
-- The transfers and the completions return: how many rounds are enough.
use openshmem_rs.Prelude.{ℕ, ◌≤◌, ◌≡◌, List, [], ◌∷◌, Option, none, some, arith}
use openshmem_rs.Error.{Result}
use openshmem_rs.World.{Services, History}
use openshmem_rs.Transport.{UcxTransport}
use openshmem_rs.Bootstrap.{PeerConnection}
use openshmem_rs.Init.State.{Global}
use openshmem_rs.Init.Held.{Held-returns}
use openshmem_rs.Rma.{putmem, getmem, quiet, quiet_pe}
use openshmem_rs.Rma.Complete.{Called-avoids, Prompt, Completes-Prompt}
use openshmem_rs.Rma.Attempt.{Attempt-returns, found}
use openshmem_rs.Rma.Flushes.{
  Flush, Flushes, one_flushed, flush_waiting, quiet-Flushes, quiet_pe-Found,
}
use openshmem_rs.Rma.Outcomes.{Puts, put_made, putmem-Puts, Gets, get_made, getmem-Gets}

-- The code has returned.
abbrev pub Returns : {T : Type 0} → Option (Result T × Global) → Type 0
Returns {T = T} r = (out : Result T × Global) × (r ≡ some out)

module _ (s : Services) (limit rounds : ℕ) (prompt : Prompt s limit) (enough : limit ≤ rounds) where
  put_returns :
      (bytes : List ℕ) (t : UcxTransport) (peer : PeerConnection) (address : ℕ) (h : History)
      → Puts s rounds bytes t peer address h none
      → ⊥
  put_returns bytes t peer address h (put_made some_bytes call) =
      Called-avoids s (λ e g same. ground arith) (λ b g. Completes-Prompt s prompt enough) call

  get_returns :
      (len : ℕ) (t : UcxTransport) (peer : PeerConnection) (address : ℕ) (h : History)
      → Gets s rounds len t peer address h none
      → ⊥
  get_returns len t peer address h (get_made some_bytes short call) =
      Called-avoids s (λ e g same. ground arith) (λ b g. Completes-Prompt s prompt enough) call

  Flush-returns :
      (t : UcxTransport) (peer : PeerConnection) (h : History) → Flush s rounds t peer h none → ⊥
  Flush-returns t peer h =
      Called-avoids s (λ e g same. ground arith) (λ b g. Completes-Prompt s prompt enough)

  Flushes-returns :
      (t : UcxTransport) (peers : List (ℕ × PeerConnection)) (h : History)
      → Flushes s rounds t peers h none
      → ⊥
  Flushes-returns t [] h flushes = elim flushes [ ]
  Flushes-returns t ((pe, peer) ∷ peers) h (one_flushed first rest) = Flushes-returns t peers _ rest
  Flushes-returns t ((pe, peer) ∷ peers) h (flush_waiting first) = Flush-returns t peer h first

-- Where UCX answers every request within a number of rounds with completion or with a failure, that
-- number of rounds is enough, on any state of the process, for a put, for a get, for the flush of one
-- peer, and for the flushes of all peers, one after the other: each returns.
pub transfers_return :
    (s : Services) (limit rounds : ℕ)
    → Prompt s limit
    → limit ≤ rounds
    → (pe offset len : ℕ) (bytes : List ℕ) (m : Global)
    → Returns (putmem s rounds pe bytes offset m)
      × Returns (getmem s rounds pe offset len m)
      × Returns (quiet_pe s rounds pe m)
      × Returns (quiet s rounds m)
transfers_return s limit rounds prompt enough pe offset len bytes m = (
  Held-returns
      (λ st h.
        Attempt-returns
          λ peer. put_returns s limit rounds prompt enough bytes st.transport peer _ h)
      (putmem-Puts s rounds pe bytes offset m),
  Held-returns
      (λ st h.
        Attempt-returns λ peer. get_returns s limit rounds prompt enough len st.transport peer _ h)
      (getmem-Gets s rounds pe offset len m),
  Held-returns
      (λ st h flush. elim flush [
        | found peer narrow there rest ↦
            Flush-returns s limit rounds prompt enough st.transport peer h rest
      ])
      (quiet_pe-Found s rounds pe m),
  Held-returns (λ st h. Flushes-returns s limit rounds prompt enough st.transport st.peers h)
      (quiet-Flushes s rounds m),
)
