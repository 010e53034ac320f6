-- ===== src/Init/State.antt =====
-- The process-global state, and the calls that are made under its lock.
use openshmem_rs.Prelude.{ℕ, List, Option, none, some, false}
use openshmem_rs.Error.{Error, internal, not_initialized, err, Exec}
use openshmem_rs.Lock.{Mutex, with_lock}
use openshmem_rs.World.{History, Io}
use openshmem_rs.SymHeap.{SymHeap}
use openshmem_rs.SymHeap.PeerRkeys.{PeerRkeys}
use openshmem_rs.Transport.{UcxTransport}
use openshmem_rs.Bootstrap.{PeerConnection}

-- `coll::Runtime`, by the handles of the UCC team and context.
pub record Runtime : Type 0 where
  pub team : ℕ
  pub context : ℕ

-- `ShmemState`. `collectives` is there with the feature `collectives`.
pub record ShmemState : Type 0 where
  pub peers : List (ℕ × PeerConnection)
  pub heap : SymHeap
  pub transport : UcxTransport
  pub collectives : Option Runtime
  pub client : ℕ
  pub rank : ℕ
  pub size : ℕ
  pub peer_rkeys : PeerRkeys

-- What `STATE` guards, and the calls that the process has made so far.
pub record Process : Type 0 where
  pub state : Option ShmemState
  pub history : History

abbrev pub Global : Type 0
Global = Mutex Process

-- The process-global state under a lock that is free.
abbrev pub unlocked : Option ShmemState → History → Global
unlocked state h = record { poisoned = false; value = record { state = state; history = h } }

abbrev pub poisoned_state : Error
poisoned_state = internal "lifecycle state lock poisoned"

module _ {T : Type 0} where
  -- `lock_state()?` and then the rest of the function, under the lock.
  unfoldable pub lock_state : Exec Process T → Exec Global T
  lock_state = with_lock poisoned_state

  -- The operation of `with_state` reads the state and makes calls.
  unfoldable pub reading : (ShmemState → Io T) → Option ShmemState → Exec Process T
  reading operation none p = (err not_initialized, p)
  reading operation (some st) p =
      let (r, h) = operation st p.history in (r, record p { history = h })

  unfoldable pub with_state : (ShmemState → Io T) → Exec Global T
  unfolding reading
  with_state operation = lock_state λ p. reading operation p.state p

  -- The operation of `with_state_mut` changes the state.
  unfoldable pub changing : Exec ShmemState T → Option ShmemState → Exec Process T
  changing operation none p = (err not_initialized, p)
  changing operation (some st) p = let (r, st') = operation st in (r, record p { state = some st' })

  unfoldable pub with_state_mut : Exec ShmemState T → Exec Global T
  unfolding changing
  with_state_mut operation = lock_state λ p. changing operation p.state p
