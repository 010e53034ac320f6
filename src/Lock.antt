-- ===== src/Lock.antt =====
-- `std::sync::Mutex`, as the crate uses it: a panic under the lock poisons it, and a poisoned lock is
-- an error.
use openshmem_rs.Prelude.{Bool, true, false}
use openshmem_rs.Error.{Error, Result, err, panic, Exec}

pub record Mutex {ℓ} (A : Type ℓ) : Type ℓ where
  pub poisoned : Bool
  pub value : A

module _ {ℓ κ} {A : Type ℓ} {B : Type κ} where
  -- What the guard leaves behind when it is dropped.
  abbrev pub after : Result B × A → Result B × Mutex A
  after (panic, a) = (panic, record { poisoned = true; value = a })
  after (r, a) = (r, record { poisoned = false; value = a })

  -- `lock().map_err(|_| e)?` and then a method on the value.
  unfoldable pub with_lock : Error → Exec A B → Exec (Mutex A) B
  with_lock e method m = elim m.poisoned [ true ↦ (err e, m) | false ↦ after (method m.value) ]
