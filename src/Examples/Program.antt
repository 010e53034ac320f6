-- ===== src/Examples/Program.antt =====
-- Programs: calls of the library's functions on the process-global state, one after the other.
use openshmem_rs.Prelude.{Option, none, some}
use openshmem_rs.Error.{Result, ok, err, panic, Exec}
use openshmem_rs.Init.State.{Global}

-- `none`: a loop in the program has run out of its rounds.
abbrev pub Program : Type 0 → Type 0
Program A = Global → Option (Result A × Global)

abbrev pub plain : {A : Type 0} → Exec Global A → Program A
plain f m = some (f m)

abbrev pub settled : {A : Type 0} → Result A → Program A
settled r m = some (r, m)

module _ {A B : Type 0} where
  -- `?`, and then the rest of the program.
  unfoldable pub and_run : Option (Result A × Global) → (A → Program B) → Option (Result B × Global)
  and_run none k = none
  and_run (some (ok a, m)) k = k a m
  and_run (some (err e, m)) k = some (err e, m)
  and_run (some (panic, m)) k = some (panic, m)

  infixl 5 ◌>>=◌ ◌>>◌
  abbrev pub ◌>>=◌ : Program A → (A → Program B) → Program B
  ◌>>=◌ p k m = and_run (p m) k

  abbrev pub ◌>>◌ : Program A → Program B → Program B
  p >> k = p >>= λ _. k
