-- ===== src/Examples/Started.antt =====
-- Programs that have come through `init`, `my_pe` and `n_pes`.
use mathlib.Core.Path.{subst}
use openshmem_rs.Prelude.{◌≡◌, refl, ap, ◌∙◌, Option, none, some, arith}
use openshmem_rs.Error.{Result, ok, err, panic, Exec}
use openshmem_rs.Lock.{after}
use openshmem_rs.World.{Services, History}
use openshmem_rs.SymHeap.Create.{IsVector}
use openshmem_rs.Init.{Setup, init}
use openshmem_rs.Init.State.{ShmemState, Process, Global, unlocked}
use openshmem_rs.Init.Start.{IsReady, Started, ready, refused, undone, crashed}
use openshmem_rs.Init.Lifecycle.{Initialised, init_lem, locked_out, again, starting}
use openshmem_rs.Examples.Program.{Program, and_run}

-- A program that returns has come through its first part.
pub and_run-inv :
    {A B : Type 0} (r : Option (Result A × Global)) (k : A → Program B) {b : B} {m' : Global}
    → and_run r k ≡ some (ok b, m')
    → (a : A) × (m : Global) × (r ≡ some (ok a, m)) × (k a m ≡ some (ok b, m'))
unfolding and_run
and_run-inv none k e = absurd (ground arith)
and_run-inv (some (ok a, m)) k e = (a, m, refl, e)
and_run-inv (some (err x, m)) k e = absurd (ground arith)
and_run-inv (some (panic, m)) k e = absurd (ground arith)

-- A part of which it is known what it returns.
pub known_step :
    {A B : Type 0} (f : Exec Global A) (k : A → Program B) {m known left : Global} {a : A} {b : B}
    {m' : Global}
    → m ≡ known
    → f known ≡ (ok a, left)
    → and_run (some (f m)) k ≡ some (ok b, m')
    → k a left ≡ some (ok b, m')
unfolding and_run
known_step f k {b = b} {m' = m'} at returns e =
    subst (λ r. and_run (some r) k ≡ some (ok b, m')) (ap f at ∙ returns) e

module _ (s : Services) (u : Setup) where
  -- The state that is left is ready.
  abbrev pub Begun : Global → Type 0
  Begun m = (st : ShmemState) × (g : History) × IsReady s u st × (m ≡ unlocked (some st) g)

  Started-Begun :
      {h : History} (r : Result (Unit {0}) × Process) {m' : Global}
      → Started s u h r
      → after r ≡ (ok tt, m')
      → Begun m'
  Started-Begun r (ready {st = st} {g = g} x p) e = (st, g, p, ground arith)
  Started-Begun r (refused x) e = absurd (ground arith)
  Started-Begun r (undone x) e = absurd (ground arith)
  Started-Begun r (crashed x) e = absurd (ground arith)

  Initialised-Begun :
      {m m' : Global} {out : Result (Unit {0}) × Global}
      → Initialised s u m out
      → out ≡ (ok tt, m')
      → Begun m'
  Initialised-Begun (locked_out p) e = let same = p.1 in absurd (ground arith)
  Initialised-Begun again e = absurd (ground arith)
  Initialised-Begun (starting {r = r} p) e = Started-Begun r p e

  pub init-Begun : (m m' : Global) → IsVector u.registration → init s u m ≡ (ok tt, m') → Begun m'
  init-Begun m m' vec e = Initialised-Begun (init_lem s u m vec) e
