-- ===== src/Examples/Finishing.antt =====
-- The example ping_put_get ends: how many rounds and polls are enough.
use mathlib.Core.Path.{subst}
use openshmem_rs.Prelude.{
  ℕ, zero, suc, ◌+◌, ◌<◌, ◌≤◌, ◌≡◌, refl, sym, ◌∙◌, List, ◌∷◌, [], Option, none, some, Bool, true,
  false, inl, inr, arith, Bool-cases, ◌==◌, length, leb,
}
use openshmem_rs.Error.{Result, ok, err, panic}
use openshmem_rs.World.{Services, History}
use openshmem_rs.World.Loop.{map_run, map_run-inv}
use openshmem_rs.Pod.{Endian, u64, bytes_of}
use openshmem_rs.Pod.Decode.{values_of}
use openshmem_rs.Transport.{UcxTransport}
use openshmem_rs.Bootstrap.{PeerConnection}
use openshmem_rs.Init.{Setup}
use openshmem_rs.Init.State.{Global}
use openshmem_rs.Rma.Gets.{Got, getmem_lem}
use openshmem_rs.Rma.Complete.{Prompt}
use openshmem_rs.Rma.Returns.{Returns, transfers_return}
use openshmem_rs.Rma.Roundtrip.{Waiting, nothing_more, one_waited, one_freed, Carried-Waiting}
use openshmem_rs.Rma.Values.{put-putmem, get-getmem}
use openshmem_rs.Rma.Typed.{put, get}
use openshmem_rs.Examples.Program.{Program, and_run}
use openshmem_rs.Examples.PingPutGet.{
  poll, ping, with_buffer, run, main, is_value, value, value_offset, target_pe,
}

and_run-Returns :
    {A B : Type 0} (r : Option (Result A × Global)) (k : A → Program B)
    → Returns r
    → ((a : A) (m : Global) → r ≡ some (ok a, m) → Returns (k a m))
    → Returns (and_run r k)
unfolding and_run
and_run-Returns none k (out, e) next = absurd (ground arith)
and_run-Returns (some (ok a, m)) k ret next = next a m refl
and_run-Returns (some (err e, m)) k ret next = (_, refl)
and_run-Returns (some (panic, m)) k ret next = (_, refl)

Waiting-length : {h g : History} → Waiting h g → length h ≤ length g
Waiting-length nothing_more = omega arith
Waiting-length (one_waited request w) = omega (arith, Waiting-length w)
Waiting-length (one_freed request w) = omega (arith, Waiting-length w)

module _ (s : Services) (order : Endian) (limit rounds : ℕ) (prompt : Prompt s limit)
    (enough : limit ≤ rounds) where
  Got-later :
      (t : UcxTransport) (peer : PeerConnection) (address : ℕ) (h g : History) (bytes : List ℕ)
      → Got s t 8 peer address h bytes g
      → length h < length g
  Got-later t peer address h g bytes (inl (nothing, empty, same)) = absurd (omega arith)
  Got-later t peer address h g bytes (inr (asked, done, read)) =
      omega (arith, Waiting-length (Carried-Waiting s t _ _ h g done))

  get_later :
      (pe offset : ℕ) (values : List ℕ) (m m' : Global)
      → get s order rounds u64 pe offset 1 m ≡ some (ok values, m')
      → length m.value.history < length m'.value.history
  get_later pe offset values m m' e = elim (get-getmem s order u64 rounds pe offset 1 m) [
    | inl (over, fails) ↦ absurd (omega arith)
    | inr (fits, bytewise) ↦
        let (bytes, got, read) = map_run-inv _ _ (sym bytewise ∙ e) in
        let (st, h, g, before, (peer, reached, short, long, stored), left) =
          getmem_lem s rounds pe offset 8 bytes m m' got in
        let more = Got-later st.transport peer _ h g bytes stored in
        subst (λ q. length q.value.history < length m'.value.history) (sym before)
          (subst (λ q. length h < length q.value.history) (sym left) more)
  ]

  map_run-Returns :
      {A B : Type 0} (f : A → B) (r : Option (Result A × Global))
      → Returns r
      → Returns (map_run f r)
  map_run-Returns f none (out, e) = absurd (ground arith)
  map_run-Returns f (some (ok a, m)) ret = (_, refl)
  map_run-Returns f (some (err e, m)) ret = (_, refl)
  map_run-Returns f (some (panic, m)) ret = (_, refl)

  get-Returns : (pe offset : ℕ) (m : Global) → Returns (get s order rounds u64 pe offset 1 m)
  get-Returns pe offset m = elim (get-getmem s order u64 rounds pe offset 1 m) [
    | inl (over, fails) ↦ (_, fails)
    | inr (fits, bytewise) ↦
        let (puts, gets, flush, flushes) =
          transfers_return s limit rounds prompt enough pe offset 8 [] m in
        let (out, e) = map_run-Returns (values_of order u64 1) _ gets in (out, bytewise ∙ e)
  ]

  put-Returns :
      (pe offset : ℕ) (m : Global) → Returns (put s order rounds u64 pe (value ∷ []) offset m)
  put-Returns pe offset m =
      let bytes = bytes_of order u64 (value ∷ []) in
      let (puts, gets, flush, flushes) =
        transfers_return s limit rounds prompt enough pe offset 0 bytes m in
      (puts.0, put-putmem s order u64 rounds pe offset (value ∷ []) m (omega arith) ∙ puts.1)

  module _ (late : History → Bool) (deadline : ℕ)
      (passes : (h : History) → deadline ≤ length h → late h ≡ true) where
    poll-Returns :
        (polls rank offset : ℕ) (m : Global)
        → 0 < polls
        → deadline < polls + length m.value.history
        → Returns (poll s order late rounds polls rank offset m)
    unfolding poll
    poll-Returns zero rank offset m some_poll time = absurd (omega arith)
    poll-Returns (suc polls) rank offset m some_poll time =
        and_run-Returns _ _ (get-Returns rank (offset + value_offset) m) λ values g e.
          elim (Bool-cases (is_value values)) [
            | inl same ↦ rw same (_, refl)
            | inr other ↦ elim (Bool-cases (late g.value.history)) [
              | inl over ↦ rw (other, over) (_, refl)
              | inr early ↦
                  let later = get_later rank (offset + value_offset) values m g e in
                  let before : length g.value.history < deadline = not_yet g.value.history early in
                  rw (other, early) (poll-Returns polls rank offset g (omega arith) (omega arith))
            ]
          ]
      where
        not_yet : (h : History) → late h ≡ false → length h < deadline
        not_yet h early = elim (Bool-cases (leb deadline (length h))) [
          | inl over ↦ let bad = passes h (ground arith) in absurd (ground arith)
          | inr still ↦ ground arith
        ]

    ping-Returns :
        (rank offset : ℕ) (m : Global)
        → Returns (ping s order late rounds (suc deadline) rank offset m)
    unfolding ping
    ping-Returns rank offset m = elim (Bool-cases (rank == 0)) [
      | inl first ↦ rw first (
          and_run-Returns _ _ (put-Returns target_pe (offset + value_offset) m) λ done m1 e1.
            and_run-Returns _ _ (_, refl)
              λ fenced m2 e2. (transfers_return s limit rounds prompt enough target_pe 0 0 [] m2).2)
      | inr other ↦ rw other (poll-Returns (suc deadline) rank offset m (omega arith) (omega arith))
    ]

    with_buffer-Returns :
        (rank : ℕ) (m : Global) → Returns (with_buffer s order late rounds (suc deadline) rank m)
    unfolding with_buffer
    with_buffer-Returns rank m =
        and_run-Returns _ _ (_, refl)
          λ buffer m1 e1.
            and_run-Returns _ _ (_, refl)
              λ base m2 e2.
                and_run-Returns _ _ (_, refl)
                  λ offset m3 e3.
                    and_run-Returns _ _ (ping-Returns rank offset m3) λ done m4 e4. (_, refl)

    run-Returns : (u : Setup) (m : Global) → Returns (run s u order late rounds (suc deadline) m)
    unfolding run
    run-Returns u m =
        and_run-Returns _ _ (_, refl)
          λ started m1 e1.
            and_run-Returns _ _ (_, refl)
              λ rank m2 e2.
                and_run-Returns _ _ (_, refl)
                  λ size m3 e3. elim (Bool-cases (size == 2)) [
                    | inl two ↦ rw two (with_buffer-Returns rank m3)
                    | inr other ↦ rw other (_, refl)
                  ]

-- Where UCX answers every request within a number of rounds with completion or with a failure, and the
-- deadline has passed once a number of calls was made, that number of rounds, and one poll more than that
-- number of calls, are enough: `main` of ping_put_get returns, on any state of the process.
pub main-Returns :
    (s : Services) (u : Setup) (order : Endian) (late : History → Bool) (limit rounds deadline : ℕ)
    → Prompt s limit
    → limit ≤ rounds
    → ((h : History) → deadline ≤ length h → late h ≡ true)
    → (m : Global) → Returns (main s u order late rounds (suc deadline) m)
unfolding main
main-Returns s u order late limit rounds deadline prompt enough passes m =
    let (out, e) = run-Returns s order limit rounds prompt enough late deadline passes u m in
    rw (e, main) (_, refl)
