-- ===== src/Rma/Roundtrip/Tests.antt =====
-- A put, a flush and a get between two PEs, on a UCX that delivers.
use openshmem_rs.Prelude.{ℕ, ◌≡◌, refl, ap, ◌∙◌, List, [], ◌∷◌, some, done, arith}
use openshmem_rs.Prelude.BTree
use openshmem_rs.World.{Services, Ucx, History, waited, freed, flushed, rma_put, rma_get}
use openshmem_rs.World.Loop.{and_loop, then_loop}
use openshmem_rs.Pod.{
  little, u16, pod_as_bytes, to_le_bytes, from_le_bytes, take, drop, decode_chunks, decode_one,
}
use openshmem_rs.Init.State.{unlocked}
use openshmem_rs.Init.Locked.{with_state_loop}
use openshmem_rs.Bootstrap.Tests as Two
use openshmem_rs.Rma.Tests.{running}
use openshmem_rs.Rma.{putmem, getmem, quiet_pe}
use openshmem_rs.Rma.Typed.{put, get}
use openshmem_rs.Rma.Roundtrip.{
  Waiting, nothing_more, one_waited, one_freed, Delivers, Carried-Waiting, get-put,
}

-- The calls before the last waits.
unfoldable skip : History → History
skip (waited request ∷ h) = skip h
skip (freed request ∷ h) = skip h
skip h = h

unfoldable before_get : History → History
unfolding skip
before_get (rma_get ep len address key ∷ h) = skip h
before_get h = []

unfoldable before_flush : History → History
unfolding skip
before_flush (flushed ep ∷ h) = skip h
before_flush h = []

unfoldable bytes_put : History → List ℕ
bytes_put (rma_put ep bytes address key ∷ h) = bytes
bytes_put h = []

-- What the put before the last flush and the last get has put.
unfoldable stored : History → List ℕ
unfolding before_get before_flush bytes_put
stored h = bytes_put (before_flush (before_get (skip h)))

skip-Waiting : {h g : History} → Waiting h g → skip g ≡ skip h
unfolding skip
skip-Waiting nothing_more = refl
skip-Waiting (one_waited request w) = skip-Waiting w
skip-Waiting (one_freed request w) = skip-Waiting w

abbrev delivering : Ucx
delivering = record Two.loopback {
  rma_put = λ h ep bytes address key. done (some 5);
  rma_get = λ h ep len address key. done (some 6);
  flush = λ h ep. done (some 7);
  received = λ h ep address len key. stored h;
}

abbrev services : Services
services = record Two.services { ucx = delivering }

services-Delivers : Delivers services
unfolding stored before_get before_flush bytes_put skip
services-Delivers t ep address key bytes h f g k put flush get =
    ap (λ l. bytes_put (before_flush (before_get l)))
      (skip-Waiting (Carried-Waiting services t _ _ g k get))
    ∙ ap (λ l. bytes_put (before_flush l)) (skip-Waiting (Carried-Waiting services t _ _ f g flush))
    ∙ ap bytes_put (skip-Waiting (Carried-Waiting services t _ _ h f put))

abbrev put_history : History
put_history = freed 5 ∷ waited 5 ∷ rma_put 10 (1 ∷ 2 ∷ []) 8208 20 ∷ []

abbrev flush_history : History
flush_history = freed 7 ∷ waited 7 ∷ flushed 10 ∷ put_history

abbrev get_history : History
get_history = freed 6 ∷ waited 6 ∷ rma_get 10 2 8208 20 ∷ flush_history

get-put_example : ◌≡◌ {A = List ℕ} (513 ∷ []) (513 ∷ [])
unfolding put get getmem putmem quiet_pe pod_as_bytes to_le_bytes from_le_bytes take drop
    decode_chunks decode_one and_loop then_loop with_state_loop BTree.get stored before_get
    before_flush bytes_put skip
get-put_example =
    get-put services little u16 3 1 16 (513 ∷ []) (513 ∷ []) (unlocked (some running) [])
      (unlocked (some running) put_history) (unlocked (some running) flush_history)
      (unlocked (some running) get_history) services-Delivers (omega arith, tt) refl refl refl
