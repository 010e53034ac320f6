-- ===== src/Oob.antt =====
-- src/coll.rs: the exchange over PMIx that UCC calls while it makes a team. The caller's memory is
-- explicit; a null pointer is `none`.
pub mod Gather
pub mod Exchange
pub mod Tests
use openshmem_rs.Prelude.{
  ℕ, zero, suc, ◌*◌, ◌++◌, ◌∷◌, List, [], Option, none, some, if◌then◌else◌, ◌==◌, length,
  overwrite, Outcome, done, failed, String,
}
use openshmem_rs.Prelude.Int.{ℤ, pos, negsuc}
use openshmem_rs.World.{Pmix, Event, History, put_value, committed, fenced, get_value}
use openshmem_rs.Pod.{take, drop}

abbrev pub oob_key : String
oob_key = "openshmem.ucc.oob"

pub record OobState : Type 0 where
  pub client : ℕ
  pub rank : ℕ
  pub size : ℕ

pub record OobRequest : Type 0 where
  pub status : ℤ

-- Steps with `.ok()?` on what receives and on the calls: what was written before a failure stays.
abbrev pub Attempt : Type 0 → Type 0
Attempt A = List ℕ × History → Option A × (List ℕ × History)

module _ {A B : Type 0} where
  -- Shut, so that a proof about a chain of calls can step through it by rules.
  unfoldable pub go_on :
      Option A × (List ℕ × History) → (A → Attempt B) → Option B × (List ℕ × History)
  go_on (none, m) k = (none, m)
  go_on (some a, m) k = k a m

  infixl 5 ◌>>=◌ ◌>>◌
  abbrev pub ◌>>=◌ : Attempt A → (A → Attempt B) → Attempt B
  ◌>>=◌ a k m = go_on (a m) k

  abbrev pub ◌>>◌ : Attempt A → Attempt B → Attempt B
  a >> b = a >>= λ _. b

module _ {A : Type 0} where
  abbrev pub to_option : Outcome A → Option A
  to_option (done a) = some a
  to_option (failed status) = none

  abbrev pub given : Outcome A → Attempt A
  given o m = (to_option o, m)

  abbrev pub called : Event → (History → Outcome A) → Attempt A
  called event answer (dst, h) = (to_option (answer h), (dst, event ∷ h))

-- `copy_nonoverlapping` of a peer's bytes to its place.
abbrev pub copy_to : ℕ → List ℕ → List ℕ → List ℕ
copy_to offset bytes dst = take offset dst ++ overwrite (drop offset dst) bytes

module _ (p : Pmix) (st : OobState) (len : ℕ) where
  -- The loop over the peers, from one on, for the given number of them.
  unfoldable pub gather : ℕ → ℕ → Attempt (Unit {0})
  gather zero peer m = (some tt, m)
  gather (suc count) peer (dst, h) = elim (p.proc_with_nspace st.client peer) [
    | failed status ↦ (none, (dst, h))
    | done proc ↦ elim (p.get_value h proc oob_key) [
      | failed status ↦ (none, (dst, get_value proc oob_key ∷ h))
      | done value ↦
          let rest =
            gather count (suc peer)
              (copy_to (peer * len) (p.bytes_copy value) dst, get_value proc oob_key ∷ h) in
          if length (p.bytes_copy value) == len
          then rest
          else (none, (dst, get_value proc oob_key ∷ h))
    ]
  ]

  -- The closure of `allgather`, on the bytes to send.
  unfoldable pub attempt : List ℕ → Attempt (Unit {0})
  unfolding gather
  attempt bytes = do
    object ← given (p.byte_object bytes)
    value ← given (p.build object)
    called (put_value oob_key value) (λ h. p.put_value h oob_key value)
    called committed p.commit
    wildcard ← given (p.proc_with_nspace st.client p.rank_wildcard)
    called (fenced wildcard) (λ h. p.fence h wildcard)
    gather st.size 0

-- The memory that the caller passes: where the bytes go, and the place for a request, which is empty
-- or holds one; and the process's calls.
pub record Memory : Type 0 where
  pub dst : Option (List ℕ)
  pub request : Option (Option OobRequest)
  pub history : History

abbrev pub invalid : ℤ
invalid = negsuc 26

abbrev pub failure : ℤ
failure = negsuc 0

-- `map(|_| 0).unwrap_or(-1)`
abbrev pub status_of : Option (Unit {0}) → ℤ
status_of none = failure
status_of (some x) = pos 0

module _ (p : Pmix) where
  abbrev pub finish : Option (Unit {0}) × (List ℕ × History) → ℤ × Memory
  finish (r, (dst, h)) = (
    status_of r,
    record { dst = some dst; request = some (some (record { status = status_of r })); history = h },
  )

  unfoldable pub exchange :
      Option (List ℕ)
      → ℕ
      → Option OobState
      → Option (List ℕ)
      → Option (Option OobRequest)
      → Memory
      → ℤ × Memory
  unfolding attempt
  exchange none len info dst request m = (invalid, m)
  exchange (some src) len none dst request m = (invalid, m)
  exchange (some src) len (some st) none request m = (invalid, m)
  exchange (some src) len (some st) (some dst) none m = (invalid, m)
  exchange (some src) len (some st) (some dst) (some slot) m =
      if len == 0 then (invalid, m) else finish (attempt p st len (take len src) (dst, m.history))

  unfoldable pub allgather : Option (List ℕ) → ℕ → Option OobState → Memory → ℤ × Memory
  unfolding exchange
  allgather src len info m = exchange src len info m.dst m.request m

-- Of a request, or of a null pointer. Freeing one gives it back.
unfoldable pub req_test : Option OobRequest → ℤ
req_test none = invalid
req_test (some request) = request.status

unfoldable pub req_free : Option OobRequest → ℤ × Option OobRequest
req_free none = (invalid, none)
req_free (some request) = (pos 0, none)
