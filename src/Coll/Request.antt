-- ===== src/Coll/Request.antt =====
-- `CollectiveRequest` of src/coll.rs: a posted collective that is polled. Polling happens outside the
-- lock; the caller's slice is borrowed by the request, and stands in it.
use openshmem_rs.Prelude.{
  ℕ, zero, suc, List, [], ◌∷◌, Option, none, some, Bool, true, false, if◌then◌else◌, ◌==◌, length,
  get_elem?, overwrite, done, failed,
}
use openshmem_rs.Error.{usage, internal, Result, ok, err, panic, Exec}
use openshmem_rs.World.{Collectives, History, collective_finalized, ucc_progressed}
use openshmem_rs.Pod.{Endian, Scalar, decode}
use openshmem_rs.Init.{map_ucc}
use openshmem_rs.Init.State.{Runtime}
use openshmem_rs.Pod.Collective.{decode_all}

-- `Destination`: the slice, with the type that `decode_to` reads the bytes at.
pub record Destination : Type 0 where
  pub ty : Scalar
  pub values : List ℕ

pub record CollectiveRequest : Type 0 where
  pub op : Option ℕ
  pub context : ℕ
  pub buffers : List (List ℕ)
  pub destination : Option Destination
  pub result_index : Option ℕ

unfoldable pub new : Runtime × ℕ → List (List ℕ) → Option Destination → Option ℕ → CollectiveRequest
new (rt, op) buffers destination result_index = record {
  op = some op;
  context = rt.context;
  buffers = buffers;
  destination = destination;
  result_index = result_index;
}

-- `buffers.last()`, and UCC's write to that buffer.
abbrev pub last : List (List ℕ) → Option (List ℕ)
last [] = none
last (b ∷ []) = some b
last (b ∷ c ∷ bs) = last (c ∷ bs)

abbrev pub store_last : List ℕ → List (List ℕ) → List (List ℕ)
store_last bytes [] = []
store_last bytes (b ∷ []) = overwrite b bytes ∷ []
store_last bytes (b ∷ c ∷ bs) = b ∷ store_last bytes (c ∷ bs)

abbrev pub Polled : Type 0 → Type 0
Polled A = Exec (CollectiveRequest × History) A

module _ (order : Endian) where
  -- `decode_to`
  abbrev pub renewed : Destination → Result (List ℕ) → Result Destination
  renewed d (ok values) = ok (record d { values = values })
  renewed d (err e) = err e
  renewed d panic = panic

  unfoldable pub decode_to : List ℕ → Destination → Result Destination
  decode_to bytes d = renewed d (decode order d.ty (length d.values) bytes)

  abbrev pub written : Result Destination → Polled Bool
  written (ok d) (request, h) = (ok true, (record request { destination = some d }, h))
  written (err e) r = (err e, r)
  written panic r = (panic, r)

  -- The last buffer is read into the destination, if there is one.
  abbrev pub read_last : Destination → Option (List ℕ) → Polled Bool
  read_last d none r = (err (internal "missing collective buffer"), r)
  read_last d (some bytes) r = written (decode_to bytes d) r

  unfoldable pub copy_back : Option Destination → Polled Bool
  unfolding decode_to
  copy_back none r = (ok true, r)
  copy_back (some d) r = read_last d (last r.0.buffers) r

module _ (u : Collectives) (order : Endian) where
  -- The operation has ended, and is taken from the request.
  unfoldable pub finish : ℕ → Polled Bool
  unfolding copy_back
  finish op (request, h) =
      let taken = record request {
        op = none;
        buffers = store_last (u.stored (collective_finalized op ∷ h) op) request.buffers;
      } in
      elim (u.finalize h op) [
        | failed status ↦ (err (map_ucc status), (taken, collective_finalized op ∷ h))
        | done _ ↦ copy_back order request.destination (taken, collective_finalized op ∷ h)
      ]

  unfoldable pub test_op : Option ℕ → Polled Bool
  unfolding finish
  test_op none r = (ok true, r)
  test_op (some op) (request, h) =
      if u.request_status h op == u.ucc_err_no_message
      then (ok false, (request, ucc_progressed request.context ∷ h))
      else if u.request_status h op == u.ucc_ok
      then finish op (request, h)
      else (err (map_ucc (u.request_status h op)), (request, h))

  unfoldable pub test : Polled Bool
  unfolding test_op
  test (request, h) = test_op request.op (request, h)

  -- The method `wait`, on rounds: polls until one does not return `false`.
  abbrev pub poll_again :
      (CollectiveRequest × History → Option (Result (Unit {0}) × (CollectiveRequest × History)))
      → Result Bool × (CollectiveRequest × History)
      → Option (Result (Unit {0}) × (CollectiveRequest × History))
  poll_again again (ok true, r) = some (ok tt, r)
  poll_again again (ok false, r) = again r
  poll_again again (err e, r) = some (err e, r)
  poll_again again (panic, r) = some (panic, r)

  unfoldable pub wait :
      ℕ → CollectiveRequest × History → Option (Result (Unit {0}) × (CollectiveRequest × History))
  unfolding test
  wait zero r = none
  wait (suc rounds) r = poll_again (wait rounds) (test r)

-- `result`, whose index panics out of range.
unfoldable pub result : Endian → Scalar → CollectiveRequest → Result (List ℕ)
unfolding decode_all
result order ty request = elim request.op [
  | some op ↦ err (usage "collective request is not complete")
  | none ↦ elim request.result_index [
    | none ↦ err (usage "request has no collected result")
    | some index ↦ elim (get_elem? request.buffers index) [
      | none ↦ panic
      | some bytes ↦ decode_all order ty bytes
    ]
  ]
]
