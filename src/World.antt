-- ===== src/World.antt =====
-- What the crate calls in PMIx and UCX. A run keeps the history of the calls that it has made, newest
-- first; what a call returns is any function of the history before it, so the answers of servers,
-- peers and networks are covered. Handles, requests and raw statuses of the C libraries are numbers.
mod Calls
pub mod Ucc
pub mod Post
pub mod Loop
unfoldable pub use Calls.*
use openshmem_rs.Prelude.{ℕ, String, List, Option, Outcome, Bool}
use openshmem_rs.Error.Convert.{Statuses}
use openshmem_rs.World.Ucc.{CollectiveBuilder}

-- `context::Config::read`, which fails with a status or with a string that holds a NUL.
pub data ConfigRead : Type 0 where
  config : ℕ → ConfigRead
  ucs : ℕ → ConfigRead
  nul : ConfigRead

pub record Pmix : Type 0 where
  -- `PmixClient::connect_new`, `require_rank`, `disconnect`
  pub connect_new : History → Outcome ℕ
  pub require_rank : ℕ → ℕ
  pub disconnect : History → ℕ → Outcome (Unit {0})
  -- `PmixError::from_raw(status).unwrap_or(PmixError::Error)`
  pub from_raw : ℕ → ℕ
  pub proc_with_nspace : ℕ → ℕ → Outcome ℕ
  pub rank_wildcard : ℕ
  -- `PmixValueBuilder`: `byte_object`, `uint64` and `build`
  pub byte_object : List ℕ → Outcome ℕ
  pub uint64_builder : ℕ → ℕ
  pub build : ℕ → Outcome ℕ
  pub put_value : History → String → ℕ → Outcome (Unit {0})
  pub commit : History → Outcome (Unit {0})
  pub fence : History → ℕ → Outcome (Unit {0})
  pub get_value : History → ℕ → String → Outcome ℕ
  -- readings of a value
  pub bytes_copy : ℕ → List ℕ
  pub uint64 : ℕ → ℕ
  pub uint32 : ℕ → ℕ

pub record Ucx : Type 0 where
  pub config_read : ConfigRead
  pub context_new : ℕ → Outcome ℕ
  pub worker_create : ℕ → Outcome ℕ
  pub pack_address : ℕ → Outcome (List ℕ)
  pub mt_worker : ℕ → Outcome ℕ
  pub create_ep : History → ℕ → List ℕ → Outcome ℕ
  pub unpack_rkey : History → ℕ → List ℕ → Outcome ℕ
  -- `worker.wait_request`: whether the request has completed within the binding's budget
  pub wait_request : History → ℕ → ℕ → Outcome Bool
  -- `FetchAmoRequest::check_finished`
  pub check_finished : History → ℕ → Outcome Bool
  pub worker_fence : History → ℕ → Outcome (Unit {0})
  pub flush : History → ℕ → Outcome (Option ℕ)
  -- `rma_put` of bytes and `rma_get` of a length, at an endpoint, an address and a key
  pub rma_put : History → ℕ → List ℕ → ℕ → ℕ → Outcome (Option ℕ)
  pub rma_get : History → ℕ → ℕ → ℕ → ℕ → Outcome (Option ℕ)
  -- the bytes that a get of this endpoint, address and length has stored when it is complete
  pub received : History → ℕ → ℕ → ℕ → ℕ → List ℕ

-- The atomic operations of an endpoint on its operands, an address and a key.
pub record Atomics : Type 0 where
  -- without a result; the request's datatype has the given size
  pub amo : History → Amo → ℕ → List ℕ → ℕ → ℕ → ℕ → Outcome (Option ℕ)
  -- with a reply, whose buffer has an initial value
  pub fetch_amo : History → Amo → ℕ → List ℕ → ℕ → ℕ → ℕ → Outcome ℕ
  -- what a finished request has stored in its reply
  pub replied : History → ℕ → ℕ

-- Teams, contexts and collectives are handles.
pub record Collectives : Type 0 where
  -- `UCC_OK` and `UCC_ERR_NO_MESSAGE`
  pub ucc_ok : ℕ
  pub ucc_err_no_message : ℕ
  pub team_size : ℕ → Outcome ℕ
  pub init : History → CollectiveBuilder → ℕ → Outcome ℕ
  pub post : History → ℕ → Outcome (Unit {0})
  -- the status in the request of a collective
  pub request_status : History → ℕ → ℕ
  pub finalize : History → ℕ → Outcome (Unit {0})
  -- the bytes that a collective has stored in its output buffer
  pub stored : History → ℕ → List ℕ

pub record Services : Type 0 where
  pub statuses : Statuses
  pub pmix : Pmix
  pub ucx : Ucx
