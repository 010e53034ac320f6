-- ===== src/Transport.antt =====
-- src/rma.rs, `UcxTransport`: the context and the worker of one PE.
use openshmem_rs.Prelude.{ℕ, Bool, true, false, not, List, length, ◌==◌}
use openshmem_rs.Error.{internal, Result, ok, err, ◌>>=◌}
use openshmem_rs.Error.Convert.{from_ucx, map_err}
use openshmem_rs.World.{Services, Io, config, ucs, nul, ConfigRead, call, raise, created_ep}

pub record TransportCapabilities : Type 0 where
  pub rma : Bool
  pub loopback : Bool

-- `worker` is the serialized worker, `context` the UCX context that owns it.
pub record UcxTransport : Type 0 where
  pub worker : ℕ
  pub context : ℕ
  pub packed_address : List ℕ
  pub capabilities : TransportCapabilities

module _ (s : Services) where
  unfoldable pub read_config : ConfigRead → Result ℕ
  read_config (config c) = ok c
  read_config (ucs status) = err (from_ucx s.statuses status)
  read_config nul = err (internal "invalid UCX configuration string")

  -- `UcxTransport::new`. The estimated number of endpoints is a hint to UCX.
  unfoldable pub new : Result UcxTransport
  unfolding read_config
  new = do
    c ← read_config s.ucx.config_read
    context ← map_err (from_ucx s.statuses) (s.ucx.context_new c)
    worker ← map_err (from_ucx s.statuses) (s.ucx.worker_create context)
    packed ← map_err (from_ucx s.statuses) (s.ucx.pack_address worker)
    mt ← map_err (from_ucx s.statuses) (s.ucx.mt_worker worker)
    ok (record {
      worker = mt;
      context = context;
      packed_address = packed;
      capabilities = record { rma = true; loopback = not (length packed == 0) };
    })

  unfoldable pub create_endpoint : UcxTransport → List ℕ → Io ℕ
  create_endpoint t address =
      call (created_ep t.worker address) (λ h. s.ucx.create_ep h t.worker address)
        (from_ucx s.statuses)

  unfoldable pub loopback_endpoint : UcxTransport → Io ℕ
  unfolding create_endpoint
  loopback_endpoint t = elim t.capabilities.loopback [
    | true ↦ create_endpoint t t.packed_address
    | false ↦ raise (internal "UCX worker has no loopback address")
  ]
