-- ===== src/Error/Convert.antt =====
-- `From<PmixError>`, `From<Status>`, `From<UccError>`: a status that reports success is no error.
use openshmem_rs.Prelude.{ℕ, Bool, if◌then◌else◌, Outcome, done, failed}
use openshmem_rs.Error.Defs.{Error, pmix, ucx, ucc, internal, Result, ok, err}

-- The bindings' tests on raw statuses.
pub record Statuses : Type 0 where
  -- `PmixError::Success`
  pub pmix_success : ℕ → Bool
  -- `ucs_status_t::is_err`
  pub ucx_is_err : ℕ → Bool
  -- `UccError::is_error`
  pub ucc_is_error : ℕ → Bool

module _ (s : Statuses) where
  unfoldable pub from_pmix : ℕ → Error
  from_pmix error =
      if s.pmix_success error
      then internal "PMIx success was returned where an error was expected"
      else pmix error

  unfoldable pub from_ucx : ℕ → Error
  from_ucx status =
      if s.ucx_is_err status
      then ucx status
      else internal "UCX success was returned where an error was expected"

  unfoldable pub from_ucc : ℕ → Error
  from_ucc error =
      if s.ucc_is_error error
      then ucc error
      else internal "UCC informational status was returned where an error was expected"

module _ {ℓ} {A : Type ℓ} where
  -- `map_err(convert)` on the outcome of a binding's call.
  abbrev pub map_err : (ℕ → Error) → Outcome A → Result A
  map_err convert (done a) = ok a
  map_err convert (failed status) = err (convert status)
