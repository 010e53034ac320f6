-- ===== src/Error/Display.antt =====
-- `Display` of the crate's error.
use Prim.Native.String.{String, ◌++◌}
use openshmem_rs.Prelude.{ℕ}
use openshmem_rs.Error.Defs.{
  Error, pmix, ucx, ucc, usage, internal, not_initialized, already_initialized,
}

-- The texts that the bindings have for a status, and a UCC status's raw code in decimal.
pub record Texts : Type 0 where
  pub pmix_text : ℕ → String
  pub ucx_text : ℕ → String
  pub ucc_text : ℕ → String
  pub raw_code : ℕ → String

unfoldable pub display : Texts → Error → String
display t (pmix error) = "pmix error: " ++ t.pmix_text error
display t (ucx status) = "ucx error: " ++ t.ucx_text status
display t (ucc error) = "ucc error: " ++ t.ucc_text error ++ " (code " ++ t.raw_code error ++ ")"
display t (usage message) = "usage error: " ++ message
display t not_initialized = "openshmem not initialized"
display t already_initialized = "openshmem already initialized"
display t (internal message) = "internal error: " ++ message
