-- ===== src/Rma/Typed.antt =====
-- The typed transfers of src/rma.rs.
use openshmem_rs.Prelude.{ℕ, List, Option, none, some, length, ◌/◌, checked_mul}
use openshmem_rs.Error.{usage, Result, ok, err, panic, ◌>>=◌}
use openshmem_rs.Pod.{Endian, Scalar, size_of, pod_as_bytes, decode_chunks}
use openshmem_rs.World.{Services}
use openshmem_rs.Init.State.{Global}
use openshmem_rs.Rma.{putmem, getmem}

module _ (s : Services) (order : Endian) where
  unfoldable pub put : ℕ → Scalar → ℕ → List ℕ → ℕ → Global → Option (Result (Unit {0}) × Global)
  unfolding pod_as_bytes putmem
  put rounds ty pe src offset m = elim (pod_as_bytes order ty src) [
    | ok bytes ↦ putmem s rounds pe bytes offset m
    | err e ↦ some (err e, m)
    | panic ↦ some (panic, m)
  ]

  -- The values of the whole chunks of the bytes that `getmem` has returned.
  abbrev decoded : Scalar → Result (List ℕ) × Global → Result (List ℕ) × Global
  decoded ty (r, m) = (r >>= λ bytes. decode_chunks order ty (length bytes / size_of ty) bytes, m)

  unfoldable pub get : ℕ → Scalar → ℕ → ℕ → ℕ → Global → Option (Result (List ℕ) × Global)
  unfolding getmem
  get rounds ty pe offset len_elems m = elim (checked_mul len_elems (size_of ty)) [
    | none ↦ some (err (usage "typed RMA length overflow"), m)
    | some len ↦ elim (getmem s rounds pe offset len m) [
      | none ↦ none
      | some out ↦ some (decoded ty out)
    ]
  ]
