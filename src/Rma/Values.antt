-- ===== src/Rma/Values.antt =====
-- The typed transfers by those of bytes.
use openshmem_rs.Prelude.{
  ℕ, ◌*◌, ◌/◌, ◌<◌, ◌≤◌, ◌≡◌, ◌⊎◌, refl, ap, List, Option, none, some, true, inl, inr, arith,
  Bool-cases, length, ltb, usize_mod,
}
use openshmem_rs.Error.{usage, Result, ok, err, panic, ◌>>=◌}
use openshmem_rs.World.{Services}
use openshmem_rs.World.Loop.{map_run}
use openshmem_rs.Pod.{Endian, Scalar, size_of, bytes_of, pod_as_bytes, decode_chunks}
use openshmem_rs.Pod.Collective.{decode_all}
use openshmem_rs.Pod.Decode.{values_of, decode_all-total}
use openshmem_rs.Init.State.{Global}
use openshmem_rs.Rma.{putmem, getmem}
use openshmem_rs.Rma.Gets.{getmem_lem}
use openshmem_rs.Rma.Typed.{put, get}

module _ (s : Services) (order : Endian) (ty : Scalar) where
  -- A slice whose bytes are fewer than 2^64, as those of every slice are, is put as its bytes.
  pub put-putmem :
      (rounds pe offset : ℕ) (values : List ℕ) (m : Global)
      → length values * size_of ty < usize_mod
      → put s order rounds ty pe values offset m
        ≡ putmem s rounds pe (bytes_of order ty values) offset m
  unfolding put pod_as_bytes
  put-putmem rounds pe offset values m small =
      let fit : ltb (length values * size_of ty) usize_mod ≡ true = ground arith in
      rw (fit, put, pod_as_bytes)

  module _ (rounds pe offset count : ℕ) (m : Global) where
    got :
        (r : Option (Result (List ℕ) × Global))
        → getmem s rounds pe offset (count * size_of ty) m ≡ r
        → elim r [
          | none ↦ none
          | some out ↦
              some (
                out.0 >>= (λ bytes. decode_chunks order ty (length bytes / size_of ty) bytes),
                out.1,
              )
        ]
          ≡ map_run (values_of order ty count) r
    unfolding decode_all
    got none e = refl
    got (some (ok bytes, m')) e =
        let (st, h, g, before, (peer, reached, short, long, rest), left) =
          getmem_lem s rounds pe offset (count * size_of ty) bytes m m' e in
        ap (λ r. some (r, m')) (decode_all-total order ty count bytes long)
    got (some (err x, m')) e = refl
    got (some (panic, m')) e = refl

    -- A typed get of values whose bytes are 2^64 or more is an error that calls nothing. Another is the
    -- get of their bytes: it fails, panics or waits where that does, and where that returns bytes, it
    -- returns the values of the bytes, as many as were asked for. So it never fails to decode.
    pub get-getmem :
        ((usize_mod ≤ count * size_of ty)
          × (get s order rounds ty pe offset count m
              ≡ some (err (usage "typed RMA length overflow"), m)))
        ⊎ ((count * size_of ty < usize_mod)
            × (get s order rounds ty pe offset count m
                ≡ map_run
                    (values_of order ty count)
                    (getmem s rounds pe offset (count * size_of ty) m)))
    unfolding get
    get-getmem = elim (Bool-cases (ltb (count * size_of ty) usize_mod)) [
      | inl fit ↦ inr (
        ground arith,
        rw (fit, get) (got (getmem s rounds pe offset (count * size_of ty) m) refl),
      )
      | inr over ↦ inl (ground arith, rw (over, get))
    ]
