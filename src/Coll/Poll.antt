-- ===== src/Coll/Poll.antt =====
-- Polling a request: what each test keeps, and what an error of the last one loses.
use mathlib.Core.Path.{subst}
use openshmem_rs.Prelude.{
  ℕ, suc, ◌*◌, ◌<◌, ◌≡◌, ◌≢◌, refl, ap, ◌∙◌, sym, ◌∷◌, [], List, Option, none, some, Bool, true,
  false, ◌==◌, arith, length, overwrite, length-overwrite, Bool-cases, Outcome-cases, failed, inl,
  inr, usize_mod,
}
use openshmem_rs.Error.{ucc, Result, ok, err}
use openshmem_rs.World.{Collectives, History, collective_finalized}
use openshmem_rs.Pod.{Endian, size_of}
use openshmem_rs.Pod.Decode.{length-values_of, decode-total}
use openshmem_rs.Coll.Request
use openshmem_rs.Coll.Request.{
  CollectiveRequest, Destination, copy_back, decode_to, renewed, read_last, last, store_last,
  finish, test, test_op,
}

-- The last buffer holds just the bytes of the destination's values.
abbrev pub Holds : List (List ℕ) → Option Destination → Type 0
Holds buffers none = Unit {0}
Holds buffers (some d) =
    (bytes : List ℕ) × (last buffers ≡ some bytes)
    × (length bytes ≡ length d.values * size_of d.ty)
    × (length d.values * size_of d.ty < usize_mod)

abbrev pub IsFit : CollectiveRequest → Type 0
IsFit request = Holds request.buffers request.destination

-- An answer of a test that is no error of the request itself.
pub data Answers : Result Bool → Type 0 where
  polled : {b : Bool} → Answers (ok b)
  reported : {status : ℕ} → Answers (err (ucc status))

last-store_last :
    (stored bytes : List ℕ) (buffers : List (List ℕ))
    → last buffers ≡ some bytes
    → last (store_last stored buffers) ≡ some (overwrite bytes stored)
last-store_last stored bytes [] e = absurd (ground arith)
last-store_last stored bytes (b ∷ []) e =
    let same : b ≡ bytes = ground arith in ap (λ x. some (overwrite x stored)) same
last-store_last stored bytes (b ∷ c ∷ []) e = last-store_last stored bytes (c ∷ []) e
last-store_last stored bytes (b ∷ c ∷ d ∷ bs) e = last-store_last stored bytes (c ∷ d ∷ bs) e

Holds-store_last :
    (stored : List ℕ) (buffers : List (List ℕ)) (d : Option Destination)
    → Holds buffers d
    → Holds (store_last stored buffers) d
Holds-store_last stored buffers none fit = tt
Holds-store_last stored buffers (some d) (bytes, found, long, small) = (
  overwrite bytes stored,
  last-store_last stored bytes buffers found,
  length-overwrite bytes stored ∙ long,
  small,
)

module _ (u : Collectives) (order : Endian) where
  copy_back-IsFit :
      (d : Option Destination) (request : CollectiveRequest) (h : History)
      → request.destination ≡ d
      → Holds request.buffers d
      → Answers (copy_back order d (request, h)).0 × IsFit (copy_back order d (request, h)).1.0
  unfolding copy_back decode_to
  copy_back-IsFit none request h e fit = (polled, subst (Holds request.buffers) (sym e) fit)
  copy_back-IsFit (some d) request h e (bytes, found, long, small) =
      let decoded = decode-total order d.ty (length d.values) bytes long small in
      let count = length-values_of order d.ty (length d.values) bytes in
      rw (found, decoded) (polled, (bytes, found, rw count long, rw count small))

  finish-IsFit :
      (op : ℕ) (request : CollectiveRequest) (h : History)
      → IsFit request
      → Answers (finish u order op (request, h)).0 × IsFit (finish u order op (request, h)).1.0
  unfolding finish
  finish-IsFit op request h fit =
      let left =
        Holds-store_last (u.stored (collective_finalized op ∷ h) op) request.buffers
          request.destination fit in
      elim (Outcome-cases (u.finalize h op)) [
        | inl (x, good) ↦ rw (finish, good) (copy_back-IsFit request.destination _ _ refl left)
        | inr (code, bad) ↦ rw (finish, bad) (reported, left)
      ]

  -- A test of a request whose last buffer holds just the bytes of its destination keeps it so. It
  -- returns a value, or an error with a status of UCC: never one of the request's own, nor a panic.
  pub test-IsFit :
      (request : CollectiveRequest) (h : History)
      → IsFit request
      → Answers (test u order (request, h)).0 × IsFit (test u order (request, h)).1.0
  unfolding test test_op
  test-IsFit request h fit = go request.op
    where
      go :
          (op : Option ℕ)
          → Answers (test_op u order op (request, h)).0
            × IsFit (test_op u order op (request, h)).1.0
      go none = (polled, fit)
      go (some op) = elim (Bool-cases (u.request_status h op == u.ucc_err_no_message)) [
        | inl message ↦ rw (message, test_op) (polled, fit)
        | inr quiet ↦ elim (Bool-cases (u.request_status h op == u.ucc_ok)) [
          | inl over ↦ rw (quiet, over, test_op) (finish-IsFit op request h fit)
          | inr bad ↦ rw (quiet, bad, test_op) (reported, fit)
        ]
      ]

  -- Where the status is that of success and the operation's end fails: the test returns that error.
  -- After it each test and each wait of the request succeeds, makes no call, and leaves the destination
  -- as it was before the operation.
  pub test-after_error :
      (rounds op code : ℕ) (request : CollectiveRequest) (h : History)
      → u.ucc_ok ≢ u.ucc_err_no_message
      → request.op ≡ some op
      → u.request_status h op ≡ u.ucc_ok
      → u.finalize h op ≡ failed code
      → let out = test u order (request, h) in
        (out.0 ≡ err (ucc code))
        × (out.1.1 ≡ collective_finalized op ∷ h)
        × (out.1.0.destination ≡ request.destination)
        × (test u order out.1 ≡ (ok true, out.1))
        × (Request.wait u order (suc rounds) out.1 ≡ some (ok tt, out.1))
  unfolding test test_op finish Request.wait
  test-after_error rounds op code request h apart held over bad =
      let quiet : (u.request_status h op == u.ucc_err_no_message) ≡ false = ground arith in
      let success : (u.request_status h op == u.ucc_ok) ≡ true = ground arith in
      rw (held, test_op, quiet, success, finish, bad) (refl, refl, refl, refl, refl)
