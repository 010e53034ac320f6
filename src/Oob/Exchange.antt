-- ===== src/Oob/Exchange.antt =====
-- What the exchange of all contributions has done when it reports success.
use openshmem_rs.Prelude.{
  ℕ, ◌≡◌, ◌⊎◌, refl, ◌∷◌, List, [], Option, none, some, ◌==◌, done, Bool-cases, inl, inr,
}
use openshmem_rs.Prelude.Int.{pos}
use openshmem_rs.World.{Pmix, History, put_value, committed, fenced}
use openshmem_rs.Oob.{
  OobState, OobRequest, Memory, oob_key, invalid, exchange, allgather, req_test, req_free,
}
use openshmem_rs.Oob.Gather.{Wrote}

-- What holds of the memory and the calls of an attempt that succeeds.
data Succeeds {A : Type 0} (P : List ℕ × History → Type 0)
    : Option A × (List ℕ × History) → Type 0 where
  succeeded : {a : A} {m : List ℕ × History} → P m → Succeeds P (some a, m)
  stopped : {m : List ℕ × History} → Succeeds P (none, m)

module _ (p : Pmix) (st : OobState) (len : ℕ) where
  -- All contributions in rank order, fetched behind the fence of the whole job, behind the commit of
  -- the own one, which is the byte object that PMIx built of `bytes`.
  abbrev pub Exchanged : List ℕ → History → List ℕ × History → Type 0
  Exchanged bytes h m =
      (object value wildcard : ℕ) × (p.byte_object bytes ≡ done object)
      × (p.build object ≡ done value)
      × (p.proc_with_nspace st.client p.rank_wildcard ≡ done wildcard)
      × Wrote p st len st.size 0 [] (fenced wildcard ∷ committed ∷ put_value oob_key value ∷ h) m

  -- What a status of 0 says of the memory: `bytes` were exchanged.
  abbrev pub Delivered : List ℕ → History → Memory → Type 0
  Delivered bytes h m' =
      (all : List ℕ) × Exchanged bytes h (all, m'.history)
      × (m'.dst ≡ some all)
      × (m'.request ≡ some (some (record { status = pos 0 })))

-- A call that returns a status other than the one for a null pointer or no length has stored a request,
-- whose test answers that status, again and again, until it is freed. The others have changed nothing.
pub allgather-req_test :
    (p : Pmix) (src : Option (List ℕ)) (len : ℕ) (info : Option OobState) (m : Memory)
    → let out = allgather p src len info m in
      (((out.0 ≡ invalid) × (out.1 ≡ m))
        ⊎ ((request : OobRequest) × (out.1.request ≡ some (some request))
            × (req_test (some request) ≡ out.0)
            × (req_free (some request) ≡ (pos 0, none))))
unfolding allgather exchange req_test req_free
allgather-req_test p src len info m = go src info m.dst m.request
  where
    go :
        (src : Option (List ℕ)) (info : Option OobState) (dst : Option (List ℕ))
        (slot : Option (Option OobRequest))
        → let out = exchange p src len info dst slot m in
          (((out.0 ≡ invalid) × (out.1 ≡ m))
            ⊎ ((request : OobRequest) × (out.1.request ≡ some (some request))
                × (req_test (some request) ≡ out.0)
                × (req_free (some request) ≡ (pos 0, none))))
    go none info dst slot = inl (refl, refl)
    go (some src) none dst slot = inl (refl, refl)
    go (some src) (some st) none slot = inl (refl, refl)
    go (some src) (some st) (some dst) none = inl (refl, refl)
    go (some src) (some st) (some dst) (some slot) = elim (Bool-cases (len == 0)) [
      | inl empty ↦ rw (empty, exchange) (inl (refl, refl))
      | inr full ↦ rw (full, exchange) (inr (_, refl, refl, refl))
    ]
