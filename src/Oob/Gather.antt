-- ===== src/Oob/Gather.antt =====
-- What the loop over the peers writes.
use openshmem_rs.Prelude.{
  ℕ, zero, suc, ◌*◌, ◌++◌, ◌≡◌, ◌≤◌, refl, sym, ap, ◌∙◌, ◌∷◌, List, [], some, ◌==◌, length,
  length-append, overwrite, done, Bool-cases, Outcome-cases, inl, inr, arith,
}
use mathlib.Core.Path.{subst}
use mathlib.Core.List.{append_assoc}
use openshmem_rs.World.{Pmix, History, get_value}
use openshmem_rs.Pod.{drop, take-append, drop-append}
use openshmem_rs.Pod.Decode.{length-drop}
use openshmem_rs.Oob.{OobState, oob_key, gather, copy_to}

abbrev pub concat : List (List ℕ) → List ℕ
concat [] = []
concat (part ∷ parts) = part ++ concat parts

overwrite-drop :
    (dst bytes : List ℕ)
    → length bytes ≤ length dst
    → overwrite dst bytes ≡ bytes ++ drop (length bytes) dst
unfolding drop
overwrite-drop [] [] fits = refl
overwrite-drop (d ∷ dst) [] fits = refl
overwrite-drop [] (b ∷ bytes) fits = absurd (omega arith)
overwrite-drop (d ∷ dst) (b ∷ bytes) fits = ap (λ l. b ∷ l) (overwrite-drop dst bytes (omega arith))

module _ (p : Pmix) (st : OobState) (len : ℕ) where
  -- PMIx's answers for the peers from one on: the bytes of each, of the common length, and the calls.
  pub data Fetched : ℕ → History → List (List ℕ) → History → Type 0 where
    nobody : {peer : ℕ} {h : History} → Fetched peer h [] h
    next :
        {peer proc value : ℕ} {h g : History} {parts : List (List ℕ)}
        → p.proc_with_nspace st.client peer ≡ done proc
        → p.get_value h proc oob_key ≡ done value
        → length (p.bytes_copy value) ≡ len
        → Fetched (suc peer) (get_value proc oob_key ∷ h) parts g
        → Fetched peer h (p.bytes_copy value ∷ parts) g

  abbrev pub Wrote : ℕ → ℕ → List ℕ → History → List ℕ × History → Type 0
  Wrote count peer before h (dst, g) =
      (parts : List (List ℕ)) × Fetched peer h parts g
      × (length parts ≡ count)
      × (dst ≡ before ++ concat parts)

  copied :
      (before after bytes : List ℕ) (offset : ℕ)
      → length before ≡ offset
      → length bytes ≤ length after
      → copy_to offset bytes (before ++ after) ≡ (before ++ bytes) ++ drop (length bytes) after
  copied before after bytes offset place fits =
      subst
        (λ n. copy_to n bytes (before ++ after) ≡ (before ++ bytes) ++ drop (length bytes) after)
        place
        (rw (take-append before after, drop-append before after, overwrite-drop after bytes fits)
          (sym (append_assoc before bytes (drop (length bytes) after))))

  pub gather-Wrote :
      (count peer : ℕ) (before after dst : List ℕ) (h g : History)
      → length before ≡ peer * len
      → length after ≡ count * len
      → gather p st len count peer (before ++ after, h) ≡ (some tt, (dst, g))
      → Wrote count peer before h (dst, g)
  unfolding gather
  gather-Wrote zero peer before [] dst h g place room e =
      let same : before ++ [] ≡ dst = ground arith in
      let left : h ≡ g = ground arith in ([], subst (Fetched peer h []) left nobody, refl, sym same)
  gather-Wrote zero peer before (x ∷ after) dst h g place room e = absurd (omega arith)
  gather-Wrote (suc count) peer before after dst h g place room e =
      elim (Outcome-cases (p.proc_with_nspace st.client peer)) [
        | inr (status, refused) ↦ absurd (ground arith)
        | inl (proc, named) ↦ elim (Outcome-cases (p.get_value h proc oob_key)) [
          | inr (status, missing) ↦ absurd (ground arith)
          | inl (value, found) ↦ elim (Bool-cases (length (p.bytes_copy value) == len)) [
            | inr uneven ↦ absurd (ground arith)
            | inl even ↦
                let long : length (p.bytes_copy value) ≡ len = ground arith in
                let run : gather p st len count (suc peer) (
                  copy_to (peer * len) (p.bytes_copy value) (before ++ after),
                  get_value proc oob_key ∷ h,
                )
                    ≡ (some tt, (dst, g)) =
                  ground arith in
                let (parts, fetched, number, whole) =
                  gather-Wrote count (suc peer) (before ++ p.bytes_copy value)
                    (drop (length (p.bytes_copy value)) after) dst (get_value proc oob_key ∷ h) g
                    (omega (arith, length-append before (p.bytes_copy value)))
                    (omega (arith, length-drop (length (p.bytes_copy value)) after (omega arith)))
                    (ap (λ d. gather p st len count (suc peer) (d, get_value proc oob_key ∷ h))
                        (sym (
                          copied before after (p.bytes_copy value) (peer * len) place
                            (omega arith)))
                      ∙ run) in
                (
                  p.bytes_copy value ∷ parts,
                  next named found long fetched,
                  ap suc number,
                  whole ∙ append_assoc before (p.bytes_copy value) (concat parts),
                )
          ]
        ]
      ]
