-- ===== src/Proofs/Burning.antt =====
-- networking/merkleproof.go, `CheckMerkleProof`: a leaf pays once, and the transaction that is paid.
use dexmd.Base.{
  Outcome-cases, ◌≡◌, ◌≢◌, ◌⊎◌, inl, inr, refl, ap, ◌∙◌, List, [], ◌∷◌, none, some, Bool, true,
  false, arith, Bytes, bytes_eq, nat_eq, Bool-cases, Option-cases, ok, Dict, lookup, insert,
}
use dexmd.Base.{lookup-insert, lookup-insert_self}
use dexmd.Proto.{MerkleProof}
use dexmd.External.{External}
use dexmd.Wallet.{bytes_to_address}
use dexmd.Proofs.{Ledger, is_burned, verify_proof, check_merkle_proof}

module _ (x : External) (interests : List Bytes) where
  -- How a check leaves the burned leaves.
  Burns : Ledger → MerkleProof → Type 0
  Burns l mp =
      let (l', result) = check_merkle_proof x interests l mp in
      ((l'.receipt_burned ≡ l.receipt_burned) × (result ≢ ok true))
      ⊎ (l'.receipt_burned ≡ insert mp.leaf true l.receipt_burned)

  check_merkle_proof-Burns : (l : Ledger) (mp : MerkleProof) → Burns l mp
  unfolding Burns check_merkle_proof
  check_merkle_proof-Burns l mp = elim (Bool-cases (is_burned l mp.leaf)) [
    | inl burned ↦ inl (rw burned refl, λ h. ground arith)
    | inr fresh ↦ elim (Outcome-cases (verify_proof x l.roots_db mp mp.shard)) [
      | inr (inl (e, bad)) ↦ inl (rw (fresh, bad) refl, λ h. ground arith)
      | inr (inr bad) ↦ inl (rw (fresh, bad) refl, λ h. ground arith)
      | inl (false, bad) ↦ inl (rw (fresh, bad) refl, λ h. ground arith)
      | inl (true, good) ↦
          elim (Outcome-cases (bytes_to_address x mp.transaction.sender mp.transaction.shard)) [
            | inl (sender, address) ↦ inr (rw (fresh, good, address) refl)
            | inr (inl (e, address)) ↦ inr (rw (fresh, good, address) refl)
            | inr (inr address) ↦ inr (rw (fresh, good, address) refl)
          ]
    ]
  ]

  -- Checks one after the other.
  unfoldable pub run_checks : Ledger → List MerkleProof → Ledger
  run_checks l [] = l
  run_checks l (mp ∷ mps) = run_checks (check_merkle_proof x interests l mp).0 mps

  is_burned-receipts :
      (l : Ledger) (burned : Dict Bytes Bool) (leaf : Bytes)
      → l.receipt_burned ≡ burned
      → lookup leaf burned ≡ some true
      → is_burned l leaf ≡ true
  unfolding is_burned
  is_burned-receipts l burned leaf e h =
      ap (λ d. elim (lookup leaf d) [ none ↦ false | some b ↦ b ]) e ∙ rw h refl

  burned_lookup :
      (l : Ledger) (leaf : Bytes)
      → is_burned l leaf ≡ true
      → lookup leaf l.receipt_burned ≡ some true
  unfolding is_burned
  burned_lookup l leaf h = elim (Option-cases (lookup leaf l.receipt_burned)) [
    | inl missing ↦ absurd (ground arith)
    | inr (b, there) ↦ ground arith
  ]

  is_burned-stays :
      (l : Ledger) (mp : MerkleProof) (leaf : Bytes)
      → is_burned l leaf ≡ true
      → is_burned (check_merkle_proof x interests l mp).0 leaf ≡ true
  unfolding Burns
  is_burned-stays l mp leaf h = elim (check_merkle_proof-Burns l mp) [
    | inl (same, _) ↦
        is_burned-receipts (check_merkle_proof x interests l mp).0 l.receipt_burned leaf same
          (burned_lookup l leaf h)
    | inr grown ↦
        is_burned-receipts (check_merkle_proof x interests l mp).0
          (insert mp.leaf true l.receipt_burned) leaf grown
          (ground (arith, lookup-insert mp.leaf leaf true l.receipt_burned, burned_lookup l leaf h))
  ]

  is_burned-run_checks :
      (l : Ledger) (mps : List MerkleProof) (leaf : Bytes)
      → is_burned l leaf ≡ true
      → is_burned (run_checks l mps) leaf ≡ true
  unfolding run_checks
  is_burned-run_checks l [] leaf h = h
  is_burned-run_checks l (mp ∷ mps) leaf h =
      is_burned-run_checks (check_merkle_proof x interests l mp).0 mps leaf
        (is_burned-stays l mp leaf h)

  is_burned-paid :
      (l : Ledger) (mp : MerkleProof)
      → (check_merkle_proof x interests l mp).1 ≡ ok true
      → is_burned (check_merkle_proof x interests l mp).0 mp.leaf ≡ true
  unfolding Burns
  is_burned-paid l mp h = elim (check_merkle_proof-Burns l mp) [
    | inl (_, unpaid) ↦ absurd (unpaid h)
    | inr grown ↦
        is_burned-receipts (check_merkle_proof x interests l mp).0
          (insert mp.leaf true l.receipt_burned) mp.leaf grown
          (lookup-insert_self mp.leaf true l.receipt_burned)
  ]

  check_merkle_proof-burned :
      (l : Ledger) (mp : MerkleProof)
      → is_burned l mp.leaf ≡ true
      → check_merkle_proof x interests l mp ≡ (l, ok false)
  unfolding check_merkle_proof
  check_merkle_proof-burned l mp burned = rw burned refl

  -- Once `CheckMerkleProof` has returned true for a proof, it returns false for every proof of the same
  -- leaf and changes nothing, whatever other proofs are checked in between.
  pub check_merkle_proof-once :
      (l : Ledger) (mp again : MerkleProof) (between : List MerkleProof)
      → (check_merkle_proof x interests l mp).1 ≡ ok true
      → again.leaf ≡ mp.leaf
      → let l' = run_checks (check_merkle_proof x interests l mp).0 between in
        check_merkle_proof x interests l' again ≡ (l', ok false)
  check_merkle_proof-once l mp again between paid same =
      let l' = run_checks (check_merkle_proof x interests l mp).0 between in
      let burned : is_burned l' again.leaf ≡ true =
        ap (is_burned l') same
        ∙ is_burned-run_checks (check_merkle_proof x interests l mp).0 between mp.leaf
            (is_burned-paid l mp paid) in
      check_merkle_proof-burned l' again burned
