-- ===== src/Proofs/Collisions.antt =====
-- networking/merkleproof.go: what an accepted Merkle proof says of the receipt in it.
use dexmd.Base.{
  Outcome-cases, ℕ, ◌≡◌, ◌≢◌, ◌⊎◌, inl, inr, sym, ap, ◌∙◌, List, [], ◌∷◌, ◌++◌, some, true, arith,
  Bytes, bytes_eq, nat_eq, ◌==◌, Bool-cases, Option-cases, length, ok, Dict, lookup,
}
use dexmd.Base.{take, drop, take-append, drop-append, length-append, bytes_beq_iff}
use dexmd.Proto.{MerkleProof}
use dexmd.External.{External, Db}
use dexmd.Proofs.{step_hash, verify_merkle_proof, map_proof, root_found, verify_proof}
use dexmd.Text.{text}

append-cancel_left : (s a b : Bytes) → s ++ a ≡ s ++ b → a ≡ b
append-cancel_left s a b e = sym (drop-append s a) ∙ (ap (drop (length s)) e ∙ drop-append s b)

append-cancel_right : (a b s : Bytes) → a ++ s ≡ b ++ s → a ≡ b
append-cancel_right a b s e =
    let same : length a ≡ length b =
      omega (arith, length-append a s, length-append b s, ap (λ l. length l) e) in
    sym (take-append a s)
    ∙ (ap (take (length a)) e ∙ (ap (λ n. take n (b ++ s)) same ∙ take-append b s))

-- Two byte strings that SHA-256 does not tell apart.
pub record Collision (x : External) : Type 0 where
  pub one : Bytes
  pub other : Bytes
  pub differ : one ≢ other
  pub same_hash : x.sha256 one ≡ x.sha256 other

module _ (x : External) where
  -- One step up from two different values meets only in a collision.
  step_hash-differ :
      (side sibling a b m n : Bytes)
      → a ≢ b
      → step_hash x side sibling a ≡ some m
      → step_hash x side sibling b ≡ some n
      → m ≡ n
      → Collision x
  unfolding step_hash
  step_hash-differ side sibling a b m n differ ha hb meet =
      elim (Bool-cases (side == text "left")) [
        | inl left ↦ record {
          one = sibling ++ a;
          other = sibling ++ b;
          differ = λ e. differ (append-cancel_left sibling a b e);
          same_hash = ground arith;
        }
        | inr not_left ↦ elim (Bool-cases (side == text "right")) [
          | inl right ↦ record {
            one = a ++ sibling;
            other = b ++ sibling;
            differ = λ e. differ (append-cancel_right a b sibling e);
            same_hash = ground arith;
          }
          | inr not_right ↦ absurd (ground arith)
        ]
      ]

  -- Two values that the same path proves under the same root are equal, unless SHA-256 collides.
  verify_merkle_proof-binds :
      (proof : List (Bytes × Bytes)) (root a b : Bytes)
      → verify_merkle_proof x proof root a ≡ true
      → verify_merkle_proof x proof root b ≡ true
      → (a ≡ b) ⊎ Collision x
  unfolding verify_merkle_proof
  verify_merkle_proof-binds [] root a b ha hb =
      inl (sym ((bytes_beq_iff root a).0 ha) ∙ (bytes_beq_iff root b).0 hb)
  verify_merkle_proof-binds ((side, sibling) ∷ proof) root a b ha hb =
      elim (Option-cases (step_hash x side sibling a)) [
        | inl bad ↦ absurd (ground arith)
        | inr (m, em) ↦ elim (Option-cases (step_hash x side sibling b)) [
          | inl bad ↦ absurd (ground arith)
          | inr (n, en) ↦
              elim (verify_merkle_proof-binds proof root m n (ground arith) (ground arith)) [
                | inr collision ↦ inr collision
                | inl meet ↦ elim (Bool-cases (a == b)) [
                  | inl same ↦ inl ((bytes_beq_iff a b).0 same)
                  | inr other ↦ inr (
                      step_hash-differ side sibling a b m n (ground (arith, bytes_beq_iff a b)) em
                        en meet)
                ]
              ]
        ]
      ]

  -- What an accepted proof has shown.
  record Accepted (roots_db : Dict ℕ Db) (mp : MerkleProof) : Type 0 where
    proof : List (Bytes × Bytes)
    path : map_proof mp.map_leaf mp.map_hash ≡ ok proof
    leaf : x.sha256 (x.receipt.encode mp.receipt) ≡ mp.leaf
    verified : verify_merkle_proof x proof mp.root mp.leaf ≡ true

  verify_proof-Accepted :
      (roots_db : Dict ℕ Db) (mp : MerkleProof) (shard : ℕ)
      → verify_proof x roots_db mp shard ≡ ok true
      → Accepted roots_db mp
  unfolding verify_proof
  verify_proof-Accepted roots_db mp shard h = elim (Option-cases (lookup shard roots_db)) [
    | inl none_there ↦ absurd (ground arith)
    | inr (db, there) ↦ elim (Bool-cases (root_found x mp.root (x.values db))) [
      | inr missing ↦ absurd (ground arith)
      | inl listed ↦ elim (Outcome-cases (map_proof mp.map_leaf mp.map_hash)) [
        | inr bad ↦ absurd (ground arith)
        | inl (proof, path) ↦
            elim (Bool-cases (x.sha256 (x.receipt.encode mp.receipt) == mp.leaf)) [
              | inl same ↦ record {
                proof = proof;
                path = path;
                leaf = (bytes_beq_iff (x.sha256 (x.receipt.encode mp.receipt)) mp.leaf).0 same;
                verified = ground arith;
              }
              | inr other ↦ absurd (ground arith)
            ]
      ]
    ]
  ]

  -- For any hash function in the place of SHA-256 and any databases: two proofs that `VerifyProof`
  -- accepts, with the same path and the same root, carry receipts with the same encoding, unless
  -- the hash function has a collision.
  pub verify_proof-binds :
      (roots_db : Dict ℕ Db) (mp mp' : MerkleProof) (shard shard' : ℕ)
      → mp.map_leaf ≡ mp'.map_leaf
      → mp.map_hash ≡ mp'.map_hash
      → mp.root ≡ mp'.root
      → verify_proof x roots_db mp shard ≡ ok true
      → verify_proof x roots_db mp' shard' ≡ ok true
      → (x.receipt.encode mp.receipt ≡ x.receipt.encode mp'.receipt) ⊎ Collision x
  verify_proof-binds roots_db mp mp' shard shard' leaves hashes roots h h' =
      let one = verify_proof-Accepted roots_db mp shard h in
      let other = verify_proof-Accepted roots_db mp' shard' h' in
      let paths : one.proof ≡ other.proof = ground (arith, one.path, other.path, leaves, hashes) in
      let verified : verify_merkle_proof x one.proof mp.root mp'.leaf ≡ true =
        ap (λ p. verify_merkle_proof x p mp.root mp'.leaf) paths
        ∙ (ap (λ r. verify_merkle_proof x other.proof r mp'.leaf) roots ∙ other.verified) in
      elim (verify_merkle_proof-binds one.proof mp.root mp.leaf mp'.leaf one.verified verified) [
        | inr collision ↦ inr collision
        | inl same ↦
            let raw = x.receipt.encode mp.receipt in
            let raw' = x.receipt.encode mp'.receipt in
            elim (Bool-cases (raw == raw')) [
              | inl equal ↦ inl ((bytes_beq_iff raw raw').0 equal)
              | inr differ ↦ inr (record {
                one = raw;
                other = raw';
                differ = ground (arith, bytes_beq_iff raw raw');
                same_hash = one.leaf ∙ (same ∙ sym other.leaf);
              })
            ]
      ]
