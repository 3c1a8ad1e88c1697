-- ===== src/Proofs.antt =====
-- networking/merkleproof.go: checking a Merkle proof of a transaction of another shard, and paying
-- by it.
pub mod Collisions
pub mod Burning
mod Examples
use dexmd.Base.{
  get_elem?, ℕ, zero, suc, ◌+◌, ◌-◌, ◌*◌, ◌/◌, ◌%◌, ◌^◌, ◌≤◌, ◌<◌, ◌≡◌, ◌≢◌, ◌↔◌, ◌⊎◌, inl, inr,
  refl, sym, ap, ◌∙◌, List, [], ◌∷◌, ◌++◌, map, Option, none, some, Bool, true, false, not, ◌&&◌,
  ◌||◌, arith, Bytes, bytes_eq, nat_eq, ◌==◌, if◌then◌else◌, ltb, leb, Bool-cases, Option-cases,
  length, All, replicate, dec_lt, Outcome, ok, err, panic, Error, ◌>>=◌, ◌>>◌, fail_if, or_fail,
  or_panic, Dict, lookup, insert, erase,
}
use dexmd.Text.{text, atoi}
use dexmd.Base.Int.{to_u64}
use dexmd.Proto.{Transaction, Receipt, AccountState, MerkleProof, MerkleRootsSigned}
use dexmd.External.{External, Db}
use dexmd.Util.{add_u64o}
use dexmd.Wallet.{bytes_to_address, get_shard_from_address}
use dexmd.Chain.{Blockchain, get_wallet_state, set_state}
use dexmd.Import.{state_or_zero}

-- The side of a sibling, as the key of its one-entry map says.
unfoldable pub step_hash : External → Bytes → Bytes → Bytes → Option Bytes
step_hash x side sibling current =
    if side == text "left"
    then some (x.sha256 (sibling ++ current))
    else if side == text "right"
    then some (x.sha256 (current ++ sibling))
    else none

-- `verifyMerkleProof`
unfoldable pub verify_merkle_proof : External → List (Bytes × Bytes) → Bytes → Bytes → Bool
unfolding step_hash
verify_merkle_proof x [] root value = root == value
verify_merkle_proof x ((side, sibling) ∷ proof) root value = elim (step_hash x side sibling value) [
  | none ↦ false
  | some next ↦ verify_merkle_proof x proof root next
]

-- The maps with one entry each; a missing hash is an index out of range.
unfoldable pub map_proof : List Bytes → List Bytes → Outcome (List (Bytes × Bytes))
map_proof [] hashes = ok []
map_proof (key ∷ keys) [] = panic
map_proof (key ∷ keys) (hash ∷ hashes) = do rest ← map_proof keys hashes; ok ((key, hash) ∷ rest)

unfoldable pub mem_root : Bytes → List Bytes → Bool
mem_root root [] = false
mem_root root (r ∷ rs) = root == r || mem_root root rs

module _ (x : External) where
  -- The loop over the signed roots of a shard.
  unfoldable pub root_found : Bytes → List Bytes → Bool
  unfolding mem_root
  root_found root [] = false
  root_found root (value ∷ values) =
      mem_root root (x.roots.decode value).merkle_roots_receipt || root_found root values

  -- `VerifyProof`, on the databases of signed roots by shard.
  unfoldable pub verify_proof : Dict ℕ Db → MerkleProof → ℕ → Outcome Bool
  unfolding root_found verify_merkle_proof map_proof
  verify_proof roots_db mp shard = elim (lookup shard roots_db) [
    | none ↦ ok false
    | some db ↦ if not (root_found mp.root (x.values db)) then ok false else do
      proof ← map_proof mp.map_leaf mp.map_hash
      ok (
          x.sha256 (x.receipt.encode mp.receipt) == mp.leaf
          && verify_merkle_proof x proof mp.root mp.leaf)
  ]

  -- The payment on the chain of one shard. The error of reading the recipient is ignored.
  unfoldable pub pay_by_proof : Blockchain → Bytes → Transaction → Outcome Blockchain
  pay_by_proof bc sender t = do
    sender_balance ← get_wallet_state x bc sender
    let (required, fits) = add_u64o t.amount t.gas
    fail_if (ltb sender_balance.balance required && fits) Error.insufficient_balance
    let reciver_balance : AccountState = state_or_zero x bc t.recipient
    let charged : AccountState = record sender_balance {
      balance = (sender_balance.balance + 2 ^ 64 - (t.amount + t.gas) % 2 ^ 64) % 2 ^ 64;
    }
    let credited : AccountState = record reciver_balance {
      balance = (reciver_balance.balance + t.amount) % 2 ^ 64;
    }
    bc1 ← set_state x bc sender charged
    set_state x bc1 t.recipient credited

  -- The loop over the interests, strings that name shards: "0" is passed over, and so is one that is
  -- no number. A number without a chain is a nil pointer.
  unfoldable pub pay_interests :
      List Bytes → Dict ℕ Blockchain → Bytes → Transaction → Dict ℕ Blockchain × Outcome Bool
  unfolding pay_by_proof
  pay_interests [] chains sender t = (chains, ok true)
  pay_interests (interest ∷ interests) chains sender t =
      let rest = pay_interests interests chains sender t in
      if interest == text "0" then rest else elim (atoi interest) [
        | none ↦ rest
        | some n ↦
            let shard = to_u64 n % 2 ^ 32 in
            elim (lookup shard chains) [
              | none ↦ (chains, panic)
              | some bc ↦ elim (pay_by_proof bc sender t) [
                | ok bc' ↦ pay_interests interests (insert shard bc' chains) sender t
                | err e ↦ (chains, err e)
                | panic ↦ (chains, panic)
              ]
            ]
      ]

-- The package variable `ReceiptBurned`, the chains of the shards, and the databases of roots.
pub record Ledger : Type 0 where
  pub receipt_burned : Dict Bytes Bool
  pub chains : Dict ℕ Blockchain
  pub roots_db : Dict ℕ Db

unfoldable pub is_burned : Ledger → Bytes → Bool
is_burned l leaf = elim (lookup leaf l.receipt_burned) [ none ↦ false | some b ↦ b ]

module _ (x : External) where
  -- `CheckMerkleProof`: the leaf is marked as burned before anything is paid.
  unfoldable pub check_merkle_proof : List Bytes → Ledger → MerkleProof → Ledger × Outcome Bool
  unfolding is_burned verify_proof pay_interests
  check_merkle_proof interests l mp =
      if is_burned l mp.leaf then (l, ok false) else elim (verify_proof x l.roots_db mp mp.shard) [
        | err e ↦ (l, err e)
        | panic ↦ (l, panic)
        | ok false ↦ (l, ok false)
        | ok true ↦
            let burned : Ledger = record l {
              receipt_burned = insert mp.leaf true l.receipt_burned;
            } in
            elim (bytes_to_address x mp.transaction.sender mp.transaction.shard) [
              | err e ↦ (burned, err e)
              | panic ↦ (burned, panic)
              | ok sender ↦
                  let (chains, result) = pay_interests x interests l.chains sender mp.transaction in
                  (record burned { chains = chains }, result)
            ]
      ]

  -- `GenerateMerkleProof`: no bytes if the tree or the shard of the recipient cannot be made. The call
  -- of `GetShardFromAddress` panics on a recipient that is too short.
  unfoldable pub generate_merkle_proof : List Receipt → ℕ → Transaction → Outcome Bytes
  generate_merkle_proof receipts index_proof t =
      let leaves = map x.receipt.encode receipts in
      elim (x.merkle_root leaves) [
        | none ↦ ok []
        | some root ↦ elim (get_shard_from_address x t.recipient) [
          | panic ↦ panic
          | err _ ↦ ok []
          | ok shard ↦ do
            receipt ← or_panic (get_elem? receipts index_proof)
            let path = x.merkle_path leaves index_proof
            let proof : MerkleProof = record {
              map_leaf = map (λ s. s.0) path;
              map_hash = map (λ s. s.1) path;
              root = root;
              leaf = x.merkle_leaf leaves index_proof;
              receipt = receipt;
              transaction = t;
              shard = shard;
            }
            ok (x.proof.encode proof)
        ]
      ]
