-- ===== src/Pool/Cases.antt =====
-- blockchain/pool.go, the loop of `GenerateBlock`: a rule for what holds of every draft of it.
use dexmd.Pool.{
  contract_receipts, same_shard, validate_transaction, include, current_state, bytes_to_address,
  Receipt, AccountState, Draft, consider, fill_block,
}
use dexmd.Validators.{ValidatorsBook}
use dexmd.Proto.{Transaction}
use dexmd.Contracts.{Machine}
use dexmd.Chain.{Blockchain}
use dexmd.External.{Queue, External}
use dexmd.Base.{
  Outcome-cases, ◌≡◌, inl, inr, List, [], ◌∷◌, none, some, arith, Bytes, bytes_eq, nat_eq, ltb,
  Bool-cases, Option-cases, All, ok,
}
use std.Path.{subst}

-- The keys in a queue stand for transactions of a kind.
abbrev pub AllStored {κ} : (x : External) → Blockchain → (Transaction → Type κ) → Queue → Type κ
AllStored x bc Good queue =
    All (λ e. (stored : Bytes) → bc.block_db e.0 ≡ some stored → Good (x.transaction.decode stored))
      queue

pub AllStored-queue {κ} :
    (x : External) (bc : Blockchain) (Good : Transaction → Type κ)
    → ((key stored : Bytes) → bc.block_db key ≡ some stored → Good (x.transaction.decode stored))
    → (queue : Queue) → AllStored x bc Good queue
AllStored-queue x bc Good all [] = tt
AllStored-queue x bc Good all ((key, gas) ∷ queue) = (all key, AllStored-queue x bc Good all queue)

module _ (x : External) (m : Machine) (bc : Blockchain) (v : ValidatorsBook) (miner : Bytes) where
  -- A draft is left as it was, or the transaction is included with the state of its sender.
  pub consider_cases {ℓ} :
      (P : Draft x → Type ℓ) (d d' : Draft x) (t : Transaction)
      → P d
      → ((sender : Bytes) (state : AccountState) (receipts : List Receipt)
          → bytes_to_address x t.sender t.shard ≡ ok sender
          → current_state x bc d.tainted sender ≡ ok state
          → P (include x m d t sender state receipts))
      → consider x m bc v miner d t ≡ ok d'
      → P d'
  unfolding consider
  consider_cases P d d' t kept included h = elim (Outcome-cases (validate_transaction x bc t)) [
    | inr (inr bad) ↦ absurd (ground arith)
    | inr (inl (e, refused)) ↦ subst P (ground arith) kept
    | inl (valid, validated) ↦ elim (Outcome-cases (bytes_to_address x t.sender t.shard)) [
      | inr bad ↦ absurd (ground arith)
      | inl (sender, address) ↦ elim (Bool-cases (same_shard x m v sender miner)) [
        | inr elsewhere ↦ subst P (ground arith) kept
        | inl here ↦ elim (Outcome-cases (current_state x bc d.tainted sender)) [
          | inr (inr bad) ↦ absurd (ground arith)
          | inr (inl (e, missing)) ↦ subst P (ground arith) kept
          | inl (state, current) ↦
              elim (Outcome-cases (contract_receipts x m bc t state.balance d.receipts_contracts)) [
                | inr bad ↦ absurd (ground arith)
                | inl (none, called) ↦ subst P (ground arith) kept
                | inl (some receipts, called) ↦
                    subst P (ground arith) (included sender state receipts address current)
              ]
        ]
      ]
    ]
  ]

  -- What holds of the first draft, and is kept when a transaction of the queue is included, holds of
  -- the last one.
  pub fill_block_invariant {ℓ κ} :
      (P : Draft x → Type ℓ) (Good : Transaction → Type κ)
      → ((d : Draft x) (t : Transaction) (sender : Bytes) (state : AccountState)
            (receipts : List Receipt)
          → Good t
          → bytes_to_address x t.sender t.shard ≡ ok sender
          → current_state x bc d.tainted sender ≡ ok state
          → P d
          → P (include x m d t sender state receipts))
      → (queue rest : Queue) (d d' : Draft x) → AllStored x bc Good queue
      → P d
      → fill_block x m bc v miner queue d ≡ ok (d', rest)
      → P d'
  unfolding fill_block
  fill_block_invariant P Good keeps [] rest d d' good start h = subst P (ground arith) start
  fill_block_invariant P Good keeps ((key, gas) ∷ queue) rest d d' (g, good) start h =
      elim (Bool-cases (ltb d.current_len bc.max_block_bytes)) [
        | inr full ↦ subst P (ground arith) start
        | inl room ↦ elim (Option-cases (bc.block_db key)) [
          | inl missing ↦
              fill_block_invariant P Good keeps queue rest d d' good start (ground arith)
          | inr (stored, there) ↦
              let t = x.transaction.decode stored in
              elim (Outcome-cases (consider x m bc v miner d t)) [
                | inr bad ↦ absurd (ground arith)
                | inl (next, considered) ↦
                    fill_block_invariant P Good keeps queue rest next d' good
                      (consider_cases P d next t start
                        (λ sender state receipts address current.
                          keeps d t sender state receipts (g stored there) address current start)
                        considered)
                      (ground arith)
              ]
        ]
      ]
