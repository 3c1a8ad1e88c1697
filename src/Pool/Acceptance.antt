-- ===== src/Pool/Acceptance.antt =====
-- blockchain/pool.go and blockchain/processing.go: `ValidateBlock` accepts what `GenerateBlock` makes.
use dexmd.Pool.{
  block_root, Block, ValidatorsBook, Counters, generate_block, sub_u64o, add_u64o, bytes_to_address,
  Receipt, AccountState, Draft, include,
}
use dexmd.Proto.{Transaction}
use dexmd.Contracts.{Machine}
use dexmd.Validation.{receipt_data, validate_block, validate_step, Tainted, validate_loop}
use dexmd.Chain.{get_wallet_state, Blockchain}
use dexmd.External.{Queue, External}
use dexmd.Base.{
  nat_beq_iff, Outcome-cases, ℕ, ◌≡◌, ◌≢◌, inl, inr, refl, sym, ap, ◌∙◌, List, [], ◌∷◌, ◌++◌, none,
  some, Bool, true, false, not, ◌&&◌, ◌||◌, arith, Bytes, bytes_eq, nat_eq, ◌==◌, ltb, Bool-cases,
  ok, err, Error, insert,
}
use dexmd.Validation.{already_included}
use dexmd.Validation.{current_state}
use dexmd.Pool.Cases.{AllStored, fill_block_invariant}
use dexmd.Validation.{generate_merkle_tree}
use std.Path.{subst}
use dexmd.Base.{bytes_beq_refl}
use dexmd.Validation.Spends.{IsSigned}
use dexmd.Pool.Made.{start, generate_block-MadeOf, block_root-merkle}

-- A stored transaction that a block may hold: signed, not in a block before, and with an encoding.
pub record IsSound (x : External) (bc : Blockchain) (t : Transaction) : Type 0 where
  pub signed : IsSigned x bc t
  pub fresh : already_included x bc t ≡ false
  pub encoded : x.transaction.encodes t ≡ true

module _ (x : External) where
  validate_step-same :
      (bc bc' : Blockchain)
      → bc.balances_db ≡ bc'.balances_db
      → bc.block_db ≡ bc'.block_db
      → (tainted : Tainted x) (t : Transaction)
      → validate_step x bc tainted t ≡ validate_step x bc' tainted t
  unfolding validate_step current_state already_included get_wallet_state
  validate_step-same bc bc' balances blocks tainted t = rw (balances, blocks) refl

  -- The loop of `ValidateBlock` reads nothing of a chain but its balances and its blocks.
  validate_loop-same :
      (bc bc' : Blockchain)
      → bc.balances_db ≡ bc'.balances_db
      → bc.block_db ≡ bc'.block_db
      → (tainted : Tainted x) (ts : List Transaction)
      → validate_loop x bc tainted ts ≡ validate_loop x bc' tainted ts
  unfolding validate_loop
  validate_loop-same bc bc' balances blocks tainted [] = refl
  validate_loop-same bc bc' balances blocks tainted (t ∷ ts) =
      let first = validate_step-same bc bc' balances blocks tainted t in
      elim (Outcome-cases (validate_step x bc tainted t)) [
        | inr (inl (f, e)) ↦ rw (validate_loop, e, sym first ∙ e) refl
        | inr (inr e) ↦ rw (validate_loop, e, sym first ∙ e) refl
        | inl (none, e) ↦ rw (validate_loop, e, sym first ∙ e) refl
        | inl (some next, e) ↦
            rw (validate_loop, e, sym first ∙ e) (validate_loop-same bc bc' balances blocks next ts)
      ]

  validate_loop-snoc :
      (bc : Blockchain) (tainted after last : Tainted x) (ts : List Transaction) (t : Transaction)
      → validate_loop x bc tainted ts ≡ ok (some after)
      → validate_step x bc after t ≡ ok (some last)
      → validate_loop x bc tainted (ts ++ t ∷ []) ≡ ok (some last)
  unfolding validate_loop
  validate_loop-snoc bc tainted after last [] t h step =
      let same : tainted ≡ after = cc in
      rw (subst (λ s. validate_step x bc s t ≡ ok (some last)) (sym same) step) refl
  validate_loop-snoc bc tainted after last (u ∷ ts) t h step =
      elim (Outcome-cases (validate_step x bc tainted u)) [
        | inr bad ↦ absurd (ground arith)
        | inl (none, e) ↦ absurd (ground arith)
        | inl (some next, e) ↦
            rw e (
              validate_loop-snoc bc next after last ts t (sym (rw (validate_loop, e) refl) ∙ h)
                step)
      ]

or-false_left : (a b : Bool) → (a || b) ≡ false → a ≡ false
or-false_left true b h = cc
or-false_left false b h = refl

or-false_right : (a b : Bool) → (a || not b) ≡ false → b ≡ true
or-false_right true b h = absurd (cc)
or-false_right false true h = refl
or-false_right false false h = absurd (cc)

module _ (x : External) (m : Machine) (bc : Blockchain) where
  Accepted : Draft x → Type 0
  Accepted d = validate_loop x bc [] d.transactions ≡ ok (some d.tainted)

  include-Accepted :
      (d : Draft x) (t : Transaction) (sender : Bytes) (state : AccountState)
      (receipts : List Receipt)
      → bytes_to_address x t.sender t.shard ≡ ok sender
      → current_state x bc d.tainted sender ≡ ok state
      → IsSound x bc t
      → Accepted d
      → Accepted (include x m d t sender state receipts)
  unfolding include Accepted validate_step insert
  include-Accepted d t sender state receipts address current sound accepted =
      let required = (add_u64o t.amount t.gas).0 in
      let short = ltb state.balance required && (add_u64o t.amount t.gas).1 in
      let covered = (sub_u64o state.balance required).1 in
      elim (Bool-cases (short || not covered)) [
        | inl skip ↦ rw skip accepted
        | inr keep ↦
            let enough : short ≡ false = or-false_left short (not covered) keep in
            let paid : covered ≡ true = or-false_right short covered keep in
            rw (keep, sound.encoded)
              (validate_loop-snoc x bc [] d.tainted _ d.transactions t accepted (
                rw (validate_step, address, sound.signed, current, enough, sound.fresh, paid) refl))
      ]

validate_loop-nil : (x : External) (bc : Blockchain) → validate_loop x bc [] [] ≡ ok (some [])
unfolding validate_loop
validate_loop-nil x bc = refl

generate_merkle_tree-nil :
    (x : External) → x.merkle_root [] ≡ none → generate_merkle_tree x [] [] ≡ err Error.merkle
unfolding generate_merkle_tree receipt_data
generate_merkle_tree-nil x no_tree = rw no_tree refl

AllStored-popped :
    (x : External) (bc : Blockchain) (blocks queue : Queue)
    → AllStored x bc (IsSound x bc) queue
    → AllStored x
        (record bc { priority_blocks = blocks })
        (IsSound x (record bc { priority_blocks = blocks }))
        queue
unfolding already_included
AllStored-popped x bc blocks [] h = tt
AllStored-popped x bc blocks ((key, gas) ∷ queue) (first, rest) = (
  λ stored there.
      let s = first stored there in
      record { signed = s.signed; fresh = s.fresh; encoded = s.encoded },
  AllStored-popped x bc blocks queue rest,
)

module _ (x : External) (m : Machine) (bc : Blockchain) where
  -- If a transaction is signed, in no block before and encodes, for every key of the mempool: a block
  -- with transactions that `GenerateBlock` makes, other than the genesis block, is accepted by
  -- `ValidateBlock`, on every chain with the same balances and the same blocks.
  pub validate_block-generate_block :
      (c c' : Counters) (bc' there : Blockchain) (miner : Bytes) (shard : ℕ) (v : ValidatorsBook)
      (now : ℕ) (block : Block)
      → AllStored x bc (IsSound x bc) bc.mempool
      → generate_block x m c bc miner shard v now ≡ (c', bc', ok block)
      → bc.current_block ≢ 0
      → block.transactions ≢ []
      → there.balances_db ≡ bc.balances_db
      → there.block_db ≡ bc.block_db
      → validate_block x there block ≡ ok true
  unfolding validate_block Accepted start block_root
  validate_block-generate_block c c' bc' there miner shard v now block sound made later some_txs
        balances blocks =
      let made_of =
        generate_block-MadeOf x m bc c c' bc' miner shard v now block bc.priority_blocks refl
          made in
      let d = made_of.draft in
      let bc1 : Blockchain = record bc { priority_blocks = made_of.blocks } in
      let looped : validate_loop x bc1 [] d.transactions ≡ ok (some d.tainted) =
        fill_block_invariant x m bc1 v miner (Accepted x m bc1) (IsSound x bc1)
          (λ d t sender state receipts good address current accepted.
            include-Accepted x m bc1 d t sender state receipts address current good accepted)
          bc.mempool made_of.queue (start x m bc made_of.len) d
          (AllStored-popped x bc made_of.blocks bc.mempool sound) refl made_of.filled in
      let accepted : validate_loop x there [] block.transactions ≡ ok (some d.tainted) =
        ap (validate_loop x there []) made_of.transactions_are
        ∙ (validate_loop-same x there bc1 balances blocks [] d.transactions ∙ looped) in
      let rooted : generate_merkle_tree x block.transactions block.receipts_contracts
          ≡ ok block.merkle_root_receipt =
        rw made_of.receipts_are (
          ap (λ ts. generate_merkle_tree x ts d.receipts_contracts) made_of.transactions_are
          ∙ sym (block_root-merkle x m bc d (λ e. some_txs (made_of.transactions_are ∙ e)))
          ∙ made_of.root_is) in
      let index : (block.index == 0) ≡ false =
        ground (arith, nat_beq_iff block.index 0, made_of.index_is) in
      rw (index, accepted, rooted, bytes_beq_refl block.merkle_root_receipt) refl

  -- A block without transactions that `GenerateBlock` makes, other than the genesis block, is refused by
  -- `ValidateBlock` with an error, on every chain, if a Merkle tree without leaves is an error.
  pub validate_block-generate_block_empty :
      (c c' : Counters) (bc' there : Blockchain) (miner : Bytes) (shard : ℕ) (v : ValidatorsBook)
      (now : ℕ) (block : Block)
      → x.merkle_root [] ≡ none
      → generate_block x m c bc miner shard v now ≡ (c', bc', ok block)
      → bc.current_block ≢ 0
      → block.transactions ≡ []
      → block.receipts_contracts ≡ []
      → validate_block x there block ≡ err Error.merkle
  unfolding validate_block
  validate_block-generate_block_empty c c' bc' there miner shard v now block no_tree made later
        no_txs no_receipts =
      let made_of =
        generate_block-MadeOf x m bc c c' bc' miner shard v now block bc.priority_blocks refl
          made in
      let index : (block.index == 0) ≡ false =
        ground (arith, nat_beq_iff block.index 0, made_of.index_is) in
      let looped : validate_loop x there [] block.transactions ≡ ok (some []) =
        ap (validate_loop x there []) no_txs ∙ validate_loop-nil x there in
      let tree : generate_merkle_tree x block.transactions block.receipts_contracts
          ≡ err Error.merkle =
        ap (λ ts. generate_merkle_tree x ts block.receipts_contracts) no_txs
        ∙ (ap (generate_merkle_tree x []) no_receipts ∙ generate_merkle_tree-nil x no_tree) in
      rw (index, looped, tree) refl
