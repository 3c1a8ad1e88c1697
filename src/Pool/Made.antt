-- ===== src/Pool/Made.antt =====
-- blockchain/pool.go: the draft that a block of `GenerateBlock` is made of.
use dexmd.Pool.{block_root, fill_block, Block, ValidatorsBook, Counters, generate_block, Draft}
use dexmd.Contracts.{Machine}
use dexmd.Chain.{Blockchain}
use dexmd.External.{Queue, External}
use dexmd.Base.{
  Outcome-cases, ℕ, ◌≡◌, ◌≢◌, inl, inr, refl, sym, ap, ◌∙◌, List, [], ◌∷◌, false, not, arith, Bytes,
  bytes_eq, nat_eq, ◌==◌, Bool-cases, length, Outcome, ok, err, panic, Error,
}
use dexmd.Validation.{generate_merkle_tree}

length-ne_nil {ℓ} : {A : Type ℓ} (xs : List A) → xs ≢ [] → (length xs == 0) ≡ false
length-ne_nil [] h = absurd (h refl)
length-ne_nil (x ∷ xs) h = ground arith

module _ (x : External) (m : Machine) (bc : Blockchain) where
  -- The empty draft that a header of some length begins with.
  unfoldable pub start : ℕ → Draft x
  start len = record { current_len = len; tainted = []; receipts_contracts = []; transactions = [] }

  pub block_root-merkle :
      (d : Draft x)
      → d.transactions ≢ []
      → block_root x m d ≡ generate_merkle_tree x d.transactions d.receipts_contracts
  unfolding block_root
  block_root-merkle d some_txs = rw (block_root, length-ne_nil d.transactions some_txs) refl

  -- The draft that a block is made of.
  pub record MadeOf (miner : Bytes) (v : ValidatorsBook) (block : Block) : Type 0 where
    pub blocks : Queue
    pub len : ℕ
    pub draft : Draft x
    pub queue : Queue
    pub filled :
        fill_block x m (record bc { priority_blocks = blocks }) v miner bc.mempool (start len)
        ≡ ok (draft, queue)
    pub index_is : block.index ≡ bc.current_block
    pub transactions_are : block.transactions ≡ draft.transactions
    pub receipts_are : block.receipts_contracts ≡ draft.receipts_contracts
    pub root_is : block_root x m draft ≡ ok block.merkle_root_receipt

  pub generate_block-MadeOf :
      (c c' : Counters) (bc' : Blockchain) (miner : Bytes) (shard : ℕ) (v : ValidatorsBook)
      (now : ℕ) (block : Block) (priority : Queue)
      → bc.priority_blocks ≡ priority
      → generate_block x m c bc miner shard v now ≡ (c', bc', ok block)
      → MadeOf miner v block
  unfolding generate_block start
  generate_block-MadeOf c c' bc' miner shard v now block [] popped made = absurd (ground arith)
  generate_block-MadeOf c c' bc' miner shard v now block ((hash, p) ∷ blocks) popped made =
      let result : Outcome Block = (generate_block x m c bc miner shard v now).2 in
      let h : result ≡ ok block = ap (λ r. r.2) made in
      let header : Block = record {
        index = bc.current_block;
        timestamp = now;
        miner = miner;
        prev_hash = hash;
        shard = shard;
        transactions = [];
        receipts_contracts = [];
        merkle_root_receipt = [];
      } in
      let len = length (x.block.encode header) in
      let bc1 : Blockchain = record bc { priority_blocks = blocks } in
      elim (Bool-cases (not (x.block.encodes header))) [
        | inl fails ↦
            let ends : result ≡ err Error.codec = rw (generate_block, popped, fails) refl in
            absurd (cc)
        | inr encodes ↦ elim (Outcome-cases (fill_block x m bc1 v miner bc.mempool (start len))) [
          | inr (inl (e, bad)) ↦
              let ends : result ≡ err e = rw (generate_block, popped, encodes, bad) refl in
              absurd (cc)
          | inr (inr bad) ↦
              let ends : result ≡ panic = rw (generate_block, popped, encodes, bad) refl in
              absurd (cc)
          | inl ((d, queue), filled) ↦ elim (Outcome-cases (block_root x m d)) [
            | inr (inl (e, bad)) ↦
                let ends : result ≡ err e =
                  rw (generate_block, popped, encodes, filled, bad) refl in
                absurd (cc)
            | inr (inr bad) ↦
                let ends : result ≡ panic =
                  rw (generate_block, popped, encodes, filled, bad) refl in
                absurd (cc)
            | inl (root, rooted) ↦
                let whole : Block = record header {
                  transactions = d.transactions;
                  receipts_contracts = d.receipts_contracts;
                  merkle_root_receipt = root;
                } in
                let ends : result ≡ ok whole =
                  rw (generate_block, popped, encodes, filled, rooted) refl in
                let block_is : whole ≡ block = cc in
                record {
                  blocks = blocks;
                  len = len;
                  draft = d;
                  queue = queue;
                  filled = filled;
                  index_is = ap (λ (b : Block). b.index) (sym block_is);
                  transactions_are = ap (λ (b : Block). b.transactions) (sym block_is);
                  receipts_are = ap (λ (b : Block). b.receipts_contracts) (sym block_is);
                  root_is = rooted ∙ ap (λ (b : Block). ok b.merkle_root_receipt) block_is;
                }
          ]
        ]
      ]
