-- ===== src/Pool/Examples.antt =====
-- Filling a block, at concrete values.
use dexmd.Validation.{already_included}
use dexmd.Validation.{generate_merkle_tree}
use dexmd.Pool.Acceptance.{validate_block-generate_block, IsSound}
use dexmd.Util.{sub_u64o}
use dexmd.Pool.{Block, generate_block, include}
use dexmd.Pool.{contract_receipts}
use dexmd.Validation.{validate_block, current_state}
use dexmd.Validators.{get_shard}
use dexmd.Util.{add_u64o}
use dexmd.Text.{hex}
use dexmd.Wallet.{signature_valid}
use dexmd.Wallet.{is_wallet_valid}
use dexmd.Wallet.{base58_encoding}
use dexmd.Wallet.{bytes_to_address}
use dexmd.Validation.{validate_transaction}
use dexmd.Text.{text}
use dexmd.External.Toy.{no_block, read_balance}
use dexmd.Base.{true, length, bytes_beq}
use dexmd.Base.{
  ◌≤◌, ◌≡◌, refl, [], ◌∷◌, none, some, false, arith, Bytes, bytes_eq, nat_eq, ◌==◌, if◌then◌else◌,
  ok, lookup, insert,
}
use dexmd.Base.Int.{pos, negsuc}
use dexmd.Proto.{Transaction}
use dexmd.External.{External, Queue}
use dexmd.External.Toy.{toy, lossy, toy-Balances}
use dexmd.Chain.{Blockchain, get_wallet_state}
use dexmd.Chain.Samples.{chain, payment}
use dexmd.Contracts.{Machine}
use dexmd.Validation.Spends.{spent}
use dexmd.Validators.{Validator, ValidatorsBook}
use dexmd.Pool.{Draft, fill_block}
use dexmd.Pool.Budget.{fill_block-spends}

-- A transaction whose gas, times 10^9, is 0 as a uint32.
abbrev heavy : Transaction
heavy = record payment { gas = 8388608; recipient = text "DexmVoid" }

-- Whatever is stored reads as that transaction, and the digests are empty.
abbrev single : External
single = record toy { ripemd160 = λ b. []; transaction = lossy (λ t. t.nonce ∷ []) heavy }

-- The address that every key has then.
abbrev miner : Bytes
miner = text "Dexm0200000000"

abbrev rich : Blockchain
rich = record chain {
  balances_db = λ k. if k == miner then some (9000000 ∷ []) else none;
  block_db = λ k. some (0 ∷ []);
}

abbrev member : Validator
member = record {
  wallet = [];
  start_dynasty = pos 0;
  end_dynasty = negsuc 0;
  stake = 1;
  shard = 2;
  schnorr_public_key = [];
}

abbrev book : ValidatorsBook
book = record { vals_withdraw = []; vals_array = (miner, member) ∷ [] }

abbrev idle : Machine
idle = record {
  read_module = λ code. none;
  new_vm = λ code. none;
  exec_code = λ c index args. (c, false);
}

-- The second copy is no longer covered.
abbrev filled : Draft single
filled = record {
  current_len = 1;
  tainted = (miner, record { balance = 611292 }) ∷ [];
  receipts_contracts = [];
  transactions = heavy ∷ [];
}

abbrev two_keys : Queue
two_keys = (1 ∷ [], 5) ∷ (2 ∷ [], 4) ∷ []

block_filled :
    fill_block single idle rich book miner two_keys
      (record { current_len = 0; tainted = []; receipts_contracts = []; transactions = [] })
    ≡ ok (filled, [])
unfolding fill_block validate_transaction bytes_to_address base58_encoding is_wallet_valid bytes_beq
    lossy signature_valid get_wallet_state hex read_balance add_u64o get_shard lookup current_state
    contract_receipts include sub_u64o insert
block_filled = refl

rich_miner : get_wallet_state single rich miner ≡ ok (record { balance = 9000000 })
unfolding get_wallet_state bytes_beq read_balance
rich_miner = refl

fill_block-spends_example : spent single rich miner filled.transactions ≤ 9000000
unfolding lossy
fill_block-spends_example =
    fill_block-spends single idle rich (record { balance_bound = toy-Balances.balance_bound })
      (λ key stored there. omega arith) book miner two_keys [] 0 filled block_filled miner
      (record { balance = 9000000 }) rich_miner

abbrev queued : Blockchain
queued = record rich { mempool = two_keys; priority_blocks = (text "a", 1) ∷ [] }

abbrev made : Block
made = record no_block {
  index = 3;
  timestamp = 9;
  miner = miner;
  prev_hash = text "a";
  shard = 2;
  transactions = heavy ∷ [];
  merkle_root_receipt = 1 ∷ [];
}

block_made :
    generate_block single idle
      (record { mempool_transactions = 2; block_transactions = 0 })
      queued
      miner
      2
      book
      9
    ≡ (
      record { mempool_transactions = 2; block_transactions = 1 },
      record queued { mempool = []; priority_blocks = [] },
      ok made,
    )
unfolding generate_block fill_block validate_transaction bytes_to_address base58_encoding
    is_wallet_valid bytes_beq lossy signature_valid get_wallet_state hex read_balance add_u64o
    get_shard lookup current_state contract_receipts include sub_u64o insert generate_merkle_tree
block_made = refl

heavy-IsSound : IsSound single queued heavy
unfolding signature_valid already_included lossy
heavy-IsSound = record { signed = refl; fresh = refl; encoded = refl }

validate_block-generate_block_example : validate_block single queued made ≡ ok true
unfolding lossy
validate_block-generate_block_example =
    validate_block-generate_block single idle queued
      (record { mempool_transactions = 2; block_transactions = 0 })
      (record { mempool_transactions = 2; block_transactions = 1 })
      (record queued { mempool = []; priority_blocks = [] }) queued miner 2 book 9 made
      ((λ stored there. heavy-IsSound), ((λ stored there. heavy-IsSound), tt)) block_made
      (λ e. ground arith) (λ e. ground arith) refl refl

-- Here a tree needs a leaf.
abbrev strict : External
strict = record single {
  merkle_root = λ leaves. if length leaves == 0 then none else some (length leaves ∷ []);
}

abbrev unqueued : Blockchain
unqueued = record rich { mempool = []; priority_blocks = (text "a", 1) ∷ [] }

abbrev bare : Block
bare = record made { transactions = []; merkle_root_receipt = [] }

bare_made :
    generate_block strict idle
      (record { mempool_transactions = 0; block_transactions = 0 })
      unqueued
      miner
      2
      book
      9
    ≡ (
      record { mempool_transactions = 0; block_transactions = 0 },
      record unqueued { priority_blocks = [] },
      ok bare,
    )
unfolding generate_block lossy
bare_made = refl
