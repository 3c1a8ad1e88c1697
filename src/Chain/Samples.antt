-- ===== src/Chain/Samples.antt =====
-- A chain with two wallets and a transaction between them, for tests.
use dexmd.Text.{slice}
use dexmd.Base.{bytes_beq}
use dexmd.Text.{hex}
use dexmd.External.Toy.{cut}
use dexmd.Wallet.{base58_encoding}
use dexmd.Base.{
  ◌≡◌, refl, [], ◌∷◌, none, some, true, Bytes, bytes_eq, nat_eq, ◌==◌, if◌then◌else◌, ok,
}
use dexmd.Proto.{Transaction, AccountState}
use dexmd.External.{Db}
use dexmd.External.Toy.{toy, no_transaction, read_balance}
use dexmd.Wallet.{bytes_to_address, is_wallet_valid}
use dexmd.Text.{text}
use dexmd.Chain.{Blockchain, get_wallet_state}

abbrev pub alice_key : Bytes
alice_key = 7 ∷ []

abbrev pub alice : Bytes
alice = text "Dexm026f4ffmyFHPE3snHJo6aqQr3HVPM0000001B"

abbrev pub bob : Bytes
bob = text "Dexm027TvuUk7HKiyLrkTvUpoxKy3cR9y0000001B"

abbrev pub balances : Db
balances k = if k == alice then some (70000 ∷ []) else if k == bob then some (50 ∷ []) else none

-- The code of a contract is stored under the address of `bob`.
abbrev pub codes : Db
codes k = if k == bob then some (1 ∷ []) else none

abbrev pub chain : Blockchain
chain = record {
  balances_db = balances;
  block_db = λ _. none;
  contract_db = codes;
  state_db = λ _. none;
  casper_votes_db = λ _. none;
  max_block_bytes = 1000000;
  mempool = [];
  schnorr = [];
  mt_receipt = [];
  r_schnorr = [];
  p_schnorr = [];
  messages_receipt = [];
  genesis_timestamp = 0;
  current_block = 3;
  current_vote = 0;
  current_checkpoint = 0;
  current_validator = [];
  priority_blocks = [];
  missing_block = [];
  hash_blocks = [];
}

abbrev pub payment : Transaction
payment = record no_transaction {
  sender = alice_key;
  recipient = bob;
  amount = 100;
  gas = 20000;
  shard = 2;
  r = 1 ∷ [];
  s = 1 ∷ [];
}

abbrev pub alice_state : AccountState
alice_state = record { balance = 70000 }

pub alice_address : bytes_to_address toy alice_key 2 ≡ ok alice
unfolding bytes_to_address base58_encoding cut hex
alice_address = refl

pub bob_valid : is_wallet_valid toy bob ≡ ok true
unfolding is_wallet_valid bytes_beq slice hex
bob_valid = refl

pub alice_found : get_wallet_state toy chain alice ≡ ok alice_state
unfolding get_wallet_state read_balance bytes_beq
alice_found = refl
