-- ===== src/Validators/Examples.antt =====
-- The theorems on the book of validators, at concrete values.
use mathlib.Core.List.Permᴰ
use dexmd.Validators.Totality.{from, Fair, choose_validator-finds}
use dexmd.External.Toy.{read_balance}
use dexmd.External.Toy.{cut}
use dexmd.Wallet.{base58_encoding}
use dexmd.Text.{parse_hex32}
use dexmd.Wallet.{get_shard_from_address}
use dexmd.Text.{hex}
use dexmd.Text.{slice}
use dexmd.Wallet.{is_wallet_valid}
use dexmd.Base.{keys, ℕ, ◌≤◌, bytes_beq}
use dexmd.Text.{text}
use dexmd.Base.{
  ◌*◌, ◌≡◌, refl, [], ◌∷◌, none, some, true, false, arith, Bytes, bytes_eq, nat_eq, ◌==◌,
  if◌then◌else◌, leb, ok, lookup, insert, erase,
}
use dexmd.Base.Int.{pos, negsuc}
use dexmd.Proto.{Transaction}
use dexmd.External.Toy.{toy, no_transaction, toy-Stores, toy-RoundTrips}
use dexmd.Chain.{Blockchain, get_wallet_state, set_state}
use dexmd.Chain.Samples.{alice_key, chain}
use dexmd.Wallet.{bytes_to_address}
use dexmd.Validators.{
  Validator, ValidatorsBook, check_withdraw, withdraw_validator, add_validator, check_is_validator,
}
use dexmd.Validators.Draw.{sort_strings, eligible, total_stake, Random, choose_validator}
use dexmd.Validators.Choice.{Chosen}
use dexmd.Validators.Withdrawals.{check_withdraw_never_left}

-- The wallet of `alice_key` with shard 1 in its address.
abbrev carol : Bytes
carol = text "Dexm016f4ffmyFHPE3snHJo6aqQr3HVPM0000001B"

abbrev val : Validator
val = record {
  wallet = carol;
  start_dynasty = pos 10;
  end_dynasty = negsuc 0;
  stake = 500;
  shard = 1;
  schnorr_public_key = [];
}

abbrev stake : Transaction
stake = record no_transaction { sender = alice_key; amount = 500 }

abbrev book : ValidatorsBook
book = record { vals_withdraw = (carol, stake) ∷ []; vals_array = (carol, val) ∷ [] }

abbrev leaving : ValidatorsBook
leaving = record book { vals_array = (carol, record val { end_dynasty = pos 400 }) ∷ [] }

carol_listed : lookup carol book.vals_array ≡ some val
unfolding lookup bytes_beq
carol_listed = refl

carol_leaves : withdraw_validator book carol (pos 400) ≡ ok leaving
unfolding withdraw_validator lookup bytes_beq insert
carol_leaves = refl

abbrev nobody : ValidatorsBook
nobody = record { vals_withdraw = []; vals_array = [] }

abbrev with_carol : ValidatorsBook
with_carol = record { vals_withdraw = (carol, stake) ∷ []; vals_array = (carol, val) ∷ [] }

carol_new : check_is_validator nobody carol ≡ false
unfolding check_is_validator lookup
carol_new = refl

carol_added : add_validator toy nobody carol (pos 10) [] stake 4 ≡ ok (with_carol, false)
unfolding add_validator check_is_validator lookup is_wallet_valid bytes_beq slice hex
    get_shard_from_address parse_hex32 insert
carol_added = refl

abbrev steady : Random
steady = record {
  perm = λ seed n. 0 ∷ [];
  reaches = λ seed total counter. leb total (2 * counter);
  shards = λ seed i. 1;
}

carol_chosen : choose_validator steady book (pos 300) 1 ≡ ok carol
unfolding choose_validator lookup bytes_beq
carol_chosen = refl

abbrev funded : Blockchain
funded = record chain { balances_db = λ k. if k == carol then some (30 ∷ []) else none }

abbrev refunded : Blockchain
refunded = record funded {
  balances_db = λ j. if carol == j then some (530 ∷ []) else funded.balances_db j;
}

abbrev without_carol : ValidatorsBook
without_carol = record book { vals_array = [] }

stake_listed : lookup carol book.vals_withdraw ≡ some stake
unfolding lookup bytes_beq
stake_listed = refl

leaving_listed : lookup carol leaving.vals_array ≡ some (record val { end_dynasty = pos 400 })
unfolding lookup bytes_beq
leaving_listed = refl

stake_kept : lookup carol leaving.vals_withdraw ≡ some stake
unfolding lookup bytes_beq
stake_kept = refl

carol_address : bytes_to_address toy alice_key 1 ≡ ok carol
unfolding bytes_to_address base58_encoding cut hex
carol_address = refl

carol_found : get_wallet_state toy funded carol ≡ ok (record { balance = 30 })
unfolding get_wallet_state bytes_beq read_balance
carol_found = refl

carol_set : set_state toy funded carol (record { balance = 530 }) ≡ ok refunded
unfolding set_state
carol_set = refl

check_withdraw_never_left_example :
    (check_withdraw toy book carol funded
      ≡ ok (record book { vals_array = erase carol book.vals_array }, refunded, true))
    × (get_wallet_state toy refunded carol ≡ ok (record { balance = 530 }))
check_withdraw_never_left_example =
    check_withdraw_never_left toy book carol funded stake val stake_listed carol_listed refunded
      (record { balance = 30 }) toy-Stores toy-RoundTrips refl (omega arith) carol_address
      carol_found carol_set

-- A source that shuffles nothing and asks for the whole stake.
abbrev plain_source : Random
plain_source = record {
  perm = λ seed n. from 0 n;
  reaches = λ seed total counter. leb total counter;
  shards = λ seed i. 1;
}

leb_self : (n : ℕ) → leb n n ≡ true
leb_self n = ground arith

plain_source-Fair : Fair plain_source
plain_source-Fair = record {
  perm_is = λ seed n. Permᴰ.refl (from 0 n);
  total_reaches = λ seed total. leb_self total;
}

some_stake : 1 ≤ total_stake 0 (eligible book 300 1 (sort_strings (keys book.vals_array)))
unfolding total_stake eligible sort_strings lookup bytes_beq
some_stake = omega arith

choose_validator-finds_example :
    (w : Bytes) × (choose_validator plain_source book (pos 300) 1 ≡ ok w) × Chosen book 300 1 w
choose_validator-finds_example =
    choose_validator-finds plain_source book (pos 300) 1 plain_source-Fair some_stake
