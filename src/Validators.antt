-- ===== src/Validators.antt =====
-- blockchain/validators.go: the book of validators, and the choice of validators and shards.
pub mod Draw
pub mod Book
pub mod Choice
pub mod Totality
pub mod Withdrawals
mod Examples
use dexmd.Base.{
  get_elem?, keys, ℕ, zero, suc, ◌+◌, ◌-◌, ◌*◌, ◌/◌, ◌%◌, ◌^◌, ◌≤◌, ◌<◌, ◌≡◌, ◌≢◌, ◌↔◌, ◌⊎◌, inl,
  inr, refl, sym, ap, ◌∙◌, List, [], ◌∷◌, ◌++◌, map, Option, none, some, Bool, true, false, not,
  ◌&&◌, ◌||◌, arith, Bytes, bytes_eq, nat_eq, ◌==◌, if◌then◌else◌, ltb, leb, Bool-cases,
  Option-cases, length, All, replicate, dec_lt, Outcome, ok, err, panic, Error, ◌>>=◌, ◌>>◌,
  fail_if, or_fail, or_panic, Dict, lookup, insert, erase,
}
use dexmd.Base.Int.{ℤ, pos, negsuc, ◌+ℤ◌, ltb_ℤ, to_i64, to_u64, wrap_i64}
use dexmd.Proto.{Transaction, AccountState}
use dexmd.External.{External}
use dexmd.Wallet.{bytes_to_address, is_wallet_valid, get_shard_from_address}
use dexmd.Chain.{Blockchain, get_wallet_state, set_state}

abbrev pub n_shard : ℕ
n_shard = 5

pub record Validator : Type 0 where
  pub wallet : Bytes
  pub start_dynasty : ℤ
  pub end_dynasty : ℤ
  pub stake : ℕ
  pub shard : ℕ
  pub schnorr_public_key : Bytes

pub record ValidatorsBook : Type 0 where
  pub vals_withdraw : Dict Bytes Transaction
  pub vals_array : Dict Bytes Validator

-- `NewValidatorsBook`
unfoldable pub new_validators_book : ValidatorsBook
new_validators_book = record { vals_withdraw = []; vals_array = [] }

-- `CheckIsValidator`
unfoldable pub check_is_validator : ValidatorsBook → Bytes → Bool
check_is_validator v wallet = elim (lookup wallet v.vals_array) [ none ↦ false | some _ ↦ true ]

-- `endDynasty == -1`
abbrev pub never_ends : ℤ → Bool
never_ends (pos n) = false
never_ends (negsuc n) = n == 0

-- The test of `CheckDynasty` on a validator that is there.
unfoldable pub in_dynasty : Validator → ℕ → Bool
in_dynasty val current_block =
    ltb_ℤ (wrap_i64 (val.start_dynasty +ℤ pos 200)) (to_i64 current_block)
    && (ltb_ℤ (to_i64 current_block) (wrap_i64 (val.end_dynasty +ℤ pos 200))
        || never_ends val.end_dynasty)

-- `CheckDynasty`
unfoldable pub check_dynasty : ValidatorsBook → Bytes → ℕ → Bool
unfolding in_dynasty
check_dynasty v wallet current_block = elim (lookup wallet v.vals_array) [
  | none ↦ false
  | some val ↦ in_dynasty val current_block
]

-- `LenValidators`
unfoldable pub count_shard : ℕ → Dict Bytes Validator → ℕ
count_shard shard [] = 0
count_shard shard ((_, val) ∷ vals) = (if val.shard == shard then 1 else 0) + count_shard shard vals

unfoldable pub len_validators : ValidatorsBook → ℕ → ℕ
unfolding count_shard
len_validators v shard = count_shard shard v.vals_array

-- The body that the setters share: change the entry of a wallet that is there.
unfoldable pub update_validator :
    (Validator → Validator) → ValidatorsBook → Bytes → Outcome ValidatorsBook
update_validator f v wallet = elim (lookup wallet v.vals_array) [
  | none ↦ err Error.validator_not_found
  | some val ↦ ok (record v { vals_array = insert wallet (f val) v.vals_array })
]

-- `RemoveValidator`
unfoldable pub remove_validator : ValidatorsBook → Bytes → Outcome ValidatorsBook
remove_validator v wallet = elim (lookup wallet v.vals_array) [
  | none ↦ err Error.validator_not_found
  | some _ ↦ ok (record v { vals_array = erase wallet v.vals_array })
]

-- `GetSchnorrPublicKey`
unfoldable pub get_schnorr_public_key : ValidatorsBook → Bytes → Outcome Bytes
get_schnorr_public_key v wallet = do
  val ← or_fail (lookup wallet v.vals_array) Error.validator_not_found
  ok val.schnorr_public_key

-- `WithdrawValidator`
unfoldable pub withdraw_validator : ValidatorsBook → Bytes → ℤ → Outcome ValidatorsBook
unfolding update_validator
withdraw_validator v wallet current_block =
    update_validator (λ val. record val { end_dynasty = current_block }) v wallet

-- `SetShard`
unfoldable pub set_shard : ValidatorsBook → Bytes → ℕ → Outcome ValidatorsBook
unfolding update_validator
set_shard v wallet shard = update_validator (λ val. record val { shard = shard }) v wallet

-- `GetShard`
unfoldable pub get_shard : ValidatorsBook → Bytes → Outcome ℕ
get_shard v wallet = do
  val ← or_fail (lookup wallet v.vals_array) Error.validator_not_found
  ok val.shard

module _ (x : External) where
  -- Whether a wallet may become a validator: valid, and with shard 1 in its address. An error of
  -- `GetShardFromAddress` counts as a no.
  unfoldable pub may_validate : Bytes → Outcome Bool
  may_validate wallet = do
    valid ← is_wallet_valid x wallet
    if not valid then ok false else elim (get_shard_from_address x wallet) [
      | ok shard ↦ ok (shard == 1)
      | err _ ↦ ok false
      | panic ↦ panic
    ]

  -- `AddValidator`; the result is true when the validator already exists. The shard that is passed
  -- in is not used.
  unfoldable pub add_validator :
      ValidatorsBook → Bytes → ℤ → Bytes → Transaction → ℕ → Outcome (ValidatorsBook × Bool)
  unfolding may_validate
  add_validator v wallet dynasty pub_schnorr_key transaction shard =
      if check_is_validator v wallet then ok (v, true) else elim (x.parse_point pub_schnorr_key) [
        | none ↦ ok (v, false)
        | some public_key ↦ do
          allowed ← may_validate wallet
          let val : Validator = record {
            wallet = wallet;
            start_dynasty = dynasty;
            end_dynasty = negsuc 0;
            stake = transaction.amount;
            shard = 1;
            schnorr_public_key = public_key;
          }
          let grown : ValidatorsBook = record {
            vals_withdraw = insert wallet transaction v.vals_withdraw;
            vals_array = insert wallet val v.vals_array;
          }
          ok (if allowed then grown else v, false)
      ]

  -- The state writes at the end of `CheckWithdraw`; the book has lost the validator already.
  unfoldable pub refund : Blockchain → Bytes → ℕ → Outcome Blockchain
  refund bc wallet amount = do
    state ← get_wallet_state x bc wallet
    set_state x bc wallet (record state { balance = (state.balance + amount) % 2 ^ 64 })

  -- The part of `CheckWithdraw` inside its test: the validator leaves the book, then is paid.
  unfoldable pub release :
      ValidatorsBook
      → Bytes
      → Blockchain
      → Transaction
      → Outcome (ValidatorsBook × Blockchain × Bool)
  unfolding refund
  release v wallet bc t = do
    sender ← bytes_to_address x t.sender 1
    let gone : ValidatorsBook = record v { vals_array = erase wallet v.vals_array }
    if not (sender == wallet) then ok (v, bc, false) else elim (refund bc wallet t.amount) [
      | ok bc' ↦ ok (gone, bc', true)
      | err _ ↦ ok (gone, bc, false)
      | panic ↦ panic
    ]

  -- The test of `CheckWithdraw` on the block number.
  unfoldable pub in_release_window : Validator → Blockchain → Bool
  in_release_window val bc =
      ltb bc.current_block (to_u64 (wrap_i64 (val.end_dynasty +ℤ pos 2903040)))

  -- `CheckWithdraw`: the book and the chain afterwards, and the result.
  unfoldable pub check_withdraw :
      ValidatorsBook → Bytes → Blockchain → Outcome (ValidatorsBook × Blockchain × Bool)
  unfolding release in_release_window
  check_withdraw v wallet bc = elim (lookup wallet v.vals_withdraw) [
    | none ↦ ok (v, bc, false)
    | some t ↦ elim (lookup wallet v.vals_array) [
      | none ↦ ok (v, bc, false)
      | some val ↦ if in_release_window val bc then release v wallet bc t else ok (v, bc, true)
    ]
  ]
