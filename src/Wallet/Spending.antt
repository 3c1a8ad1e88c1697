-- ===== src/Wallet/Spending.antt =====
-- wallet/wallet.go, `RawTransaction`: what it takes from the balance of the wallet.
use dexmd.Base.{
  ℕ, ◌+◌, ◌-◌, ◌^◌, ◌≤◌, ◌<◌, ◌≡◌, true, arith, Bytes, bytes_eq, nat_eq, ok, err, Error,
}
use dexmd.Base.Int.{pos, negsuc}
use dexmd.External.{External}
use dexmd.Wallet.{cost, Wallet, is_wallet_valid, raw_transaction}

cost_small : (amount gas : ℕ) → amount + gas < 2 ^ 63 → cost amount gas ≡ pos (amount + gas)
unfolding cost
cost_small amount gas h = ground arith

cost_large :
    (amount gas : ℕ)
    → 2 ^ 63 ≤ amount + gas
    → amount + gas < 2 ^ 64
    → cost amount gas ≡ negsuc (2 ^ 64 - 1 - (amount + gas))
unfolding cost
cost_large amount gas h k = ground arith

module _ (x : External) (w : Wallet) (recipient payload : Bytes) (amount gas shard nonce b : ℕ)
    (valid : is_wallet_valid x recipient ≡ ok true) (balance : w.balance ≡ pos b)
    (fits : b < 2 ^ 63) where
  -- For a valid recipient, a balance that is not negative and a cost below 2^63: `RawTransaction`
  -- refuses and leaves the wallet alone if the cost is more than the balance, and otherwise takes
  -- exactly the cost from it.
  pub raw_transaction_spends :
      amount + gas < 2 ^ 63
      → let (w', made) = raw_transaction x w recipient amount gas payload shard nonce in
        (b < amount + gas → (w' ≡ w) × (made ≡ err Error.wallet_balance))
        × (amount + gas ≤ b → w'.balance ≡ pos (b - (amount + gas)))
  unfolding raw_transaction
  raw_transaction_spends small =
      let paid = cost_small amount gas small in
      (λ over. (ground (arith, paid), ground (arith, paid)), λ covered. ground (arith, paid))

  -- A cost of 2^63 or more is negative once it is an `int`: `RawTransaction` then lets any balance
  -- pay for it, and the balance grows, as long as the sum is an `int`.
  pub raw_transaction_grows :
      2 ^ 63 ≤ amount + gas
      → amount + gas < 2 ^ 64
      → b + (2 ^ 64 - (amount + gas)) < 2 ^ 63
      → (raw_transaction x w recipient amount gas payload shard nonce).0.balance
        ≡ pos (b + (2 ^ 64 - (amount + gas)))
  unfolding raw_transaction
  raw_transaction_grows large u64 room = ground (arith, cost_large amount gas large u64)
