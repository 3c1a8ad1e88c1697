-- ===== src/Contracts/Payments.antt =====
-- blockchain/api.go, `pay`: what a contract can pay.
use dexmd.Base.{
  Outcome-cases, ℕ, ◌+◌, ◌^◌, ◌<◌, ◌≡◌, inl, inr, true, false, arith, Bytes, bytes_eq, nat_eq, ok,
}
use dexmd.Base.Int.{ℤ, pos}
use dexmd.External.{External}
use dexmd.Util.{add_i64o}
use dexmd.Wallet.{is_wallet_valid}
use dexmd.Contracts.{Machine, Contract, reverted}
use dexmd.Contracts.Host.{read_string, pay}

-- A payment of an amount and gas that are not negative and fit together into an int64 is always
-- reverted, whatever the balance of the contract is, and puts out no receipt.
pub pay-reverts :
    (x : External) (m : Machine) (read_at : ℤ → ℕ → Bytes) (c c' : Contract) (to : ℤ) (amnt gas : ℕ)
    → amnt + gas < 2 ^ 63
    → pay x m read_at c to (pos amnt) (pos gas) ≡ ok c'
    → (c'.return.reverted ≡ true) × (c'.return.outputs ≡ c.return.outputs)
unfolding pay reverted add_i64o
pay-reverts x m read_at c c' to amnt gas fits h =
    elim (Outcome-cases (is_wallet_valid x (read_string read_at to))) [
      | inr bad ↦ absurd (ground arith)
      | inl (true, valid) ↦ (ground arith, ground arith)
      | inl (false, invalid) ↦ (ground arith, ground arith)
    ]
