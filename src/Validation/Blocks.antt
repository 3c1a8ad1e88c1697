-- ===== src/Validation/Blocks.antt =====
-- blockchain/processing.go, `ValidateBlock`: what an accepted block may cost its senders.
use dexmd.Base.{
  nat_beq_iff, Outcome-cases, ℕ, ◌+◌, ◌-◌, ◌^◌, ◌≤◌, ◌<◌, ◌≡◌, ◌≢◌, inl, inr, [], none, some, true,
  false, arith, Bytes, bytes_eq, nat_eq, All, ok, insert,
}
use dexmd.Proto.{Transaction, AccountState, Block}
use dexmd.External.{External, Balances}
use dexmd.Util.{add_u64o, sub_u64o}
use dexmd.Wallet.{bytes_to_address}
use dexmd.Chain.{Blockchain, get_wallet_state}
use dexmd.Validation.{
  Tainted, current_state, already_included, validate_step, validate_loop, validate_block,
}
use dexmd.Validation.Spends.{
  Fits, IsSigned, spent, remaining-loop, remaining-start, remaining-chain, validate_loop-IsSigned,
}

add_u64o-wraps :
    (a b : ℕ) → a < 2 ^ 64 → b < 2 ^ 32 → 2 ^ 64 ≤ a + b → add_u64o a b ≡ (a + b - 2 ^ 64, false)
unfolding add_u64o
add_u64o-wraps a b ha hb h = ground arith

pub sub_u64o-covered : (a b : ℕ) → a < 2 ^ 64 → b ≤ a → sub_u64o a b ≡ (a - b, true)
unfolding sub_u64o
sub_u64o-covered a b ha h = ground arith

module _ (x : External) (bc : Blockchain) where
  -- A block other than the genesis block that `ValidateBlock` accepts carries only transactions whose
  -- signatures verify, and if no amount overflows with its gas and the balances are uint64 values,
  -- the transactions of each sender cost together at most the balance that it has on the chain.
  pub validate_block-spends :
      Balances x
      → (block : Block) → block.index ≢ 0
      → All (Fits x bc) block.transactions
      → validate_block x bc block ≡ ok true
      → All (IsSigned x bc) block.transactions
        × ((a : Bytes) (state : AccountState)
            → get_wallet_state x bc a ≡ ok state
            → spent x bc a block.transactions ≤ state.balance)
  unfolding validate_block
  validate_block-spends u block later fits h =
      elim (Outcome-cases (validate_loop x bc [] block.transactions)) [
        | inl (some last, e) ↦ (
          validate_loop-IsSigned x bc [] block.transactions e,
          λ a state found. omega (
            arith,
            remaining-loop x bc a [] block.transactions fits (remaining-start x bc u) e,
            remaining-chain x bc a state found,
          ),
        )
        | inl (none, e) ↦ absurd (ground (arith, nat_beq_iff block.index 0))
        | inr bad ↦ absurd (ground (arith, nat_beq_iff block.index 0))
      ]

  -- A transaction whose amount and gas overflow together is charged only what is left of the sum
  -- after 2^64: if that much is covered, the loop of `ValidateBlock` goes on.
  pub validate_step-overflow :
      (tainted : Tainted x) (t : Transaction) (sender : Bytes) (state : AccountState)
      → bytes_to_address x t.sender t.shard ≡ ok sender
      → IsSigned x bc t
      → current_state x bc tainted sender ≡ ok state
      → already_included x bc t ≡ false
      → state.balance < 2 ^ 64
      → t.amount < 2 ^ 64
      → t.gas < 2 ^ 32
      → 2 ^ 64 ≤ t.amount + t.gas
      → t.amount + t.gas - 2 ^ 64 ≤ state.balance
      → validate_step x bc tainted t
        ≡ ok (
            some (
              insert sender
                (record state { balance = state.balance - (t.amount + t.gas - 2 ^ 64) })
                tainted))
  unfolding validate_step
  validate_step-overflow tainted t sender state e signed found fresh b amount gas over covered =
      let sum : add_u64o t.amount t.gas ≡ (t.amount + t.gas - 2 ^ 64, false) =
        add_u64o-wraps t.amount t.gas amount gas over in
      let left : sub_u64o state.balance (t.amount + t.gas - 2 ^ 64)
          ≡ (state.balance - (t.amount + t.gas - 2 ^ 64), true) =
        sub_u64o-covered state.balance (t.amount + t.gas - 2 ^ 64) b covered in
      rw (e, signed, found, fresh, sum, left) (ground arith)
