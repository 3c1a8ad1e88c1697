-- ===== src/Contracts/Returns.antt =====
-- blockchain/exec.go: the pointers that `ExecuteContract` and `GetContract` leave nil.
use dexmd.Base.{
  Outcome-cases, ℕ, ◌≡◌, inl, inr, List, [], none, some, Bool, true, false, not, ◌&&◌, arith, Bytes,
  bytes_eq, nat_eq, ◌==◌, Option-cases, ok, lookup,
}
use dexmd.Proto.{Transaction}
use dexmd.External.{External}
use dexmd.Chain.{Blockchain}
use dexmd.Wallet.{bytes_to_address}
use dexmd.Contracts.{Machine, Contract, ReturnState, get_contract, execute_contract, reverted}

module _ (x : External) (m : Machine) where
  -- A contract that `GetContract` has loaded has no database, so `SaveState` on it panics; the same
  -- after the machine has run, if the machine leaves the field alone.
  pub get_contract-no_db :
      (address : Bytes) (bc : Blockchain) (tr : Transaction) (balance : ℕ) {c : Contract}
      → get_contract x m address bc tr balance ≡ ok c
      → (c.chain_state_db ≡ none) × (c.return.reverted ≡ false) × (c.return.outputs ≡ [])
  unfolding get_contract
  get_contract-no_db address bc tr balance h = elim (Option-cases (bc.contract_db address)) [
    | inl no_code ↦ absurd (ground arith)
    | inr (code, e1) ↦ elim (Option-cases (m.read_module code)) [
      | inl bad ↦ absurd (ground arith)
      | inr (exports, e2) ↦ elim (Option-cases (m.new_vm code)) [
        | inl bad ↦ absurd (ground arith)
        | inr (vm, e3) ↦ elim (Outcome-cases (bytes_to_address x tr.sender tr.shard)) [
          | inl (sender, e4) ↦ (ground arith, ground arith, ground arith)
          | inr bad ↦ absurd (ground arith)
        ]
      ]
    ]
  ]

  unfoldable pub is_locked_out : Contract → Bool
  is_locked_out c = not (c.sender == c.state.allowed_wallet) && c.state.locked

  -- What `ExecuteContract` returns: the contract's own return state for a locked contract, nil for
  -- a call that succeeds, and otherwise a return state that is reverted.
  pub execute_contract_returns :
      (c : Contract) (name : Bytes) (arguments : List ℕ)
      → let returned = (execute_contract x m c name arguments).1 in
        (is_locked_out c ≡ true → (execute_contract x m c name arguments) ≡ (c, some c.return))
        × ((r : ReturnState) → is_locked_out c ≡ false → returned ≡ some r → r.reverted ≡ true)
  unfolding execute_contract is_locked_out reverted
  execute_contract_returns c name arguments = (
    λ locked. rw locked,
    λ r free e. elim (Option-cases (lookup name c.module_exports)) [
      | inl no_export ↦ ground arith
      | inr (index, there) ↦ ground arith
    ],
  )
