-- ===== src/Import/Crashes.antt =====
-- networking/import.go: what a contract call does to the chain.
use dexmd.Base.{
  nat_beq_iff, Outcome-cases, ℕ, ◌≡◌, ◌≢◌, inl, inr, List, some, Bool, false, arith, bytes_eq,
  nat_eq, Bool-cases, Option-cases, length, ok, panic, lookup,
}
use dexmd.Proto.{Transaction, AccountState, Receipt}
use dexmd.External.{External}
use dexmd.Chain.{Blockchain}
use dexmd.Contracts.{Machine, Contract, get_contract, execute_contract, save_state}
use dexmd.Contracts.Returns.{get_contract-no_db, execute_contract_returns, is_locked_out}
use dexmd.Import.{call_contract}
use dexmd.Pool.{contract_receipts}

module _ (x : External) (m : Machine) (bc : Blockchain) (t : Transaction) (state : AccountState)
    (calls : length t.function ≢ 0) where
  -- A contract call in `ImportBlock` that names a function and does not end the import with an
  -- error or a panic leaves the chain as it was, and the loop goes on to the next transaction
  -- without charging the sender.
  pub call_contract_inert :
      (bc' : Blockchain) (goes_on : Bool)
      → call_contract x m bc t state ≡ ok (bc', goes_on)
      → (bc' ≡ bc) × (goes_on ≡ false)
  unfolding call_contract save_state
  call_contract_inert bc' goes_on h =
      elim (Outcome-cases (get_contract x m t.recipient bc t state.balance)) [
        | inl (c, loaded) ↦
            let facts = get_contract-no_db x m t.recipient bc t state.balance loaded in
            let returns = execute_contract_returns x m c t.function t.args in
            elim (Bool-cases (is_locked_out x m c)) [
              | inl locked ↦
                  absurd
                    (ground (arith, facts, returns.0 locked, nat_beq_iff (length t.function) 0))
              | inr free ↦ elim (Option-cases (execute_contract x m c t.function t.args).1) [
                | inl nil ↦ absurd (ground (arith, nat_beq_iff (length t.function) 0))
                | inr (r, e) ↦
                    let back = returns.1 r free e in
                    (
                      ground (arith, nat_beq_iff (length t.function) 0),
                      ground (arith, nat_beq_iff (length t.function) 0),
                    )
              ]
            ]
        | inr bad ↦ absurd (ground (arith, nat_beq_iff (length t.function) 0))
      ]

  -- A call of a function that a contract exports, where the contract is found and not locked and
  -- the machine runs the function without an error, panics in `ImportBlock` and in `GenerateBlock`.
  pub successful_call_panics :
      (c : Contract) (index : ℕ) (after : Contract) (receipts : List Receipt)
      → get_contract x m t.recipient bc t state.balance ≡ ok c
      → is_locked_out x m c ≡ false
      → lookup t.function c.module_exports ≡ some index
      → m.exec_code
          (record c { vm_memory = c.state.memory; vm_globals = c.state.globals })
          index
          t.args
        ≡ (after, false)
      → (call_contract x m bc t state ≡ panic)
        × (contract_receipts x m bc t state.balance receipts ≡ panic)
  unfolding call_contract contract_receipts execute_contract is_locked_out
  successful_call_panics c index after receipts loaded free there ran = (
    ground (arith, nat_beq_iff (length t.function) 0),
    ground (arith, nat_beq_iff (length t.function) 0),
  )
