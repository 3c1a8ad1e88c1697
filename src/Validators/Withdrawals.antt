-- ===== src/Validators/Withdrawals.antt =====
-- blockchain/validators.go, `CheckWithdraw`: the stake is paid back once, and when.
use dexmd.Base.{
  ℕ, ◌+◌, ◌%◌, ◌^◌, ◌≤◌, ◌<◌, ◌≡◌, refl, ap, ◌∙◌, some, true, false, arith, Bytes, bytes_eq, nat_eq,
  ok, lookup, erase,
}
use dexmd.Base.{eq_self}
use dexmd.Base.Int.{pos, negsuc, to_u64, wrap_i64, ◌+ℤ◌}
use dexmd.Proto.{Transaction, AccountState}
use dexmd.External.{External, Stores, RoundTrips}
use dexmd.Wallet.{bytes_to_address}
use dexmd.Chain.{Blockchain, get_wallet_state, set_state}
use dexmd.Chain.Frame.{get_wallet_state-set_state}
use dexmd.Validators.{ValidatorsBook, Validator, check_withdraw, release, refund, in_release_window}

window_end :
    (left : ℕ)
    → left + 2903040 < 2 ^ 63
    → to_u64 (wrap_i64 (pos left +ℤ pos 2903040)) ≡ left + 2903040
window_end left fits = ground arith

never_window :
    (val : Validator)
    → val.end_dynasty ≡ negsuc 0
    → to_u64 (wrap_i64 (val.end_dynasty +ℤ pos 2903040)) ≡ 2903039
never_window val never = ap (λ z. to_u64 (wrap_i64 (z +ℤ pos 2903040))) never

module _ (x : External) (v : ValidatorsBook) (wallet : Bytes) (bc : Blockchain) (t : Transaction)
    (val : Validator) (payment : lookup wallet v.vals_withdraw ≡ some t)
    (there : lookup wallet v.vals_array ≡ some val) where
  -- For a validator that left at a block and whose stake was paid in, with block numbers below
  -- 2^63: once 2903040 blocks have passed since then, `CheckWithdraw` returns true, pays nothing
  -- and keeps the validator.
  pub check_withdraw_after_window :
      (left : ℕ)
      → val.end_dynasty ≡ pos left
      → left + 2903040 < 2 ^ 63
      → left + 2903040 ≤ bc.current_block
      → check_withdraw x v wallet bc ≡ ok (v, bc, true)
  unfolding check_withdraw in_release_window
  check_withdraw_after_window left ended fits late =
      let sum : to_u64 (wrap_i64 (val.end_dynasty +ℤ pos 2903040)) ≡ left + 2903040 =
        ap (λ z. to_u64 (wrap_i64 (z +ℤ pos 2903040))) ended ∙ window_end left fits in
      let closed : in_release_window x val bc ≡ false = ground (arith, sum) in
      rw (check_withdraw, payment, there, closed) refl

  -- For a validator that has not left, before block 2903039: if the stake was paid by the wallet's own
  -- key and the balance can be written and read back, `CheckWithdraw` returns true, the validator is gone, and the
  -- wallet has the stake back.
  pub check_withdraw_never_left :
      (bc' : Blockchain) (state : AccountState)
      → Stores x
      → RoundTrips x.account
      → val.end_dynasty ≡ negsuc 0
      → bc.current_block < 2903039
      → bytes_to_address x t.sender 1 ≡ ok wallet
      → get_wallet_state x bc wallet ≡ ok state
      → set_state x bc wallet (record state { balance = (state.balance + t.amount) % 2 ^ 64 })
        ≡ ok bc'
      → (check_withdraw x v wallet bc
          ≡ ok (record v { vals_array = erase wallet v.vals_array }, bc', true))
        × (get_wallet_state x bc' wallet
            ≡ ok (record state { balance = (state.balance + t.amount) % 2 ^ 64 }))
  unfolding check_withdraw in_release_window release refund
  check_withdraw_never_left bc' state stores trips never early address found set =
      let open_window : in_release_window x val bc ≡ true =
        ground (arith, never_window val never) in
      let paid : AccountState = record state { balance = (state.balance + t.amount) % 2 ^ 64 } in
      (
        rw (check_withdraw, payment, there, open_window, address, eq_self wallet, found, set) refl,
        get_wallet_state-set_state x stores trips bc bc' wallet paid set wallet
            ∙ rw (eq_self wallet) refl,
      )
