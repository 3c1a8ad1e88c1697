-- ===== src/Import/Transfers.antt =====
-- networking/import.go, the two state writes of a transfer in `ImportBlock`.
use dexmd.Base.{
  Outcome-cases, ◌+◌, ◌-◌, ◌%◌, ◌^◌, ◌≤◌, ◌<◌, ◌≡◌, ◌≢◌, inl, inr, refl, sym, ap, ◌∙◌, true, arith,
  Bytes, bytes_eq, nat_eq, ◌==◌, if◌then◌else◌, ok,
}
use dexmd.Base.{eq_self, ne_beq}
use dexmd.Proto.{Transaction, AccountState}
use dexmd.External.{External, Stores, RoundTrips}
use dexmd.Chain.{Blockchain, get_wallet_state, set_state}
use dexmd.Chain.Frame.{get_wallet_state-set_state}
use dexmd.Import.{transfer}

module _ (x : External) (stores : Stores x) (trips : RoundTrips x.account) (bc bc' : Blockchain)
    (sender : Bytes) (sender_balance reciver_balance : AccountState) (t : Transaction)
    (written : transfer x bc sender sender_balance reciver_balance t ≡ (bc', true)) where
  charged : AccountState
  charged = record sender_balance {
    balance = (sender_balance.balance + 2 ^ 64 - (t.amount + t.gas) % 2 ^ 64) % 2 ^ 64;
  }

  credited : AccountState
  credited = record reciver_balance { balance = (reciver_balance.balance + t.amount) % 2 ^ 64 }

  -- The recipient's write comes last.
  transfer-writes :
      (j : Bytes)
      → get_wallet_state x bc' j ≡ (
          if t.recipient == j
          then ok credited
          else if sender == j
          then ok charged
          else get_wallet_state x bc j)
  unfolding transfer charged credited
  transfer-writes j = elim (Outcome-cases (set_state x bc sender charged)) [
    | inr bad ↦ absurd (ground arith)
    | inl (bc1, first) ↦ elim (Outcome-cases (set_state x bc1 t.recipient credited)) [
      | inr bad ↦ absurd (ground arith)
      | inl (bc2, second) ↦
          let same : bc2 ≡ bc' = ground arith in
          ap (λ b. get_wallet_state x b j) (sym same)
          ∙ (get_wallet_state-set_state x stores trips bc1 bc2 t.recipient credited second j
              ∙ ap (λ o. if t.recipient == j then ok credited else o)
                  (get_wallet_state-set_state x stores trips bc bc1 sender charged first j))
    ]
  ]

  -- With databases that keep what is written and account states that decode to what was encoded, for
  -- a transfer between two different wallets that is written, covered by the sender and not too large
  -- for the recipient: the sender loses the amount and the gas, the recipient gains the amount, and
  -- every other wallet has the state that it had.
  pub transfer_conserves :
      sender ≢ t.recipient
      → t.amount + t.gas ≤ sender_balance.balance
      → sender_balance.balance < 2 ^ 64
      → reciver_balance.balance + t.amount < 2 ^ 64
      → (get_wallet_state x bc' sender
          ≡ ok (record { balance = sender_balance.balance - (t.amount + t.gas) }))
        × (get_wallet_state x bc' t.recipient
            ≡ ok (record { balance = reciver_balance.balance + t.amount }))
        × ((j : Bytes)
            → sender ≢ j
            → t.recipient ≢ j
            → get_wallet_state x bc' j ≡ get_wallet_state x bc j)
  unfolding charged credited
  transfer_conserves differ covered bound room =
      let loses : charged ≡ record { balance = sender_balance.balance - (t.amount + t.gas) } =
        ap (λ b. record { balance = b }) (omega arith) in
      let gains : credited ≡ record { balance = reciver_balance.balance + t.amount } =
        ap (λ b. record { balance = b }) (omega arith) in
      (
        transfer-writes sender
            ∙ rw (ne_beq t.recipient sender (λ e. differ (sym e)), eq_self sender) (ap ok loses),
        transfer-writes t.recipient ∙ rw (eq_self t.recipient) (ap ok gains),
        λ j ns nr. transfer-writes j ∙ rw (ne_beq t.recipient j nr, ne_beq sender j ns) refl,
      )

  -- With databases that keep what is written and account states that decode to what was encoded: a
  -- wallet that pays itself ends with the amount added and nothing taken, when the recipient's
  -- state was read as the same one and the sum fits.
  pub self_transfer_mints :
      sender ≡ t.recipient
      → reciver_balance.balance ≡ sender_balance.balance
      → sender_balance.balance + t.amount < 2 ^ 64
      → get_wallet_state x bc' sender ≡ ok (record { balance = sender_balance.balance + t.amount })
  unfolding credited
  self_transfer_mints same read room =
      let gains : credited ≡ record { balance = sender_balance.balance + t.amount } =
        ap (λ b. record { balance = b }) (omega (arith, read)) in
      transfer-writes sender
      ∙ (ap
            (λ w.
              if w == sender
              then ok credited
              else if sender == sender
              then ok charged
              else get_wallet_state x bc sender)
            (sym same)
          ∙ rw (eq_self sender) (ap ok gains))
