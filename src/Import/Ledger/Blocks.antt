-- ===== src/Import/Ledger/Blocks.antt =====
-- networking/import.go, `ImportBlock`: an accepted block of plain transfers, and the ledger after it.
use mathlib.Core.List.{Memᴰ}
use dexmd.Validation.Repeats.{All-Memᴰ, validate_block-fresh}
use dexmd.Validation.{already_included, transaction_hash}
use dexmd.Text.{rune_string}
use dexmd.Import.Loop.{draws_shard, import_block, import_transactions}
use dexmd.Import.Transfers.{transfer_conserves}
use dexmd.Chain.{get_wallet_state}
use dexmd.Base.{
  bytes_beq_refl, ℕ, suc, ◌+◌, ◌-◌, ◌^◌, ◌≤◌, ◌<◌, ◌≡◌, ◌≢◌, inl, inr, refl, sym, ap, ◌∙◌, List, [],
  ◌∷◌, Bool, true, false, ◌||◌, arith, Bytes, bytes_eq, nat_eq, ◌==◌, if◌then◌else◌, Bool-cases,
  All, ok,
}
use std.Path.{subst, fun_ext}
use dexmd.Base.{nat_beq_iff}
use dexmd.Base.{bytes_beq_iff, ne_beq}
use dexmd.External.{External, Stores, RoundTrips, Balances}
use dexmd.Import.{
  rune_string, validate_block, Block, ValidatorsBook, Machine, mark_included, AccountState,
  state_or_zero, Blockchain, Transaction, transfer, go,
}
use dexmd.Import.Ledger.{
  debit, credit, address_of, pay, pay_all, IsPlain, Affordable, ledger_of, Writable,
  transfer-written, ledger_of-known, known_of_balance, ledger_of-bound, ledger_of-mark_included,
  ledger_of-same, import_transaction-plain,
}

or_true : (b : Bool) → (b || true) ≡ true
or_true true = refl
or_true false = refl

module _ (x : External) (stores : Stores x) (trips : RoundTrips x.account) (bound : Balances x)
    (writable : Writable x) where
  transfer-pay :
      (bc bc1 : Blockchain) (t : Transaction) (state : AccountState)
      → IsPlain x t
      → get_wallet_state x bc (address_of x t) ≡ ok state
      → t.amount + t.gas ≤ state.balance
      → ledger_of x bc t.recipient + t.amount < 2 ^ 64
      → transfer x bc (address_of x t) state (state_or_zero x bc t.recipient) t ≡ (bc1, true)
      → (w : Bytes) → ledger_of x bc1 w ≡ pay x t (ledger_of x bc) w
  unfolding pay credit debit ledger_of
  transfer-pay bc bc1 t state plain known covered room written w =
      let (sender_is, recipient_is, others) =
        transfer_conserves x stores trips bc bc1 (address_of x t) state
          (state_or_zero x bc t.recipient) t written plain.no_self covered
          (rw (← ledger_of-known x bc (address_of x t) state known)
            (ledger_of-bound x bound bc (address_of x t)))
          room in
      let a = address_of x t in
      let r = t.recipient in
      let at_a : ledger_of x bc1 a ≡ state.balance - (t.amount + t.gas) =
        ledger_of-known x bc1 a _ sender_is in
      let at_r : ledger_of x bc1 r ≡ ledger_of x bc r + t.amount =
        ledger_of-known x bc1 r _ recipient_is in
      let from = ledger_of-known x bc a state known in
      elim (Bool-cases (r == w)) [
        | inl to ↦
            let e : r ≡ w = (bytes_beq_iff r w).0 to in
            let not_from : (a == w) ≡ false = ne_beq a w (λ f. plain.no_self (f ∙ sym e)) in
            rw (to, not_from)
              (ap (ledger_of x bc1) (sym e) ∙ (at_r ∙ ap (λ k. ledger_of x bc k + t.amount) e))
        | inr not_to ↦ elim (Bool-cases (a == w)) [
          | inl pays ↦
              let e : a ≡ w = (bytes_beq_iff a w).0 pays in
              rw (not_to, pays)
                (ap (ledger_of x bc1) (sym e)
                  ∙ (at_a
                      ∙ (ap (λ b. b - (t.amount + t.gas)) (sym from)
                          ∙ ap (λ k. ledger_of x bc k - (t.amount + t.gas)) e)))
          | inr not_pays ↦
              let na : a ≢ w = λ e. ground (arith, bytes_beq_iff a w, e) in
              let nr : r ≢ w = λ e. ground (arith, bytes_beq_iff r w, e) in
              rw (not_to, not_pays) (ledger_of-same x bc1 bc w (others w na nr))
        ]
      ]

  -- What a chain with other balances has as included.
  already_included-same :
      (bc bc1 : Blockchain) (u : Transaction)
      → bc1.block_db ≡ bc.block_db
      → already_included x bc1 u ≡ already_included x bc u
  unfolding already_included
  already_included-same bc bc1 u same = rw (already_included, same) refl

  module _ (index : ℕ) (unreadable : x.transaction.decodes (rune_string index) ≡ false) where
    -- A transaction that is marked is included, and so is what was before.
    already_included-mark_included :
        (bc : Blockchain) (t u : Transaction)
        → already_included x (mark_included x bc t index) u
          ≡ ((transaction_hash x t == transaction_hash x u) || already_included x bc u)
    unfolding mark_included already_included
    already_included-mark_included bc t u =
        let key = transaction_hash x t in
        let deleted = x.delete bc.block_db key in
        let (db, put) = writable.put_some deleted key (rune_string index) in
        let j = transaction_hash x u in
        let stored = stores.get-put deleted key (rune_string index) db put j in
        let gone = stores.get-delete bc.block_db key j in
        elim (Bool-cases (key == j)) [
          | inl same ↦ ground (arith, put, unreadable, stored)
          | inr other ↦ ground (arith, put, stored, gone)
        ]

  -- What the loop over plain transfers does.
  record Ran (m : Machine) (index : ℕ) (draw : ℕ → ℕ) (i : ℕ) (bc : Blockchain) (v : ValidatorsBook)
      (ts : List Transaction) : Type 0 where
    after : Blockchain
    ends : import_transactions x m index draw i bc v ts ≡ go after v
    pays : ledger_of x after ≡ pay_all x ts (ledger_of x bc)
    marks :
        x.transaction.decodes (rune_string index) ≡ false
        → All (λ t. already_included x after t ≡ true) ts
          × ((u : Transaction) → already_included x bc u ≡ true → already_included x after u ≡ true)

  import_transactions-Ran :
      (m : Machine) (index : ℕ) (draw : ℕ → ℕ) (i : ℕ) (bc : Blockchain) (v : ValidatorsBook)
      (ts : List Transaction)
      → Affordable x ts (ledger_of x bc)
      → Ran m index draw i bc v ts
  unfolding import_transactions pay_all
  import_transactions-Ran m index draw i bc v [] fits = record {
    after = bc;
    ends = refl;
    pays = refl;
    marks = λ unreadable. (tt, λ u there. there);
  }
  import_transactions-Ran m index draw i bc v (t ∷ ts) (plain, covered, room, rest) =
      let (state, known) =
        known_of_balance x bc (address_of x t) (omega (arith, plain.some_gas, covered)) in
      let enough : t.amount + t.gas ≤ state.balance =
        omega (arith, covered, ledger_of-known x bc (address_of x t) state known) in
      let (bc1, written, same) =
        transfer-written x writable bc (address_of x t) state (state_or_zero x bc t.recipient) t in
      let bc2 = mark_included x bc1 t index in
      let paid : ledger_of x bc2 ≡ pay x t (ledger_of x bc) =
        ledger_of-mark_included x bc1 t index
        ∙ fun_ext (transfer-pay bc bc1 t state plain known enough room written) in
      let i' = if draws_shard x m bc t then suc i else i in
      let ran =
        import_transactions-Ran m index draw i' bc2 v ts
          (subst (Affordable x ts) (sym paid) rest) in
      record {
        after = ran.after;
        ends =
            rw
              (
                import_transactions,
                import_transaction-plain x m index (draw i) bc bc1 v t state plain known written,
              )
              ran.ends;
        pays = ran.pays ∙ ap (pay_all x ts) paid;
        marks = λ unreadable.
            let (marked, keeps) = ran.marks unreadable in
            let mark = already_included-mark_included index unreadable bc1 t in
            (
              (keeps t (mark t ∙ rw (bytes_beq_refl (transaction_hash x t)) refl), marked),
              λ u there.
                  let before = already_included-same bc bc1 u same ∙ there in
                  keeps u
                    (mark u ∙ rw before (or_true (transaction_hash x t == transaction_hash x u))),
            );
      }

  -- With databases that keep what is written and whose writes succeed, account states that decode to
  -- what was encoded, and uint64 balances: `ImportBlock` of an accepted block, other than the genesis
  -- block, of plain transfers that are affordable in their order goes through all of them, changes no
  -- validator, and leaves the chain with exactly the balances of the ledger after these transfers.
  pub import_block-pay_all :
      (m : Machine) (wallets : List (Bytes × Bytes)) (draw : ℕ → ℕ) (bc : Blockchain)
      (v : ValidatorsBook) (block : Block)
      → block.index ≢ 0
      → validate_block x bc block ≡ ok true
      → Affordable x block.transactions (ledger_of x bc)
      → (bc' : Blockchain) × (import_block x m wallets draw bc v block ≡ go bc' v)
        × (ledger_of x bc' ≡ pay_all x block.transactions (ledger_of x bc))
  unfolding import_block
  import_block-pay_all m wallets draw bc v block later accepted fits =
      let ran = import_transactions-Ran m block.index draw 0 bc v block.transactions fits in
      let index : (block.index == 0) ≡ false = ground (arith, nat_beq_iff block.index 0) in
      (ran.after, rw (import_block, accepted, index) ran.ends, ran.pays)

  -- Under the same conditions, if the block's number, written as a string of one rune, does not decode as a
  -- transaction: after the import `ValidateBlock` accepts no block, other than the genesis block, that
  -- holds one of the transactions again.
  pub import_block-refuses_again :
      (m : Machine) (wallets : List (Bytes × Bytes)) (draw : ℕ → ℕ) (bc : Blockchain)
      (v : ValidatorsBook) (block : Block)
      → block.index ≢ 0
      → validate_block x bc block ≡ ok true
      → Affordable x block.transactions (ledger_of x bc)
      → x.transaction.decodes (rune_string block.index) ≡ false
      → (bc' : Blockchain) × (import_block x m wallets draw bc v block ≡ go bc' v)
        × ((again : Block) (t : Transaction)
            → again.index ≢ 0
            → Memᴰ t block.transactions
            → Memᴰ t again.transactions
            → validate_block x bc' again ≢ ok true)
  unfolding import_block
  import_block-refuses_again m wallets draw bc v block later accepted fits unreadable =
      let ran = import_transactions-Ran m block.index draw 0 bc v block.transactions fits in
      let index : (block.index == 0) ≡ false = ground (arith, nat_beq_iff block.index 0) in
      let marked = (ran.marks unreadable).0 in
      (
        ran.after,
        rw (import_block, accepted, index) ran.ends,
        λ again t later' first second accepts.
            let is = All-Memᴰ (λ t. already_included x ran.after t ≡ true) t _ marked first in
            let not =
              All-Memᴰ (λ t. already_included x ran.after t ≡ false) t _
                (validate_block-fresh x ran.after again later' accepts) second in
            absurd (cc),
      )
