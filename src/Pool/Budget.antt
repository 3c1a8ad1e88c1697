-- ===== src/Pool/Budget.antt =====
-- blockchain/pool.go: what the transactions of a generated block may cost their senders.
use dexmd.Base.{
  ℕ, ◌+◌, ◌^◌, ◌≤◌, ◌<◌, ◌≡◌, inl, inr, ap, List, [], ◌∷◌, ◌++◌, some, not, ◌&&◌, ◌||◌, arith,
  Bytes, bytes_eq, nat_eq, ◌==◌, if◌then◌else◌, ltb, Bool-cases, ok, insert,
}
use dexmd.Base.{bytes_beq_iff}
use dexmd.Pool.Cases.{AllStored-queue, fill_block_invariant}
use dexmd.Proto.{Transaction, Receipt, AccountState}
use dexmd.External.{External, Queue, Balances}
use dexmd.Util.{add_u64o, sub_u64o}
use dexmd.Util.Exact.{add_u64o_exact, sub_u64o_exact}
use dexmd.Wallet.{bytes_to_address}
use dexmd.Chain.{Blockchain, get_wallet_state}
use dexmd.Contracts.{Machine}
use dexmd.Validation.{current_state}
use dexmd.Validation.Spends.{
  Fits, is_sender, spent, remaining, remaining-insert, is_sender-address, remaining-current,
  remaining-start, remaining-chain,
}
use dexmd.Validators.{ValidatorsBook}
use dexmd.Pool.{Draft, include, fill_block}

module _ (x : External) (m : Machine) (bc : Blockchain) where
  cost_of : Bytes → Transaction → ℕ
  cost_of a t = if is_sender x bc a t then t.amount + t.gas else 0

  spent-snoc :
      (a : Bytes) (ts : List Transaction) (t : Transaction)
      → spent x bc a (ts ++ t ∷ []) ≡ spent x bc a ts + cost_of a t
  unfolding spent cost_of
  spent-snoc a [] t = omega arith
  spent-snoc a (u ∷ ts) t = omega (arith, spent-snoc a ts t)

  -- What the draft has spent for an address, and what the address has left in it, are together at most
  -- what it began with.
  Within : Draft x → Type 0
  Within d =
      (a : Bytes) → spent x bc a d.transactions + remaining x bc d.tainted a ≤ remaining x bc [] a

  spent-nothing : (a : Bytes) → spent x bc a [] + remaining x bc [] a ≤ remaining x bc [] a
  unfolding spent
  spent-nothing a = omega arith

  charge-Within :
      (d : Draft x) (a sender : Bytes) (t : Transaction) (state : AccountState) (left : ℕ)
      → bytes_to_address x t.sender t.shard ≡ ok sender
      → remaining x bc d.tainted sender ≡ state.balance
      → left + (t.amount + t.gas) ≡ state.balance
      → Within d
      → spent x bc a d.transactions
          + cost_of a t
          + remaining x bc (insert sender (record state { balance = left }) d.tainted) a
        ≤ remaining x bc [] a
  unfolding Within cost_of
  charge-Within d a sender t state left address now paid within =
      let after = remaining-insert x bc a sender (record state { balance = left }) d.tainted in
      let who = is_sender-address x bc a sender t address in
      elim (Bool-cases (sender == a)) [
        | inl same ↦
            let e : remaining x bc d.tainted sender ≡ remaining x bc d.tainted a =
              ap (remaining x bc d.tainted) ((bytes_beq_iff sender a).0 same) in
            ground (arith, after, who, within a, e)
        | inr other ↦ ground (arith, after, who, within a)
      ]

  include-Within :
      Balances x
      → (d : Draft x) (t : Transaction) (sender : Bytes) (state : AccountState)
        (receipts : List Receipt)
      → bytes_to_address x t.sender t.shard ≡ ok sender
      → current_state x bc d.tainted sender ≡ ok state
      → Fits x bc t
      → Within d
      → Within (include x m d t sender state receipts)
  unfolding include Within
  include-Within u d t sender state receipts address current fits within a =
      let now = remaining-current x bc sender state d.tainted current in
      let start = remaining-start x bc u sender in
      let bound : state.balance < 2 ^ 64 = omega (arith, now, within sender, start) in
      let sum = add_u64o_exact t.amount t.gas (omega arith) (omega arith) in
      let total : (add_u64o t.amount t.gas).0 ≡ t.amount + t.gas = ground (arith, sum) in
      let required = (add_u64o t.amount t.gas).0 in
      let (left, covered) = sub_u64o state.balance required in
      let difference = sub_u64o_exact state.balance required bound (omega (arith, total)) in
      elim (Bool-cases
        ((ltb state.balance required && (add_u64o t.amount t.gas).1) || not covered)) [
          | inl skip ↦ rw skip (within a)
          | inr keep ↦
              let paid : left + (t.amount + t.gas) ≡ state.balance =
                ground (arith, difference, total) in
              let charged = charge-Within d a sender t state left address now paid within in
              elim (Bool-cases (x.transaction.encodes t)) [
                | inl encodes ↦
                    rw (keep, encodes) (omega (arith, charged, spent-snoc a d.transactions t))
                | inr unencoded ↦ rw (keep, unencoded) (omega (arith, charged))
              ]
        ]

  -- The transactions that `GenerateBlock` collects for a block, from an empty draft of any length,
  -- cost each sender together at most the balance that it has on the chain, if the balances are uint64
  -- values and no stored transaction has an amount that overflows with its gas.
  pub fill_block-spends :
      Balances x
      → ((key stored : Bytes)
          → bc.block_db key ≡ some stored
          → Fits x bc (x.transaction.decode stored))
      → (v : ValidatorsBook) (miner : Bytes) (queue rest : Queue) (len : ℕ) (d : Draft x)
      → fill_block x m bc v miner queue
          (record { current_len = len; tainted = []; receipts_contracts = []; transactions = [] })
        ≡ ok (d, rest)
      → (a : Bytes) (state : AccountState) → get_wallet_state x bc a ≡ ok state
      → spent x bc a d.transactions ≤ state.balance
  unfolding Within
  fill_block-spends u fits v miner queue rest len d h a state found =
      let start : Draft x = record {
        current_len = len;
        tainted = [];
        receipts_contracts = [];
        transactions = [];
      } in
      let within =
        fill_block_invariant x m bc v miner Within (Fits x bc)
          (λ d t sender state receipts fits address current w.
            include-Within u d t sender state receipts address current fits w)
          queue rest start d (AllStored-queue x bc (Fits x bc) fits queue) (λ b. spent-nothing b) h
          a in
      omega (arith, within, remaining-chain x bc a state found)
