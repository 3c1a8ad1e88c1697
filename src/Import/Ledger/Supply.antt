-- ===== src/Import/Ledger/Supply.antt =====
-- networking/import.go, `ImportBlock`: plain transfers make and lose no money but the gas.
use dexmd.Import.Ledger.Blocks.{import_block-pay_all}
use dexmd.Import.Ledger.{
  go, import_block, validate_block, Block, ValidatorsBook, Blockchain, Machine, Balances,
  RoundTrips, Stores, External, subst, Ledger, credit, debit, pay, pay_all, address_of, Affordable,
  ledger_of, Writable,
}
use dexmd.Proto.{Transaction}
use dexmd.Casper.{mem_bytes}
use dexmd.Base.{
  bytes_beq_iff, ℕ, ◌+◌, ◌≤◌, ◌≡◌, ◌≢◌, inl, inr, refl, ap, ◌∙◌, List, [], ◌∷◌, true, false, arith,
  Bytes, bytes_eq, nat_eq, ◌==◌, Bool-cases, ok,
}

-- What some wallets have together.
abbrev pub total : List Bytes → Ledger → ℕ
total [] l = 0
total (w ∷ ws) l = l w + total ws l

-- No wallet is listed twice.
abbrev pub Distinct : List Bytes → Type 0
Distinct [] = Unit
Distinct (w ∷ ws) = (mem_bytes w ws ≡ false) × Distinct ws

-- The gas of some transactions together.
abbrev pub gas_of : List Transaction → ℕ
gas_of [] = 0
gas_of (t ∷ ts) = t.gas + gas_of ts

total-credit_absent :
    (r : Bytes) (k : ℕ) (l : Ledger) (ws : List Bytes)
    → mem_bytes r ws ≡ false
    → total ws (credit r k l) ≡ total ws l
unfolding credit mem_bytes
total-credit_absent r k l [] h = refl
total-credit_absent r k l (w ∷ ws) h =
    let other : (r == w) ≡ false = ground arith in
    let rest = total-credit_absent r k l ws (ground arith) in rw other (ap (λ n. l w + n) rest)

total-debit_absent :
    (a : Bytes) (k : ℕ) (l : Ledger) (ws : List Bytes)
    → mem_bytes a ws ≡ false
    → total ws (debit a k l) ≡ total ws l
unfolding debit mem_bytes
total-debit_absent a k l [] h = refl
total-debit_absent a k l (w ∷ ws) h =
    let other : (a == w) ≡ false = ground arith in
    let rest = total-debit_absent a k l ws (ground arith) in rw other (ap (λ n. l w + n) rest)

absent_after :
    (r w : Bytes) (ws : List Bytes)
    → (r == w) ≡ true
    → mem_bytes w ws ≡ false
    → mem_bytes r ws ≡ false
absent_after r w ws same absent = ap (λ k. mem_bytes k ws) ((bytes_beq_iff r w).0 same) ∙ absent

total-credit :
    (r : Bytes) (k : ℕ) (l : Ledger) (ws : List Bytes)
    → Distinct ws
    → mem_bytes r ws ≡ true
    → total ws (credit r k l) ≡ total ws l + k
unfolding credit mem_bytes
total-credit r k l [] distinct there = absurd (cc)
total-credit r k l (w ∷ ws) (fresh, distinct) there = elim (Bool-cases (r == w)) [
  | inl same ↦
      let rest = total-credit_absent r k l ws (absent_after r w ws same fresh) in
      rw same (omega (arith, rest))
  | inr other ↦
      let rest = total-credit r k l ws distinct (ground arith) in rw other (omega (arith, rest))
]

total-debit :
    (a : Bytes) (k : ℕ) (l : Ledger) (ws : List Bytes)
    → Distinct ws
    → mem_bytes a ws ≡ true
    → k ≤ l a
    → total ws (debit a k l) + k ≡ total ws l
unfolding debit mem_bytes
total-debit a k l [] distinct there covered = absurd (cc)
total-debit a k l (w ∷ ws) (fresh, distinct) there covered = elim (Bool-cases (a == w)) [
  | inl same ↦
      let rest = total-debit_absent a k l ws (absent_after a w ws same fresh) in
      let enough : k ≤ l w = subst (λ b. k ≤ l b) ((bytes_beq_iff a w).0 same) covered in
      rw same (omega (arith, rest, enough))
  | inr other ↦
      let rest = total-debit a k l ws distinct (ground arith) covered in
      rw other (omega (arith, rest))
]

module _ (x : External) where
  -- Both wallets of every transfer are among the ones that are counted.
  abbrev pub Counted : List Bytes → List Transaction → Type 0
  Counted ws [] = Unit
  Counted ws (t ∷ ts) =
      (mem_bytes (address_of x t) ws ≡ true) × (mem_bytes t.recipient ws ≡ true) × Counted ws ts

  total-pay :
      (ws : List Bytes) (t : Transaction) (l : Ledger)
      → Distinct ws
      → mem_bytes (address_of x t) ws ≡ true
      → mem_bytes t.recipient ws ≡ true
      → t.amount + t.gas ≤ l (address_of x t)
      → total ws (pay x t l) + t.gas ≡ total ws l
  unfolding pay
  total-pay ws t l distinct sender recipient covered =
      let from = total-debit (address_of x t) (t.amount + t.gas) l ws distinct sender covered in
      let to =
        total-credit t.recipient t.amount (debit (address_of x t) (t.amount + t.gas) l) ws distinct
          recipient in
      omega (arith, from, to)

  total-pay_all :
      (ws : List Bytes) (ts : List Transaction) (l : Ledger)
      → Distinct ws
      → Counted ws ts
      → Affordable x ts l
      → total ws (pay_all x ts l) + gas_of ts ≡ total ws l
  unfolding pay_all
  total-pay_all ws [] l distinct counted fits = omega arith
  total-pay_all ws (t ∷ ts) l distinct (sender, recipient, counted) (plain, covered, room, rest) =
      let first = total-pay ws t l distinct sender recipient covered in
      let others = total-pay_all ws ts (pay x t l) distinct counted rest in
      omega (arith, first, others)

  -- With databases that keep what is written and whose writes succeed, account states that decode to what
  -- was encoded, and uint64 balances: `ImportBlock` of an accepted block, other than the genesis block, of
  -- plain transfers that are affordable in their order goes through, and any wallets that include all
  -- senders and recipients have together exactly the gas of the block less than before.
  pub import_block-conserves :
      Stores x
      → RoundTrips x.account
      → Balances x
      → Writable x
      → (m : Machine) (wallets : List (Bytes × Bytes)) (draw : ℕ → ℕ) (bc : Blockchain)
        (v : ValidatorsBook) (block : Block) (ws : List Bytes)
      → block.index ≢ 0
      → validate_block x bc block ≡ ok true
      → Affordable x block.transactions (ledger_of x bc)
      → Distinct ws
      → Counted ws block.transactions
      → (bc' : Blockchain) × (import_block x m wallets draw bc v block ≡ go bc' v)
        × (total ws (ledger_of x bc') + gas_of block.transactions ≡ total ws (ledger_of x bc))
  import_block-conserves stores trips bound writable m wallets draw bc v block ws later accepted
        fits distinct counted =
      let (bc', ends, is) =
        import_block-pay_all x stores trips bound writable m wallets draw bc v block later accepted
          fits in
      (
        bc',
        ends,
        ap (λ l. total ws l + gas_of block.transactions) is
            ∙ total-pay_all ws block.transactions (ledger_of x bc) distinct counted fits,
      )
