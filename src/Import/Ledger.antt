-- ===== src/Import/Ledger.antt =====
-- networking/import.go, `ImportBlock`: the loop over plain transfers is a run of an abstract ledger.
pub mod Blocks
pub mod Supply
mod Examples
use dexmd.Import.Loop.{draws_shard, import_block, import_transactions}
use dexmd.Import.Transfers.{transfer_conserves}
use dexmd.Chain.{set_state, get_wallet_state}
use dexmd.Base.{
  Outcome-cases, drop, take, keys, ℕ, zero, suc, ◌+◌, ◌-◌, ◌*◌, ◌/◌, ◌%◌, ◌^◌, ◌≤◌, ◌<◌, ◌≡◌, ◌≢◌,
  ◌↔◌, ◌⊎◌, inl, inr, refl, sym, ap, ◌∙◌, List, [], ◌∷◌, ◌++◌, map, Option, none, some, Bool, true,
  false, not, ◌&&◌, ◌||◌, arith, Bytes, bytes_eq, nat_eq, ◌==◌, if◌then◌else◌, ltb, leb, Bool-cases,
  Option-cases, length, All, replicate, Outcome, ok, err, panic, Error, ◌>>=◌, ◌>>◌, fail_if,
  or_fail, or_panic, Dict, lookup, insert, erase, bytes_beq,
}
use dexmd.Base.Int.{ℤ, pos, negsuc, to_i64, to_u64, ltb_ℤ, wrap_i64, negate, ◌+ℤ◌}
use std.Path.{subst, fun_ext}
use dexmd.Base.{nat_beq_iff}
use dexmd.Base.{bytes_beq_iff, ne_beq}
use dexmd.External.{Db, External, Stores, RoundTrips, Balances}
use dexmd.Import.{
  validate_block, Block, ValidatorsBook, Machine, create_contract, call_contract, settle,
  import_transaction, mark_included, text, AccountState, bytes_to_address, state_or_zero,
  Blockchain, Transaction, transfer, go,
}

-- A ledger gives each wallet its balance.
abbrev pub Ledger : Type 0
Ledger = Bytes → ℕ

unfoldable pub credit : Bytes → ℕ → Ledger → Ledger
credit r k l w = if r == w then l w + k else l w

unfoldable pub debit : Bytes → ℕ → Ledger → Ledger
debit a k l w = if a == w then l w - k else l w

-- The writes of these databases succeed.
pub record Writable (x : External) : Type 0 where
  pub put_some : (db : Db) (k v : Bytes) → (db' : Db) × (x.put db k v ≡ some db')
  pub account_encodes : (a : AccountState) → a.balance < 2 ^ 64 → x.account.encodes a ≡ true

charged : AccountState → Transaction → AccountState
charged a t = record a { balance = (a.balance + 2 ^ 64 - (t.amount + t.gas) % 2 ^ 64) % 2 ^ 64 }

credited : AccountState → Transaction → AccountState
credited b t = record b { balance = (b.balance + t.amount) % 2 ^ 64 }

module _ (x : External) where
  unfoldable pub address_of : Transaction → Bytes
  address_of t = elim (bytes_to_address x t.sender t.shard) [ ok a ↦ a | err _ ↦ [] | panic ↦ [] ]

  -- What a transfer does to a ledger, and what a list of them does.
  unfoldable pub pay : Transaction → Ledger → Ledger
  unfolding credit debit
  pay t l = credit t.recipient t.amount (debit (address_of t) (t.amount + t.gas) l)

  unfoldable pub pay_all : List Transaction → Ledger → Ledger
  unfolding pay
  pay_all [] l = l
  pay_all (t ∷ ts) l = pay_all ts (pay t l)

  -- A transfer to another wallet: no call or making of a contract, and no stake.
  pub record IsPlain (t : Transaction) : Type 0 where
    pub address : bytes_to_address x t.sender t.shard ≡ ok (address_of t)
    pub no_call : t.function ≡ []
    pub no_contract : t.contract_creation ≡ false
    pub no_stake : (t.recipient == text "DexmPoS") ≡ false
    pub no_self : address_of t ≢ t.recipient
    pub some_gas : 0 < t.gas

  -- The transfers are plain, and each is covered by its sender, and fits into its recipient's
  -- balance, at its turn.
  abbrev pub Affordable : List Transaction → Ledger → Type 0
  Affordable [] l = Unit
  Affordable (t ∷ ts) l =
      IsPlain t
      × (t.amount + t.gas ≤ l (address_of t))
      × (l t.recipient + t.amount < 2 ^ 64)
      × Affordable ts (pay t l)

  -- The ledger that a chain holds.
  unfoldable pub ledger_of : Blockchain → Ledger
  ledger_of bc w = (state_or_zero x bc w).balance

  set_state-written :
      Writable x
      → (bc : Blockchain) (w : Bytes) (state : AccountState) → state.balance < 2 ^ 64
      → (bc' : Blockchain) × (set_state x bc w state ≡ ok bc') × (bc'.block_db ≡ bc.block_db)
  unfolding set_state
  set_state-written writable bc w state small =
      let (db, put) = writable.put_some bc.balances_db w (x.account.encode state) in
      (
        record bc { balances_db = db },
        rw (set_state, writable.account_encodes state small, put) refl,
        refl,
      )

  pub transfer-written :
      Writable x
      → (bc : Blockchain) (sender : Bytes) (a b : AccountState) (t : Transaction)
      → (bc' : Blockchain) × (transfer x bc sender a b t ≡ (bc', true))
        × (bc'.block_db ≡ bc.block_db)
  unfolding transfer charged credited
  transfer-written writable bc sender a b t =
      let (bc1, first, same1) = set_state-written writable bc sender (charged a t) (omega arith) in
      let (bc2, second, same2) =
        set_state-written writable bc1 t.recipient (credited b t) (omega arith) in
      (bc2, ground arith, same2 ∙ same1)

  pub ledger_of-known :
      (bc : Blockchain) (w : Bytes) (state : AccountState)
      → get_wallet_state x bc w ≡ ok state
      → ledger_of bc w ≡ state.balance
  unfolding ledger_of state_or_zero
  ledger_of-known bc w state known = ground arith

  -- A wallet with a balance has a state.
  pub known_of_balance :
      (bc : Blockchain) (w : Bytes)
      → 0 < ledger_of bc w
      → (state : AccountState) × (get_wallet_state x bc w ≡ ok state)
  unfolding ledger_of state_or_zero
  known_of_balance bc w some_balance = elim (Outcome-cases (get_wallet_state x bc w)) [
    | inl known ↦ known
    | inr bad ↦ absurd (ground arith)
  ]

  pub ledger_of-bound : Balances x → (bc : Blockchain) (w : Bytes) → ledger_of bc w < 2 ^ 64
  unfolding ledger_of state_or_zero get_wallet_state
  ledger_of-bound bound bc w = elim (Option-cases (bc.balances_db w)) [
    | inl missing ↦ ground arith
    | inr (raw, there) ↦ ground (arith, bound.balance_bound raw)
  ]

  pub ledger_of-mark_included :
      (bc : Blockchain) (t : Transaction) (index : ℕ)
      → ledger_of (mark_included x bc t index) ≡ ledger_of bc
  unfolding ledger_of state_or_zero get_wallet_state mark_included
  ledger_of-mark_included bc t index = refl

  pub ledger_of-same :
      (bc bc' : Blockchain) (w : Bytes)
      → get_wallet_state x bc w ≡ get_wallet_state x bc' w
      → ledger_of bc w ≡ ledger_of bc' w
  unfolding ledger_of state_or_zero
  ledger_of-same bc bc' w same = rw (ledger_of, state_or_zero, same) refl

  call_contract-plain :
      (m : Machine) (bc : Blockchain) (t : Transaction) (state : AccountState)
      → IsPlain t
      → call_contract x m bc t state ≡ ok (bc, true)
  unfolding call_contract
  call_contract-plain m bc t state plain = ground (arith, plain.no_call)

  -- The body of the loop for a plain transfer.
  pub import_transaction-plain :
      (m : Machine) (index shard : ℕ) (bc bc1 : Blockchain) (v : ValidatorsBook) (t : Transaction)
      (state : AccountState)
      → IsPlain t
      → get_wallet_state x bc (address_of t) ≡ ok state
      → transfer x bc (address_of t) state (state_or_zero x bc t.recipient) t ≡ (bc1, true)
      → import_transaction x m index shard bc v t ≡ go (mark_included x bc1 t index) v
  unfolding import_transaction settle
  import_transaction-plain m index shard bc bc1 v t state plain known written =
      let called = call_contract-plain m bc t state plain in
      rw (import_transaction, plain.address, known, plain.no_stake, settle, called, written)
        (ground (arith, plain.no_contract))
