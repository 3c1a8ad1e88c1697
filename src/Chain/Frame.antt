-- ===== src/Chain/Frame.antt =====
-- blockchain/processing.go: what the databases of a chain hold after a write.
use dexmd.Base.{
  ℕ, ◌^◌, ◌<◌, ◌≡◌, inl, inr, sym, ap, ◌∙◌, arith, Bytes, bytes_eq, nat_eq, ◌==◌, if◌then◌else◌,
  Bool-cases, Option-cases, ok,
}
use dexmd.Base.Int.{to_i64}
use dexmd.Text.Decimal.{itoa-injective}
use dexmd.Base.{bytes_beq_iff}
use dexmd.Base.Int.{to_u64, to_u64-to_i64}
use dexmd.Proto.{AccountState, Block}
use dexmd.External.{External, Stores, RoundTrips}
use dexmd.Chain.{Blockchain, get_wallet_state, set_state, get_block, save_block, block_key}

module _ (x : External) (stores : Stores x) where
  -- With a database that keeps what is written and account states that decode to what was encoded:
  -- after a `SetState` that succeeds, `GetWalletState` gives the new state for its wallet, and for
  -- every other one what it gave before.
  pub get_wallet_state-set_state :
      RoundTrips x.account
      → (bc bc' : Blockchain) (w : Bytes) (state : AccountState) → set_state x bc w state ≡ ok bc'
      → (j : Bytes)
      → get_wallet_state x bc' j ≡ (if w == j then ok state else get_wallet_state x bc j)
  unfolding get_wallet_state set_state
  get_wallet_state-set_state trips bc bc' w state h j =
      elim (Bool-cases (x.account.encodes state)) [
        | inl encodes ↦ elim (Option-cases (x.put bc.balances_db w (x.account.encode state))) [
          | inl failed ↦ absurd (ground arith)
          | inr (db, put) ↦ ground (
            arith,
            stores.get-put bc.balances_db w (x.account.encode state) db put j,
            trips.back state encodes,
          )
        ]
        | inr fails ↦ absurd (ground arith)
      ]

pub block_key-injective : (i j : ℕ) → i < 2 ^ 64 → j < 2 ^ 64 → block_key i ≡ block_key j → i ≡ j
unfolding block_key
block_key-injective i j hi hj e =
    sym (to_u64-to_i64 i hi)
    ∙ (ap (λ a. to_u64 a) (itoa-injective (to_i64 i) (to_i64 j) e) ∙ to_u64-to_i64 j hj)

module _ (x : External) (stores : Stores x) where
  -- With a database that keeps what is written, for uint64 indices: after a `SaveBlock` that succeeds,
  -- `GetBlock` at the index of the block gives its encoding, and
  -- at any other index what it gave before.
  pub get_block-save_block :
      (bc bc' : Blockchain) (block : Block) (j : ℕ)
      → block.index < 2 ^ 64
      → j < 2 ^ 64
      → save_block x bc block ≡ ok bc'
      → get_block x bc' j
        ≡ (if block.index == j then ok (x.block.encode block) else get_block x bc j)
  unfolding get_block save_block
  get_block-save_block bc bc' block j hi hj h =
      let key = block_key block.index in
      elim (Option-cases (x.put bc.block_db key (x.block.encode block))) [
        | inl failed ↦ absurd (ground arith)
        | inr (db, put) ↦ ground (
          arith,
          stores.get-put bc.block_db key (x.block.encode block) db put (block_key j),
          bytes_beq_iff key (block_key j),
          block_key-injective block.index j hi hj,
          ap block_key,
        )
      ]
