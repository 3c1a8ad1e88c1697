-- ===== src/Contracts/Host.antt =====
-- blockchain/api.go: the functions of the host that a contract calls. The memory of the running
-- machine is read by an argument, and what a function writes to it is a part of the result. `revert`
-- is `reverted`: that it also ends the machine shows only after the function has returned.
use dexmd.Base.{
  none, some, Option, ℕ, [], ◌∷◌, ◌++◌, true, false, ◌&&◌, ◌||◌, Bytes, bytes_eq, nat_eq, ◌==◌,
  if◌then◌else◌, leb, length, Outcome, ok, ◌>>=◌, or_panic,
}
use dexmd.Base.Int.{pos, ℤ, to_u64, to_i64}
use dexmd.External.{External}
use dexmd.Proto.{Receipt}
use dexmd.Util.{add_i64o}
use dexmd.Wallet.{is_wallet_valid, bytes_to_address}
use dexmd.Base.{panic, ◌||◌, insert, lookup}
use dexmd.Base.Int.{ltb_ℤ, negsuc}
use dexmd.Contracts.{Machine, Contract, reverted}

-- `strings.TrimRight(s, "\x00")`
unfoldable pub trim_zeros : Bytes → Bytes
trim_zeros [] = []
trim_zeros (b ∷ s) = let rest = trim_zeros s in if length rest == 0 && b == 0 then [] else b ∷ rest

-- `readString` of 256 bytes at an address.
unfoldable pub read_string : (ℤ → ℕ → Bytes) → ℤ → Bytes
unfolding trim_zeros
read_string read_at ptr = trim_zeros (read_at ptr 256)

-- `balance` and `value`, and `timestamp`, whose block pointer may be nil.
unfoldable balance : Contract → ℤ
balance c = to_i64 c.temp_balance

unfoldable value : Contract → ℤ
value c = to_i64 c.transaction.amount

unfoldable timestamp : Contract → Outcome ℤ
timestamp c = do t ← or_panic c.block_timestamp; ok (to_i64 t)

module _ (x : External) (m : Machine) (read_at : ℤ → ℕ → Bytes) where
  -- `pay`. A wallet that is not valid marks the contract as reverted and goes on. The second result of
  -- `AddI64O` is read as the overflow, and the receipt that is appended is an empty one.
  unfoldable pub pay : Contract → ℤ → ℤ → ℤ → Outcome Contract
  unfolding read_string reverted
  pay c to amnt gas = do
    valid ← is_wallet_valid x (read_string read_at to)
    let c1 : Contract = if valid then c else reverted x m c
    let (required_bal, overflow) = add_i64o amnt gas
    let receipt : Receipt = record { sender = []; recipient = []; amount = 0; nonce = 0 }
    ok (
        if overflow || leb c1.temp_balance (to_u64 required_bal)
        then reverted x m c1
        else record c1 {
          return = record c1.return { outputs = c1.return.outputs ++ receipt ∷ [] };
        })

  -- `lock`
  unfoldable pub lock : Contract → ℤ → Outcome Contract
  unfolding read_string reverted
  lock c allowed_addr = do
    let reciver = read_string read_at allowed_addr
    valid ← is_wallet_valid x reciver
    ok (
        if valid
        then record c { state = record c.state { allowed_wallet = reciver; locked = true } }
        else reverted x m c)

-- `unlock`
unfoldable unlock : Contract → Contract
unlock c = record c { state = record c.state { locked = false } }

-- `make([]byte, n)` filled from the memory at an address; it panics for a negative size.
unfoldable pub read_buffer : (ℤ → ℕ → Bytes) → ℤ → ℤ → Outcome Bytes
read_buffer read_at ptr (pos n) = ok (read_at ptr n)
read_buffer read_at ptr (negsuc n) = panic

module _ (x : External) (m : Machine) (read_at : ℤ → ℕ → Bytes) where
  -- `sender`, with what it writes to the memory at `to`.
  unfoldable sender : Contract → ℤ → Outcome (Contract × Bytes)
  unfolding reverted
  sender c max_len = do
    address ← bytes_to_address x c.transaction.sender c.transaction.shard
    let c1 : Contract = if ltb_ℤ max_len (pos (length address)) then reverted x m c else c
    ok (c1, address)

  -- `data`
  unfoldable data_of : Contract → ℤ → Contract × Bytes
  unfolding reverted
  data_of c sz = (
    (if ltb_ℤ sz (pos (length c.transaction.payload)) then reverted x m c else c),
    c.transaction.payload,
  )

  -- `getKey`. `h.Sum(stateKey)` appends the hash of what was written to `h`, which is nothing.
  unfoldable pub get_key : Contract → ℤ → ℤ → ℤ → ℤ → Outcome (Contract × Bytes)
  unfolding read_buffer reverted
  get_key c table table_len key key_len = do
    let too_long = ltb_ℤ (pos 2048) key_len || ltb_ℤ (pos 2048) table_len
    let c1 : Contract = if too_long then reverted x m c else c
    key_buf ← read_buffer read_at key key_len
    table_buf ← read_buffer read_at table table_len
    ok (c1, (key_buf ++ c.address) ++ x.sha256 [])

  -- `put`
  unfoldable pub put : Contract → ℤ → ℤ → ℤ → ℤ → ℤ → ℤ → Outcome Contract
  unfolding get_key reverted
  put c table table_len key key_len data_ptr data_len =
      if ltb_ℤ (pos 2048) data_len then ok (reverted x m c) else do
        value_buf ← read_buffer read_at data_ptr data_len
        (c1, state_key) ← get_key c table table_len key key_len
        ok (record c1 { temp_db = insert state_key value_buf c1.temp_db })

  -- The value that `get` finds, of which `none` makes it return 0. A database that is a nil pointer
  -- panics.
  unfoldable pub find_value : Contract → Bytes → Outcome (Option Bytes)
  find_value c state_key = elim (lookup state_key c.temp_db) [
    | some val ↦ ok (some val)
    | none ↦ do state_db ← or_panic c.chain_state_db; ok (state_db state_key)
  ]

  -- `get`: the contract, the result, and what is written to the memory at the destination.
  unfoldable pub get : Contract → ℤ → ℤ → ℤ → ℤ → ℤ → Outcome (Contract × ℕ × Option Bytes)
  unfolding get_key find_value reverted
  get c table table_len key key_len dest_len =
      if ltb_ℤ (pos 2048) dest_len then ok (reverted x m c, 0, none) else do
        (c1, state_key) ← get_key c table table_len key key_len
        found ← find_value c1 state_key
        ok (elim found [
          | none ↦ (c1, 0, none)
          | some val ↦
              if ltb_ℤ dest_len (pos (length val))
              then (reverted x m c1, 0, none)
              else (c1, 1, some val)
        ])
