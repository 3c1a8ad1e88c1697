-- ===== src/Contracts/Tables.antt =====
-- blockchain/api.go, `put` and `get`: what a contract stores under a key.
use dexmd.Base.{
  ℕ, ◌≤◌, ◌≡◌, [], ◌++◌, Option, some, arith, Bytes, bytes_eq, nat_eq, length, ok, ◌>>=◌,
}
use dexmd.Base.{lookup-insert_self}
use dexmd.Base.Int.{ℤ, pos}
use dexmd.External.{External}
use dexmd.Contracts.{Machine, Contract}
use dexmd.Contracts.Host.{read_buffer, get_key, put, find_value, get}

-- In one memory, a `get` after a `put` of the same key, with the sizes of the tables, of the key, of
-- the value and of the destination at most 2048, returns 1 and writes the value that was put, if the
-- destination is large enough for it, whatever the table of the `put` and the table of the `get` are.
pub get-put :
    (x : External) (m : Machine) (read_at : ℤ → ℕ → Bytes) (c : Contract)
    → (table table' key data_ptr : ℤ) (table_len table_len' key_len data_len dest_len : ℕ)
    → table_len ≤ 2048
    → table_len' ≤ 2048
    → key_len ≤ 2048
    → data_len ≤ 2048
    → dest_len ≤ 2048
    → length (read_at data_ptr data_len) ≤ dest_len
    → (do
      c' ← put x m read_at c table (pos table_len) key (pos key_len) data_ptr (pos data_len)
      (after, result, written) ←
          get x m read_at c' table' (pos table_len') key (pos key_len) (pos dest_len)
      let answer : ℕ × Option Bytes = (result, written)
      ok answer)
      ≡ ok (1, some (read_at data_ptr data_len))
unfolding put get get_key read_buffer find_value
get-put x m read_at c table table' key data_ptr n n' k d l hn hn' hk hd hl fits =
    let stored =
      lookup-insert_self ((read_at key k ++ c.address) ++ x.sha256 []) (read_at data_ptr d)
        c.temp_db in
    ground arith
