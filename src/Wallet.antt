-- ===== src/Wallet.antt =====
-- wallet/wallet.go and wallet/signature.go: addresses and their checks, the base 58 encoding, ECDSA
-- signatures, and the transactions that a wallet makes.
pub mod Base58
pub mod Address
pub mod Spending
pub mod Files
mod Examples
use mathlib.Core.List.{reverse}
use dexmd.Base.{
  ℕ, zero, suc, ◌+◌, ◌-◌, ◌*◌, ◌/◌, ◌%◌, ◌^◌, List, [], ◌∷◌, ◌++◌, map, Bytes, bytes_eq, nat_eq,
  Option, none, some, Bool, true, false, not, ◌&&◌, ◌||◌, Outcome, ok, err, panic, Error, fail_if,
  or_fail, or_panic, ◌>>=◌, ◌>>◌, length, take, drop, replicate, get_elem?, ltb, ◌==◌,
  if◌then◌else◌,
}
use dexmd.Base.Int.{ℤ, pos, negsuc, ◌+ℤ◌, to_i64, negate, wrap_i64, ltb_ℤ}
use dexmd.Text.{text, slice, hex, parse_hex32}
use dexmd.Proto.{Transaction}
use dexmd.External.{External, PublicKey, ecdsa, other_key}

-- `b58digitsOrdered`
abbrev b58digits_ordered : Bytes
b58digits_ordered = text "123456789ABCDEFGHJKLMNPQRSTUVWXYZabcdefghijkmnopqrstuvwxyz"

-- The loop over the leading zero bytes: their number, and the bytes that follow.
unfoldable pub leading_zeros : Bytes → ℕ × Bytes
leading_zeros [] = (0, [])
leading_zeros (zero ∷ bin) = let (n, rest) = leading_zeros bin in (suc n, rest)
leading_zeros (suc b ∷ bin) = (0, suc b ∷ bin)

-- The inner loop, `for carry = int(bin[i]); j > high || carry != 0; j--`. The buffer is listed from
-- its last cell to its first, the order in which the loop visits it; the first argument counts the
-- cells that are left above `high`. The result is the new buffer and the number of cells visited.
-- A carry that is left when the cells are used up would be a write before the buffer.
unfoldable pub add_carry : ℕ → ℕ → List ℕ → Outcome (List ℕ × ℕ)
add_carry k zero [] = ok ([], 0)
add_carry k (suc c) [] = panic
add_carry zero zero (d ∷ buf) = ok (d ∷ buf, 0)
add_carry zero (suc c) (d ∷ buf) = do
  (rest, n) ← add_carry zero ((suc c + 256 * d) / 58) buf
  ok ((suc c + 256 * d) % 58 ∷ rest, suc n)
add_carry (suc k) c (d ∷ buf) = do
  (rest, n) ← add_carry k ((c + 256 * d) / 58) buf
  ok ((c + 256 * d) % 58 ∷ rest, suc n)

-- The outer loop over the bytes after the leading zeros.
unfoldable pub add_bytes : ℕ → Bytes → List ℕ → Outcome (List ℕ)
add_bytes k [] buf = ok buf
add_bytes k (b ∷ bin) buf = do (buf', n) ← add_carry k b buf; add_bytes n bin buf'

-- `for j = 0; j < size && buf[j] == 0; j++`, on the buffer from its first cell to its last.
unfoldable pub skip_zeros : List ℕ → List ℕ
skip_zeros [] = []
skip_zeros (zero ∷ buf) = skip_zeros buf
skip_zeros (suc d ∷ buf) = suc d ∷ buf

unfoldable pub digit_chars : List ℕ → Outcome Bytes
digit_chars [] = ok []
digit_chars (d ∷ ds) = do
  c ← or_panic (get_elem? b58digits_ordered d)
  cs ← digit_chars ds
  ok (c ∷ cs)

unfoldable pub base58_encoding : Bytes → Outcome Bytes
unfolding leading_zeros add_carry add_bytes skip_zeros digit_chars
base58_encoding bin = do
  let (zcount, rest) = leading_zeros bin
  let size = length rest * 138 / 100 + 1
  buf ← add_bytes 0 rest (replicate size 0)
  cs ← digit_chars (skip_zeros (reverse buf))
  ok (replicate zcount b'1' ++ cs)

module _ (x : External) where
  -- `BytesToAddress`: the shard is cut to a byte.
  unfoldable pub bytes_to_address : Bytes → ℕ → Outcome Bytes
  bytes_to_address key shard = do
    main_wal ← base58_encoding (x.ripemd160 (x.sha256 key))
    ok (text "Dexm" ++ (hex 2 (shard % 256) ++ (main_wal ++ hex 8 (x.crc32 main_wal))))

  -- `IsWalletValid`
  unfoldable pub is_wallet_valid : Bytes → Outcome Bool
  is_wallet_valid wallet =
      if wallet == text "DexmVoid" || wallet == text "DexmPoS"
      then ok true
      else if ltb (length wallet) 30
      then ok false
      else do
        middle ← slice 6 (length wallet - 8) wallet
        checksum ← slice (length wallet - 8) (length wallet) wallet
        ok (hex 8 (x.crc32 middle) == checksum)

  -- `GetShardFromAddress` slices before it looks at the length.
  unfoldable pub get_shard_from_address : Bytes → Outcome ℕ
  get_shard_from_address w = do digits ← slice 4 6 w; or_fail (parse_hex32 digits) Error.bad_number

-- `big.Int.SetBytes`
unfoldable pub set_bytes : ℕ → Bytes → ℕ
set_bytes acc [] = acc
set_bytes acc (b ∷ bs) = set_bytes (acc * 256 + b) bs

-- What `ecdsa.Verify` is given; the type assertion panics on a key of another kind.
unfoldable pub verify_with : External → Bytes → Bytes → Bytes → PublicKey → Outcome Bool
unfolding set_bytes
verify_with x r s digest (ecdsa key) =
    ok (x.ecdsa_verify key digest (set_bytes 0 r) (set_bytes 0 s))
verify_with x r s digest other_key = panic

-- `SignatureValid`
unfoldable pub signature_valid : External → Bytes → Bytes → Bytes → Bytes → Outcome Bool
unfolding verify_with
signature_valid x x509pub r s digest = do
  key ← or_fail (x.parse_pkix x509pub) Error.codec
  verify_with x r s digest key

-- `int(amount + uint64(gas))`
unfoldable pub cost : ℕ → ℕ → ℤ
cost amount gas = to_i64 ((amount + gas) % 2 ^ 64)

pub record Wallet : Type 0 where
  pub priv_key : Bytes
  pub shard : ℕ
  pub balance : ℤ
  pub priv_key_schnorr : Bytes
  pub pub_key_schnorr : Bytes

module _ (x : External) where
  -- `GetPubKey`
  unfoldable pub get_pub_key : Wallet → Outcome Bytes
  get_pub_key w = or_fail (x.marshal_pkix w.priv_key) Error.codec

  -- `GetWallet`
  unfoldable pub get_wallet : Wallet → Outcome Bytes
  unfolding get_pub_key bytes_to_address
  get_wallet w = do key ← get_pub_key w; bytes_to_address x key w.shard

  -- `RawTransaction`, with the random nonce as an argument. The balance is spent before the public
  -- key is encoded, so the wallet comes back in every case.
  unfoldable pub raw_transaction :
      Wallet → Bytes → ℕ → ℕ → Bytes → ℕ → ℕ → Wallet × Outcome Transaction
  raw_transaction w recipient amount gas payload shard nonce = elim (is_wallet_valid x recipient) [
    | ok valid ↦
        if not valid
        then (w, err Error.invalid_recipient)
        else if ltb_ℤ w.balance (cost amount gas)
        then (w, err Error.wallet_balance)
        else (
          record w { balance = wrap_i64 (w.balance +ℤ negate (cost amount gas)) },
          do
            key ← get_pub_key w
            ok (record {
              sender = key;
              recipient = recipient;
              amount = amount;
              gas = gas;
              nonce = nonce;
              payload = payload;
              shard = shard;
              r = [];
              s = [];
              function = [];
              args = [];
              contract_creation = ltb 0 (length payload);
              pub_schnorr_key = [];
            }),
        )
    | err c ↦ (w, err c)
    | panic ↦ (w, panic)
  ]

  -- `NewTransaction`
  unfoldable pub new_transaction : Wallet → Bytes → ℕ → ℕ → Bytes → ℕ → ℕ → Wallet × Outcome Bytes
  new_transaction w recipient amount gas payload shard nonce =
      let (w', made) = raw_transaction w recipient amount gas payload shard nonce in
      (
        w',
        do
          t ← made
          fail_if (not (x.transaction.encodes t)) Error.codec
          ok (x.transaction.encode t),
      )
