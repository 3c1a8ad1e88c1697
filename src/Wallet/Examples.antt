-- ===== src/Wallet/Examples.antt =====
-- The theorems on wallets and addresses, at concrete values.
use dexmd.Base.{bytes_beq}
use dexmd.Base.{◌%◌, ◌≡◌, refl, [], ◌∷◌, true, arith, Bytes, bytes_eq, nat_eq, ok}
use dexmd.Text.{text}
use dexmd.External.Toy.{toy, toy-Digests}
use dexmd.Wallet.{
  base58_encoding, leading_zeros, set_bytes, bytes_to_address, is_wallet_valid,
  get_shard_from_address,
}
use dexmd.Wallet.Base58.Digits.{read58, ones}
use dexmd.Wallet.Base58.Inverse.{base58_encoding_reads}
use dexmd.Wallet.Address.{bytes_to_address-IsWalletValid}

hello : base58_encoding (text "Hello World!") ≡ ok (text "2NEpo7TZRRrLZSi2U")
unfolding base58_encoding
hello = refl

base58_encoding_reads_example :
    (s : Bytes) × (base58_encoding (0 ∷ 0 ∷ 1 ∷ 255 ∷ []) ≡ ok s)
    × (read58 0 s ≡ set_bytes 0 (0 ∷ 0 ∷ 1 ∷ 255 ∷ []))
    × (ones s ≡ (leading_zeros (0 ∷ 0 ∷ 1 ∷ 255 ∷ [])).0)
base58_encoding_reads_example =
    base58_encoding_reads (0 ∷ 0 ∷ 1 ∷ 255 ∷ [])
      (omega arith, (omega arith, (omega arith, (omega arith, tt))))

bytes_to_address-IsWalletValid_example :
    (w : Bytes) × (bytes_to_address toy (5 ∷ []) 300 ≡ ok w)
    × (is_wallet_valid toy w ≡ ok true)
    × (get_shard_from_address toy w ≡ ok (300 % 256))
bytes_to_address-IsWalletValid_example = bytes_to_address-IsWalletValid toy toy-Digests (5 ∷ []) 300

void_valid : is_wallet_valid toy (text "DexmVoid") ≡ ok true
unfolding is_wallet_valid bytes_beq
void_valid = refl
