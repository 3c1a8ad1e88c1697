-- ===== src/Wallet/Address.antt =====
-- wallet/wallet.go: an address made by `BytesToAddress` passes `IsWalletValid` and names its shard.
use dexmd.Base.{
  bytes_beq_refl, length-append, ℕ, ◌+◌, ◌-◌, ◌%◌, ◌≤◌, ◌<◌, ◌≡◌, inl, inr, refl, [], ◌++◌, true,
  false, ◌||◌, arith, Bytes, bytes_eq, nat_eq, ◌==◌, ltb, Bool-cases, length, ok,
}
use mathlib.Core.List.{append-nil, append_assoc}
use dexmd.Text.{text, hex, slice}
use dexmd.Text.Hex.{length-hex, parse_hex32-hex}
use dexmd.Text.Slices.{slice_part}
use dexmd.External.{External, Digests}
use dexmd.Wallet.{bytes_to_address, is_wallet_valid, get_shard_from_address}
use dexmd.Wallet.Base58.Inverse.{encoded, length-le-base58_encoding}

module _ (x : External) (main_wal : Bytes) (shard : ℕ) where
  -- The four parts of an address.
  address : Bytes
  address = text "Dexm" ++ (hex 2 shard ++ (main_wal ++ hex 8 (x.crc32 main_wal)))

  length-address : length address ≡ 14 + length main_wal
  unfolding address
  length-address = omega (
    arith,
    length-append (text "Dexm") (hex 2 shard ++ (main_wal ++ hex 8 (x.crc32 main_wal))),
    length-append (hex 2 shard) (main_wal ++ hex 8 (x.crc32 main_wal)),
    length-append main_wal (hex 8 (x.crc32 main_wal)),
    length-hex 2 shard,
    length-hex 8 (x.crc32 main_wal),
  )

  shard_slice : slice 4 6 address ≡ ok (hex 2 shard)
  unfolding address
  shard_slice =
      slice_part address (text "Dexm") (hex 2 shard) (main_wal ++ hex 8 (x.crc32 main_wal)) 4 6 refl
        refl (omega (arith, length-hex 2 shard))

  main_slice : slice 6 (length address - 8) address ≡ ok main_wal
  unfolding address
  main_slice =
      let head = length-append (text "Dexm") (hex 2 shard) in
      slice_part address (text "Dexm" ++ hex 2 shard) main_wal (hex 8 (x.crc32 main_wal)) 6
        (length address - 8) refl (omega (arith, head, length-hex 2 shard))
        (omega (arith, head, length-hex 2 shard, length-address))

  checksum_slice :
      slice (length address - 8) (length address) address ≡ ok (hex 8 (x.crc32 main_wal))
  unfolding address
  checksum_slice =
      let head = length-append (text "Dexm") (hex 2 shard ++ main_wal) in
      let body = length-append (hex 2 shard) main_wal in
      let crc = hex 8 (x.crc32 main_wal) in
      let before : length (text "Dexm" ++ (hex 2 shard ++ main_wal)) ≡ 6 + length main_wal =
        omega (arith, head, body, length-hex 2 shard) in
      slice_part address (text "Dexm" ++ (hex 2 shard ++ main_wal)) crc [] (length address - 8)
        (length address) (simp (append-nil, append_assoc)) (omega (arith, before, length-address))
        (omega (arith, before, length-address, length-hex 8 (x.crc32 main_wal)))

  address_valid : 16 ≤ length main_wal → is_wallet_valid x address ≡ ok true
  unfolding is_wallet_valid
  address_valid long =
      let short : ltb (length address) 30 ≡ false = ground (arith, length-address) in
      elim (Bool-cases (address == text "DexmVoid" || address == text "DexmPoS")) [
        | inl special ↦ rw special
        | inr ordinary ↦
            rw (
              ordinary,
              short,
              main_slice,
              checksum_slice,
              bytes_beq_refl (hex 8 (x.crc32 main_wal)),
            )
      ]

  address_shard : shard < 256 → get_shard_from_address x address ≡ ok shard
  unfolding get_shard_from_address
  address_shard small = rw (shard_slice, parse_hex32-hex 1 shard (omega arith) (omega arith))

-- Every address that `BytesToAddress` makes of a public key is valid for `IsWalletValid`, and
-- `GetShardFromAddress` reads from it the shard that was put in, cut to a byte. This holds for any
-- hash functions with the documented digest sizes.
pub bytes_to_address-IsWalletValid :
    (x : External)
    → Digests x
    → (key : Bytes) (shard : ℕ)
    → (w : Bytes) × (bytes_to_address x key shard ≡ ok w)
      × (is_wallet_valid x w ≡ ok true)
      × (get_shard_from_address x w ≡ ok (shard % 256))
unfolding bytes_to_address address
bytes_to_address-IsWalletValid x sizes key shard =
    let digest = x.ripemd160 (x.sha256 key) in
    let are = sizes.ripemd160_bytes (x.sha256 key) in
    let e = encoded digest are in
    let long : 16 ≤ length e.chars = omega (
      arith,
      length-le-base58_encoding digest e.chars are e.returns,
      sizes.ripemd160_length (x.sha256 key),
    ) in
    (
      address x e.chars (shard % 256),
      rw e.returns,
      address_valid x e.chars (shard % 256) long,
      address_shard x e.chars (shard % 256) (omega arith),
    )
