-- ===== src/Wallet/Base58.antt =====
-- wallet/wallet.go, `base58Encoding`: what its loops compute. `Carry` is about the loops over the
-- buffer, `Bound` about its size, `Digits` about the characters, `Inverse` about the whole.
pub mod Carry
pub mod Bound
pub mod Digits
pub mod Unique
pub mod Inverse
