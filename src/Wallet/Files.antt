-- ===== src/Wallet/Files.antt =====
-- wallet/wallet.go: making a wallet, and the file that keeps it. Keys are kept by their encodings.
mod Examples
use dexmd.Wallet.{text, Wallet, get_wallet}
use dexmd.External.{Codec, External, RoundTrips}
use dexmd.Base.{
  codec, Outcome-cases, drop, take, keys, ℕ, zero, suc, ◌+◌, ◌-◌, ◌*◌, ◌/◌, ◌%◌, ◌^◌, ◌≤◌, ◌<◌, ◌≡◌,
  ◌≢◌, ◌↔◌, ◌⊎◌, inl, inr, refl, sym, ap, ◌∙◌, List, [], ◌∷◌, ◌++◌, map, Option, none, some, Bool,
  true, false, not, ◌&&◌, ◌||◌, arith, Bytes, bytes_eq, nat_eq, ◌==◌, if◌then◌else◌, ltb, leb,
  Bool-cases, Option-cases, length, All, replicate, Outcome, ok, err, panic, Error, ◌>>=◌, ◌>>◌,
  fail_if, or_fail, or_panic, Dict, lookup, insert, erase, bytes_beq,
}
use dexmd.Base.Int.{ℤ, pos, negsuc, to_i64, to_u64, ltb_ℤ, wrap_i64, negate, ◌+ℤ◌}

-- `file`
pub record WalletFile : Type 0 where
  pub priv_key_string : Bytes
  pub address : Bytes
  pub balance : ℤ
  pub shard : ℕ
  pub priv_key_schnorr : Bytes
  pub pub_key_schnorr : Bytes

-- crypto/x509 and encoding/pem on private keys, and encoding/json on the file. `pem_decode` finds no
-- block in some strings.
pub record KeyFormats : Type 0 where
  pub marshal_ec : Bytes → Option Bytes
  pub parse_ec : Bytes → Option Bytes
  pub pem_encode : Bytes → Bytes
  pub pem_decode : Bytes → Option Bytes
  pub json : Codec WalletFile

-- What is written can be read back.
pub record Readable (f : KeyFormats) : Type 0 where
  pub ec_back : (key der : Bytes) → f.marshal_ec key ≡ some der → f.parse_ec der ≡ some key
  pub pem_back : (der : Bytes) → f.pem_decode (f.pem_encode der) ≡ some der
  pub json_back : RoundTrips f.json

module _ (x : External) (f : KeyFormats) where
  -- `GenerateWallet`, from the keys that the random sources give.
  unfoldable pub generate_wallet : ℕ → Outcome Bytes → Bytes → Outcome Wallet
  generate_wallet shard key scalar = do
    priv ← key
    ok (record {
      priv_key = priv;
      shard = shard;
      balance = pos 0;
      priv_key_schnorr = scalar;
      pub_key_schnorr = x.curve.point_mul scalar x.curve.base;
    })

  -- `GetEncodedWallet`, which is what `ExportWallet` writes.
  unfoldable pub get_encoded_wallet : Wallet → Outcome Bytes
  unfolding get_wallet
  get_encoded_wallet w = do
    der ← or_fail (f.marshal_ec w.priv_key) Error.codec
    add ← get_wallet x w
    let walletfile : WalletFile = record {
      priv_key_string = f.pem_encode der;
      address = add;
      balance = w.balance;
      shard = w.shard;
      priv_key_schnorr = w.priv_key_schnorr;
      pub_key_schnorr = w.pub_key_schnorr;
    }
    fail_if (not (f.json.encodes walletfile)) Error.codec
    ok (f.json.encode walletfile)

  -- `jsonKeyToStruct`, which `ImportWallet` applies to what it reads. The address in the file is not
  -- looked at. Where no PEM block is found, a nil pointer is followed.
  unfoldable pub json_key_to_struct : Bytes → Outcome Wallet
  json_key_to_struct wallet_json = do
    fail_if (not (f.json.decodes wallet_json)) Error.codec
    let walletfile = f.json.decode wallet_json
    der ← or_panic (f.pem_decode walletfile.priv_key_string)
    key ← or_fail (f.parse_ec der) Error.codec
    ok (record {
      priv_key = key;
      balance = walletfile.balance;
      priv_key_schnorr = walletfile.priv_key_schnorr;
      pub_key_schnorr = walletfile.pub_key_schnorr;
      shard = walletfile.shard;
    })

  -- `GenerateVanityWallet` without the flag that other goroutines set: the first of the generated
  -- wallets whose address begins with the word, of which the file is then written. A slice beyond the end
  -- of an address panics.
  unfoldable pub generate_vanity_wallet : Bytes → List Wallet → Outcome (Option Wallet)
  unfolding get_wallet
  generate_vanity_wallet vanity [] = ok none
  generate_vanity_wallet vanity (w ∷ ws) =
      let rest = generate_vanity_wallet vanity ws in
      let wallet_string : Outcome Bytes = elim (get_wallet x w) [
        | ok a ↦ ok a
        | err _ ↦ ok []
        | panic ↦ panic
      ] in
      do
        a ← wallet_string
        if ltb (length a) (4 + length vanity)
            then panic
            else if take (4 + length vanity) a == text "Dexm" ++ vanity
            then ok (some w)
            else rest

  -- If the keys, their PEM blocks and the file can be read back: whatever wallet `ExportWallet` can
  -- encode, `ImportWallet` makes the same wallet of the file, with its keys, its balance and its shard.
  pub json_key_to_struct-get_encoded_wallet :
      Readable f
      → (w : Wallet) (encoded : Bytes) → get_encoded_wallet w ≡ ok encoded
      → json_key_to_struct encoded ≡ ok w
  unfolding get_encoded_wallet json_key_to_struct
  json_key_to_struct-get_encoded_wallet readable w encoded h =
      elim (Option-cases (f.marshal_ec w.priv_key)) [
        | inl fails ↦ absurd (ground arith)
        | inr (der, made) ↦ elim (Outcome-cases (get_wallet x w)) [
          | inr bad ↦ absurd (ground arith)
          | inl (add, named) ↦
              let walletfile : WalletFile = record {
                priv_key_string = f.pem_encode der;
                address = add;
                balance = w.balance;
                shard = w.shard;
                priv_key_schnorr = w.priv_key_schnorr;
                pub_key_schnorr = w.pub_key_schnorr;
              } in
              elim (Bool-cases (f.json.encodes walletfile)) [
                | inr unwritten ↦ absurd (ground arith)
                | inl written ↦
                    let is : f.json.encode walletfile ≡ encoded = ground arith in
                    let back : f.json.decode encoded ≡ walletfile =
                      ap f.json.decode (sym is) ∙ readable.json_back.back walletfile written in
                    let reads : f.json.decodes encoded ≡ true =
                      ap f.json.decodes (sym is) ∙ readable.json_back.accepted walletfile written in
                    rw
                      (
                        json_key_to_struct,
                        reads,
                        back,
                        readable.pem_back der,
                        readable.ec_back w.priv_key der made,
                      )
                      refl
              ]
        ]
      ]
