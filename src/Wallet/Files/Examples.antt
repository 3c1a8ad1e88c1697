-- ===== src/Wallet/Files/Examples.antt =====
-- The file of a wallet, at concrete values.
use dexmd.Text.{hex}
use dexmd.Wallet.{base58_encoding}
use dexmd.External.Toy.{toy}
use dexmd.Wallet.Files.{
  External, Wallet, get_wallet, text, WalletFile, KeyFormats, Readable, get_encoded_wallet,
  json_key_to_struct, json_key_to_struct-get_encoded_wallet,
}
use dexmd.Base.{
  bytes_beq_iff, ℕ, zero, suc, ◌≡◌, refl, sym, ap, ◌∙◌, [], ◌∷◌, some, true, ◌&&◌, arith, Bytes,
  bytes_eq, nat_eq, ◌==◌, ok, bytes_beq,
}
use dexmd.Base.Int.{ℤ, pos, negsuc}

abbrev write_balance : ℤ → Bytes → Bytes
write_balance (pos n) rest = 0 ∷ n ∷ rest
write_balance (negsuc n) rest = 1 ∷ n ∷ rest

abbrev read_file : Bytes → Bytes → WalletFile
read_file address (zero ∷ n ∷ shard ∷ key) = record {
  priv_key_string = key;
  address = address;
  balance = pos n;
  shard = shard;
  priv_key_schnorr = [];
  pub_key_schnorr = [];
}
read_file address (suc t ∷ n ∷ shard ∷ key) = record {
  priv_key_string = key;
  address = address;
  balance = negsuc n;
  shard = shard;
  priv_key_schnorr = [];
  pub_key_schnorr = [];
}
read_file address b = record {
  priv_key_string = [];
  address = address;
  balance = pos 0;
  shard = 0;
  priv_key_schnorr = [];
  pub_key_schnorr = [];
}

abbrev saver : Wallet
saver = record {
  priv_key = 1 ∷ [];
  shard = 2;
  balance = negsuc 4;
  priv_key_schnorr = [];
  pub_key_schnorr = [];
}

abbrev short : External
short = record toy { ripemd160 = λ b. [] }

abbrev saver_address : Bytes
saver_address = text "Dexm0200000000"

-- A file of one address without Schnorr keys.
abbrev formats : KeyFormats
formats = record {
  marshal_ec = λ key. some key;
  parse_ec = λ der. some der;
  pem_encode = λ der. der;
  pem_decode = λ s. some s;
  json = record {
    encode = λ w. write_balance w.balance (w.shard ∷ w.priv_key_string);
    encodes =
        λ w. w.address == saver_address && (w.priv_key_schnorr == [] && w.pub_key_schnorr == []);
    decodes = λ b. true;
    decode = read_file saver_address;
  };
}

saver_named : get_wallet short saver ≡ ok saver_address
unfolding get_wallet base58_encoding hex
saver_named = refl

saver_encoded : get_encoded_wallet short formats saver ≡ ok (1 ∷ 4 ∷ 2 ∷ 1 ∷ [])
unfolding get_encoded_wallet base58_encoding bytes_beq hex
saver_encoded = refl

read_written :
    (balance : ℤ) (shard : ℕ) (key : Bytes)
    → read_file saver_address (write_balance balance (shard ∷ key)) ≡ record {
      priv_key_string = key;
      address = saver_address;
      balance = balance;
      shard = shard;
      priv_key_schnorr = [];
      pub_key_schnorr = [];
    }
read_written (pos n) shard key = refl
read_written (negsuc n) shard key = refl

file_back :
    (w : WalletFile)
    → formats.json.encodes w ≡ true
    → formats.json.decode (formats.json.encode w) ≡ w
file_back w h =
    let address_is : w.address ≡ saver_address =
      (bytes_beq_iff w.address saver_address).0 (ground arith) in
    let scalar_is : w.priv_key_schnorr ≡ [] =
      (bytes_beq_iff w.priv_key_schnorr []).0 (ground arith) in
    let point_is : w.pub_key_schnorr ≡ [] = (bytes_beq_iff w.pub_key_schnorr []).0 (ground arith) in
    read_written w.balance w.shard w.priv_key_string
    ∙ ap
        (λ (r : Bytes × Bytes × Bytes). record w {
          address = r.0;
          priv_key_schnorr = r.1;
          pub_key_schnorr = r.2;
        })
        (cc)

formats-Readable : Readable formats
formats-Readable = record {
  ec_back = λ key der made. sym made;
  pem_back = λ der. refl;
  json_back = record { back = λ w h. file_back w h; accepted = λ w h. refl };
}

json_key_to_struct-get_encoded_wallet_example :
    json_key_to_struct short formats (1 ∷ 4 ∷ 2 ∷ 1 ∷ []) ≡ ok saver
json_key_to_struct-get_encoded_wallet_example =
    json_key_to_struct-get_encoded_wallet short formats formats-Readable saver (1 ∷ 4 ∷ 2 ∷ 1 ∷ [])
      saver_encoded
