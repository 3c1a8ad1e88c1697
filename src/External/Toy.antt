-- ===== src/External/Toy.antt =====
-- Simple operations in place of those of the other packages, for tests: hashes that keep the bytes,
-- signatures that verify when the two numbers agree, databases that never fail.
use dexmd.Base.{
  ℕ, zero, suc, ◌%◌, ◌^◌, ◌<◌, ◌≡◌, refl, ap, [], ◌∷◌, ◌++◌, Option, none, some, true, false, arith,
  Bytes, bytes_eq, nat_eq, ◌==◌, if◌then◌else◌, ltb, length, All,
}
use dexmd.Proto.{Transaction, Receipt, AccountState, Block}
use dexmd.Proto.BroadcastType.{withdraw}
use dexmd.Proto.RequestType.{request_get_version}
use dexmd.Proto.EnvelopeType.{interests}
use dexmd.External.Defs.{Codec, External, Db, ecdsa, Stores, RoundTrips, Balances, Digests}

abbrev pub no_transaction : Transaction
no_transaction = record {
  sender = [];
  recipient = [];
  amount = 0;
  gas = 0;
  nonce = 0;
  payload = [];
  shard = 0;
  r = [];
  s = [];
  function = [];
  args = [];
  contract_creation = false;
  pub_schnorr_key = [];
}

abbrev pub no_receipt : Receipt
no_receipt = record { sender = []; recipient = []; amount = 0; nonce = 0 }

abbrev pub no_block : Block
no_block = record {
  index = 0;
  timestamp = 0;
  miner = [];
  prev_hash = [];
  shard = 0;
  transactions = [];
  receipts_contracts = [];
  merkle_root_receipt = [];
}

-- A codec that writes some of a message and reads back a fixed one.
unfoldable pub lossy : {A : Type 0} → (A → Bytes) → A → Codec A
lossy write a = record { encode = write; encodes = λ _. true; decode = λ _. a; decodes = λ _. true }

unfoldable pub cut : ℕ → Bytes → Bytes
cut zero b = []
cut (suc n) [] = 0 ∷ cut n []
cut (suc n) (c ∷ b) = c % 256 ∷ cut n b

unfoldable pub read_balance : Bytes → AccountState
read_balance [] = record { balance = 0 }
read_balance (n ∷ b) = record { balance = n % 2 ^ 64 }

abbrev pub put_entry : Db → Bytes → Bytes → Option Db
put_entry db k v = some (λ j. if k == j then some v else db j)

abbrev pub toy : External
toy = record {
  sha256 = λ b. b;
  ripemd160 = cut 20;
  crc32 = λ b. length b % 2 ^ 32;
  parse_pkix = λ b. some (ecdsa b);
  ecdsa_verify = λ key digest r s. r == s;
  marshal_pkix = λ key. some key;
  ecdsa_sign = λ key digest. some (1 ∷ [], 1 ∷ []);
  parse_point = λ b. some b;
  parse_scalar = λ b. some b;
  curve = record {
    base = [];
    point_add = λ p q. [];
    point_mul = λ a p. [];
    point_eq = λ p q. p == q;
    point_string = λ p. p;
    scalar_add = λ a b. [];
    scalar_sub = λ a b. [];
    scalar_mul = λ a b. [];
    scalar_hash = λ b. [];
  };
  merkle_root = λ leaves. some (length leaves ∷ []);
  merkle_path = λ leaves i. [];
  merkle_leaf = λ leaves i. [];
  put = put_entry;
  delete = λ db k j. if k == j then none else db j;
  values = λ db. [];
  insert_ref = λ b p q. (b, p) ∷ q;
  insert_key = λ b p q. (b, p) ∷ q;
  transaction = lossy (λ t. t.sender ++ t.recipient ++ t.nonce ∷ t.amount ∷ []) no_transaction;
  receipt = lossy (λ r. r.sender ++ r.recipient ++ r.nonce ∷ r.amount ∷ []) no_receipt;
  account = record {
    encode = λ a. a.balance ∷ [];
    encodes = λ a. ltb a.balance (2 ^ 64);
    decode = read_balance;
    decodes = λ b. true;
  };
  block = lossy (λ b. b.index ∷ b.prev_hash) no_block;
  contract =
      lossy (λ c. c.memory)
        (record { memory = []; globals = []; locked = false; allowed_wallet = [] });
  proof =
      lossy (λ p. p.root)
        (record {
          map_leaf = [];
          map_hash = [];
          root = [];
          leaf = [];
          receipt = no_receipt;
          transaction = no_transaction;
          shard = 0;
        });
  roots =
      lossy (λ m. m.r_signed)
        (record {
          shard = 0;
          merkle_roots_receipt = [];
          r_signed = [];
          s_signed = [];
          r_validators = [];
          p_validators = [];
        });
  vote =
      lossy (λ v. v.source)
        (record {
          source = [];
          target = [];
          source_height = 0;
          target_height = 0;
          r = [];
          s = [];
          public_key = [];
        });
  schnorr = lossy (λ m. m.r) (record { r = []; p = [] });
  sign_schnorr =
      lossy (λ m. m.wallet)
        (record {
          wallet = [];
          r_schnorr = [];
          p_schnorr = [];
          sign_receipt = [];
          message_sign_receipt = [];
        });
  withdraw = lossy (λ m. m.public_key) (record { public_key = [] });
  money_withdraw = lossy (λ m. m.wallet) (record { wallet = [] });
  broadcast =
      lossy (λ m. m.payload)
        (record { type = withdraw; payload = []; address = []; shard_address = 0 });
  request =
      lossy (λ m. m.payload)
        (record { type = request_get_version; payload = []; address = []; shard_address = 0 });
  envelope =
      lossy (λ m. m.payload)
        (record {
          payload = [];
          type = interests;
          shard = 0;
          ttl = 0;
          identity = record { pubkey = []; r = []; s = []; signed_data = [] };
        });
  interests = lossy (λ m. m.address) (record { keys = []; address = []; shard_address = 0 });
  peers = lossy (λ m. []) (record { ip = [] });
  peers_and_interests =
      lossy (λ m. m.address) (record { keys = []; ips = []; address = []; shard_address = 0 });
}

pub toy-Stores : Stores toy
toy-Stores = record { get-put = λ db k v db' h j. ground arith; get-delete = λ db k j. refl }

pub toy-RoundTrips : RoundTrips toy.account
unfolding read_balance
toy-RoundTrips = record { back = λ a h. ground arith; accepted = λ a h. refl }

read_balance-bound : (b : Bytes) → (read_balance b).balance < 2 ^ 64
unfolding read_balance
read_balance-bound [] = omega arith
read_balance-bound (n ∷ b) = omega arith

pub toy-Balances : Balances toy
toy-Balances = record { balance_bound = read_balance-bound }

length-cut : (n : ℕ) (b : Bytes) → length (cut n b) ≡ n
unfolding cut
length-cut zero b = refl
length-cut (suc n) [] = ap suc (length-cut n [])
length-cut (suc n) (c ∷ b) = ap suc (length-cut n b)

All-cut : (n : ℕ) (b : Bytes) → All (λ d. d < 256) (cut n b)
unfolding cut
All-cut zero b = tt
All-cut (suc n) [] = (omega arith, All-cut n [])
All-cut (suc n) (c ∷ b) = (omega arith, All-cut n b)

pub toy-Digests : Digests toy
toy-Digests = record {
  ripemd160_length = length-cut 20;
  ripemd160_bytes = All-cut 20;
  crc32_bound = λ b. omega arith;
}
