-- ===== src/External/Defs.antt =====
-- The operations that the program takes from other packages.
use dexmd.Base.{
  All, ℕ, Bool, Option, List, Bytes, ◌≡◌, true, ◌<◌, ◌^◌, bytes_eq, ◌==◌, if◌then◌else◌, some, none,
  length,
}
use dexmd.Proto.{
  Transaction, Receipt, AccountState, Block, ContractState, MerkleProof, MerkleRootsSigned,
  CasperVote, Schnorr, SignSchnorr, ValidatorWithdraw, MoneyWithdraw, Broadcast, Request, Envelope,
  Interests, Peers, PeersAndInterests,
}

-- `proto.Marshal` returns bytes and an error; `proto.Unmarshal` fills a fresh message and returns
-- an error. The source often ignores the error and goes on with the other result.
pub record Codec (A : Type 0) : Type 0 where
  pub encode : A → Bytes
  pub encodes : A → Bool
  pub decode : Bytes → A
  pub decodes : Bytes → Bool

-- The state of a LevelDB database, as its `Get` shows it; a missing key is an error.
abbrev pub Db : Type 0
Db = Bytes → Option Bytes

-- A priority queue, as the sequence of its entries in the order in which `Pop` returns them. A
-- priority is a float64 in the source: the gas of a transaction, or a height with thousandths.
abbrev pub Queue : Type 0
Queue = List (Bytes × ℕ)

-- What `x509.ParsePKIXPublicKey` can return: an ECDSA key, or a key of another kind.
pub data PublicKey : Type 0 where
  ecdsa : Bytes → PublicKey
  other_key : PublicKey

-- kyber's edwards25519: its base point, the operations on points and scalars, the text of a point,
-- and the scalar of a SHA-256 digest.
pub record Curve (S P : Type 0) : Type 0 where
  pub base : P
  pub point_add : P → P → P
  pub point_mul : S → P → P
  pub point_eq : P → P → Bool
  pub point_string : P → Bytes
  pub scalar_add : S → S → S
  pub scalar_sub : S → S → S
  pub scalar_mul : S → S → S
  pub scalar_hash : Bytes → S

-- The points are a commutative group on which the scalars act.
pub record IsCurve {S P : Type 0} (c : Curve S P) : Type 0 where
  pub point_add_comm : (p q : P) → c.point_add p q ≡ c.point_add q p
  pub point_add_assoc :
      (p q r : P) → c.point_add (c.point_add p q) r ≡ c.point_add p (c.point_add q r)
  pub mul-scalar_add :
      (a b : S) (p : P)
      → c.point_mul (c.scalar_add a b) p ≡ c.point_add (c.point_mul a p) (c.point_mul b p)
  pub mul-scalar_sub :
      (a b : S) (p : P)
      → c.point_add (c.point_mul (c.scalar_sub a b) p) (c.point_mul b p) ≡ c.point_mul a p
  pub mul-scalar_mul :
      (a b : S) (p : P) → c.point_mul (c.scalar_mul a b) p ≡ c.point_mul a (c.point_mul b p)
  pub mul-point_add :
      (a : S) (p q : P)
      → c.point_mul a (c.point_add p q) ≡ c.point_add (c.point_mul a p) (c.point_mul a q)
  pub point_eq_refl : (p : P) → c.point_eq p p ≡ true

pub record External : Type 0 where
  -- crypto/sha256, golang.org/x/crypto/ripemd160, hash/crc32 (IEEE)
  pub sha256 : Bytes → Bytes
  pub ripemd160 : Bytes → Bytes
  pub crc32 : Bytes → ℕ
  -- crypto/x509, crypto/ecdsa
  pub parse_pkix : Bytes → Option PublicKey
  pub ecdsa_verify : Bytes → Bytes → ℕ → ℕ → Bool
  -- the encoded public key of a private key; a signature of a digest, as two byte strings
  pub marshal_pkix : Bytes → Option Bytes
  pub ecdsa_sign : Bytes → Bytes → Option (Bytes × Bytes)
  -- kyber's `UnmarshalBinary` on points and scalars, which are kept by their encodings
  pub parse_point : Bytes → Option Bytes
  pub parse_scalar : Bytes → Option Bytes
  pub curve : Curve Bytes Bytes
  -- gomerkle's `Generate` and `Root`
  pub merkle_root : List Bytes → Option Bytes
  -- its `GetProof`, as a list of one-entry maps, and `GetLeaf`
  pub merkle_path : List Bytes → ℕ → List (Bytes × Bytes)
  pub merkle_leaf : List Bytes → ℕ → Bytes
  -- goleveldb's `Put` and `Delete`, which may fail, and the values in the order of an iterator
  pub put : Db → Bytes → Bytes → Option Db
  pub delete : Db → Bytes → Db
  pub values : Db → List Bytes
  -- go-priority-queue's `Insert`: of a pointer, which is always new, and of a string, which may be
  -- in the queue already
  pub insert_ref : Bytes → ℕ → Queue → Queue
  pub insert_key : Bytes → ℕ → Queue → Queue
  -- github.com/golang/protobuf
  pub transaction : Codec Transaction
  pub receipt : Codec Receipt
  pub account : Codec AccountState
  pub block : Codec Block
  pub contract : Codec ContractState
  pub proof : Codec MerkleProof
  pub roots : Codec MerkleRootsSigned
  pub vote : Codec CasperVote
  pub schnorr : Codec Schnorr
  pub sign_schnorr : Codec SignSchnorr
  pub withdraw : Codec ValidatorWithdraw
  pub money_withdraw : Codec MoneyWithdraw
  pub broadcast : Codec Broadcast
  pub request : Codec Request
  pub envelope : Codec Envelope
  pub interests : Codec Interests
  pub peers : Codec Peers
  pub peers_and_interests : Codec PeersAndInterests

-- An encoding that reports no error decodes to the message.
pub record RoundTrips {A : Type 0} (c : Codec A) : Type 0 where
  pub back : (a : A) → c.encodes a ≡ true → c.decode (c.encode a) ≡ a
  pub accepted : (a : A) → c.encodes a ≡ true → c.decodes (c.encode a) ≡ true

-- A write that reports no error is what the next reads see.
pub record Stores (x : External) : Type 0 where
  pub get-put :
      (db : Db) (k v : Bytes) (db' : Db)
      → x.put db k v ≡ some db'
      → (j : Bytes) → db' j ≡ (if k == j then some v else db j)
  pub get-delete : (db : Db) (k j : Bytes) → x.delete db k j ≡ (if k == j then none else db j)

-- The balances in the database are uint64 values.
pub record Balances (x : External) : Type 0 where
  pub balance_bound : (b : Bytes) → (x.account.decode b).balance < 2 ^ 64

-- The sizes of the digests.
pub record Digests (x : External) : Type 0 where
  pub ripemd160_length : (b : Bytes) → length (x.ripemd160 b) ≡ 20
  pub ripemd160_bytes : (b : Bytes) → All (λ d. d < 256) (x.ripemd160 b)
  pub crc32_bound : (b : Bytes) → x.crc32 b < 2 ^ 32
