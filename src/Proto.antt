-- ===== src/Proto.antt =====
-- The protobuf messages, with the fields that the source reads or writes. The generated code is
-- not part of the repository: encoding and decoding are parameters (External.antt). A getter on a
-- nil message returns the zero value, so a message inside another one is never absent here.
use dexmd.Base.{ℕ, Bool, List, Bytes}

pub record Transaction : Type 0 where
  pub sender : Bytes
  pub recipient : Bytes
  pub amount : ℕ
  pub gas : ℕ
  pub nonce : ℕ
  pub payload : Bytes
  pub shard : ℕ
  pub r : Bytes
  pub s : Bytes
  pub function : Bytes
  pub args : List ℕ
  pub contract_creation : Bool
  pub pub_schnorr_key : Bytes

pub record Receipt : Type 0 where
  pub sender : Bytes
  pub recipient : Bytes
  pub amount : ℕ
  pub nonce : ℕ

pub record AccountState : Type 0 where
  pub balance : ℕ

pub record Block : Type 0 where
  pub index : ℕ
  pub timestamp : ℕ
  pub miner : Bytes
  pub prev_hash : Bytes
  pub shard : ℕ
  pub transactions : List Transaction
  pub receipts_contracts : List Receipt
  pub merkle_root_receipt : Bytes

pub record ContractState : Type 0 where
  pub memory : Bytes
  pub globals : List ℕ
  pub locked : Bool
  pub allowed_wallet : Bytes

pub record MerkleProof : Type 0 where
  pub map_leaf : List Bytes
  pub map_hash : List Bytes
  pub root : Bytes
  pub leaf : Bytes
  pub receipt : Receipt
  pub transaction : Transaction
  pub shard : ℕ

pub record MerkleRootsSigned : Type 0 where
  pub shard : ℕ
  pub merkle_roots_receipt : List Bytes
  pub r_signed : Bytes
  pub s_signed : Bytes
  pub r_validators : List Bytes
  pub p_validators : List Bytes

pub record CasperVote : Type 0 where
  pub source : Bytes
  pub target : Bytes
  pub source_height : ℕ
  pub target_height : ℕ
  pub r : Bytes
  pub s : Bytes
  pub public_key : Bytes

pub record Schnorr : Type 0 where
  pub r : Bytes
  pub p : Bytes

pub record SignSchnorr : Type 0 where
  pub wallet : Bytes
  pub r_schnorr : Bytes
  pub p_schnorr : Bytes
  pub sign_receipt : Bytes
  pub message_sign_receipt : Bytes

pub record ValidatorWithdraw : Type 0 where
  pub public_key : Bytes

pub record MoneyWithdraw : Type 0 where
  pub wallet : Bytes

-- The signature that every envelope carries.
pub record Signature : Type 0 where
  pub pubkey : Bytes
  pub r : Bytes
  pub s : Bytes
  pub signed_data : Bytes

pub data BroadcastType : Type 0 where
  transaction block_proposal checkpoint_vote withdraw schnorr sign_schnorr : BroadcastType
  merkle_roots_signed merkle_proof money_withdraw : BroadcastType

pub record Broadcast : Type 0 where
  pub type : BroadcastType
  pub payload : Bytes
  pub address : Bytes
  pub shard_address : ℕ

pub data RequestType : Type 0 where
  request_get_blockchain_len request_get_peers request_get_block request_get_wallet_status
        request_get_version :
      RequestType
  request_get_contract_code request_get_interests request_other : RequestType

pub record Request : Type 0 where
  pub type : RequestType
  pub payload : Bytes
  pub address : Bytes
  pub shard_address : ℕ

pub data EnvelopeType : Type 0 where
  broadcast request other interests neighbour_interests : EnvelopeType

pub record Envelope : Type 0 where
  pub payload : Bytes
  pub type : EnvelopeType
  pub shard : ℕ
  pub identity : Signature
  pub ttl : ℕ

pub record Interests : Type 0 where
  pub keys : List Bytes
  pub address : Bytes
  pub shard_address : ℕ

pub record Peers : Type 0 where
  pub ip : List Bytes

pub record PeersAndInterests : Type 0 where
  pub keys : List Bytes
  pub ips : List Bytes
  pub address : Bytes
  pub shard_address : ℕ
