-- ===== src/Network.antt =====
-- networking/server.go, networking/broadcast.go and networking/handler.go: the state of a node, the
-- messages that it accepts, and what it does with them.
pub mod Broadcasts
pub mod Requests
pub mod Duplicates
pub mod Sealing
pub mod Filtering
pub mod Proposals
pub mod Sync
pub mod Reading
pub mod Hub
pub mod Sending
pub mod Rounds
mod Samples
mod Examples
use dexmd.Base.{
  drop, keys, ℕ, zero, suc, ◌+◌, ◌-◌, ◌*◌, ◌/◌, ◌%◌, ◌^◌, ◌≤◌, ◌<◌, ◌≡◌, ◌≢◌, ◌↔◌, ◌⊎◌, inl, inr,
  refl, sym, ap, ◌∙◌, List, [], ◌∷◌, ◌++◌, map, Option, none, some, Bool, true, false, not, ◌&&◌,
  ◌||◌, arith, Bytes, bytes_eq, nat_eq, ◌==◌, if◌then◌else◌, ltb, leb, Bool-cases, Option-cases,
  length, All, replicate, dec_lt, Outcome, ok, err, panic, Error, ◌>>=◌, ◌>>◌, fail_if, or_fail,
  or_panic, Dict, lookup, insert, erase,
}
use dexmd.Text.{text, decimal, itoa, parse_hex32, hex_string}
use dexmd.Base.Int.{to_i64}
use dexmd.Proto.{
  Block, Envelope, Interests, Signature, Broadcast, BroadcastType, MerkleRootsSigned, Request,
  RequestType,
}
use dexmd.Proto.EnvelopeType.{broadcast, request}
use dexmd.External.{External, Db}
use dexmd.Wallet.{signature_valid, set_bytes, Wallet, get_pub_key}
use dexmd.Chain.{Blockchain}
use dexmd.Validators.{ValidatorsBook}
use dexmd.Casper.{mem_bytes, without}

-- `ConnectionStore` with its `BeaconChain`, and the package variables `hashMessages` and
-- `ReceiptBurned`. A connection is a number, and the map `clients` says whether it is open.
pub record Node : Type 0 where
  pub clients : Dict ℕ Bool
  pub shards_chain : Dict ℕ Blockchain
  pub merkle_roots_db : Dict ℕ Db
  pub validators : ValidatorsBook
  pub beacon_block : Dict ℕ ℕ
  pub interests : List Bytes
  pub interested_clients : Dict Bytes (List ℕ)
  pub hash_messages : List Bytes
  pub receipt_burned : Dict Bytes Bool

-- `AddInterest`
unfoldable pub add_interest : Node → Bytes → Node
add_interest cs key =
    if mem_bytes key cs.interests then cs else record cs { interests = key ∷ cs.interests }

-- `RemoveInterest`
unfoldable pub remove_interest : Node → Bytes → Node
remove_interest cs key = record cs { interests = without (key ∷ []) cs.interests }

-- The loop of `CheckShard` over the interests.
unfoldable pub interested : ℕ → List Bytes → Bool
interested shard [] = false
interested shard (interest ∷ interests) =
    let rest = interested shard interests in
    elim (parse_hex32 interest) [ none ↦ rest | some n ↦ if shard == n then true else rest ]

-- `CheckShard`
unfoldable pub check_shard : Node → ℕ → Bool
unfolding interested
check_shard cs shard = if shard == 0 then false else interested shard cs.interests

-- `checkDuplicatedMessage`: true for a hash that is remembered; a new one is, and the oldest of more
-- than 5000 is forgotten.
unfoldable pub check_duplicated_message : List Bytes → Bytes → List Bytes × Bool
check_duplicated_message hashes hash =
    if mem_bytes hash hashes
    then (hashes, true)
    else if ltb 5000 (length (hashes ++ hash ∷ []))
    then (drop 1 (hashes ++ hash ∷ []), false)
    else (hashes ++ hash ∷ [], false)

-- A pointer into the map of chains; a shard without one is a nil pointer, and using it panics.
unfoldable pub chain_of : Node → ℕ → Outcome Blockchain
chain_of cs shard = or_panic (lookup shard cs.shards_chain)

unfoldable pub set_chain : Node → ℕ → Blockchain → Node
set_chain cs shard bc = record cs { shards_chain = insert shard bc cs.shards_chain }

module _ (x : External) where
  -- The checks on an envelope in `read` and in `run`: the signature of the hash of the data, and the
  -- hash that the signature carries. `err` and `ok false` are a `continue`.
  unfoldable pub accept_envelope : Envelope → Outcome Bool
  accept_envelope env = do
    let hash = x.sha256 env.payload
    valid ← signature_valid x env.identity.pubkey env.identity.r env.identity.s hash
    ok (valid && hash == env.identity.signed_data)

  -- The rest of the case for a broadcast in `run`: what is sent on, and to which connections. The
  -- time to live is counted down first; as a uint32, 0 wraps around and is then too large.
  unfoldable pub forward : Node → Envelope → Option Envelope
  forward cs env =
      let ttl = (env.ttl + 2 ^ 32 - 1) % 2 ^ 32 in
      if ltb ttl 1 || ltb 64 ttl then none else some (record env { ttl = ttl })

  unfoldable pub is_open : Node → ℕ → Bool
  is_open cs client = elim (lookup client cs.clients) [ none ↦ false | some b ↦ b ]

  unfoldable pub only_open : Node → List ℕ → List ℕ
  unfolding is_open
  only_open cs [] = []
  only_open cs (c ∷ clients) =
      if is_open cs c then c ∷ only_open cs clients else only_open cs clients

  -- Everyone if there are few connections, and otherwise those that are interested in the shard.
  unfoldable pub receivers : Node → ℕ → List ℕ
  unfolding only_open
  receivers cs shard =
      if ltb (length cs.clients) 50
      then only_open cs (keys cs.clients)
      else elim (lookup (decimal shard) cs.interested_clients) [
        | none ↦ []
        | some clients ↦ only_open cs clients
      ]

  -- The case for a broadcast of `run`: the message, and the connections it goes to.
  unfoldable pub relay : Node → Envelope → Outcome (Option (Envelope × List ℕ))
  unfolding accept_envelope forward receivers
  relay cs env = elim (accept_envelope env) [
    | panic ↦ panic
    | err _ ↦ ok none
    | ok false ↦ ok none
    | ok true ↦ elim (forward cs env) [
      | none ↦ ok none
      | some sent ↦
          ok (if x.envelope.encodes sent then some (sent, receivers cs env.shard) else none)
    ]
  ]

  -- `Sign`: the signature of a digest by the node's key.
  unfoldable pub sealed : Wallet → Bytes → Outcome Signature
  unfolding get_pub_key
  sealed w payload = do
    let hash = x.sha256 payload
    (r, s) ← or_panic (x.ecdsa_sign w.priv_key hash)
    ok (record {
      pubkey = elim (get_pub_key x w) [ ok key ↦ key | err _ ↦ [] | panic ↦ [] ];
      r = r;
      s = s;
      signed_data = hash;
    })

  -- `MakeEnvelopeBroadcast`, up to the channel.
  unfoldable pub make_envelope_broadcast : Wallet → Bytes → BroadcastType → ℕ → ℕ → Outcome Envelope
  unfolding sealed
  make_envelope_broadcast w payload type shard_address shard_envelope = do
    let data_broadcast : Broadcast = record {
      payload = payload;
      type = type;
      address = elim (get_pub_key x w) [ ok key ↦ key | err _ ↦ [] | panic ↦ [] ];
      shard_address = shard_address;
    }
    let raw = x.broadcast.encode data_broadcast
    identity ← sealed w raw
    ok (record {
      payload = raw;
      type = broadcast;
      shard = shard_envelope;
      identity = identity;
      ttl = 64;
    })

  -- networking/import.go, the envelope of `MakeSpecificRequest`.
  unfoldable pub make_specific_request : Wallet → ℕ → Bytes → RequestType → ℕ → Outcome Envelope
  unfolding sealed
  make_specific_request w shard data_request type shard_address = do
    let req : Request = record {
      payload = data_request;
      type = type;
      address = elim (get_pub_key x w) [ ok key ↦ key | err _ ↦ [] | panic ↦ [] ];
      shard_address = shard_address;
    }
    let raw = x.request.encode req
    identity ← sealed w raw
    ok (record { payload = raw; type = request; shard = shard; identity = identity; ttl = 64 })

  -- `AddGenesisToQueue`
  unfoldable pub add_genesis_to_queue : Node → Block → ℕ → Outcome Node
  unfolding chain_of set_chain
  add_genesis_to_queue cs block shard = do
    let key = hex_string (x.sha256 (x.sha256 (x.block.encode block)))
    bc ← chain_of cs shard
    ok (
        set_chain cs shard (record bc {
          priority_blocks = x.insert_key key 0 bc.priority_blocks;
          hash_blocks = insert key 0 bc.hash_blocks;
        }))

  -- blockchain/processing.go, `SaveMerkleRoots`: the number of the roots is counted up first.
  unfoldable pub save_merkle_roots : Node → MerkleRootsSigned → Node × Outcome (Unit {0})
  save_merkle_roots cs mr =
      let number : ℕ =
        (elim (lookup mr.shard cs.beacon_block) [ none ↦ 0 | some n ↦ n ] + 1) % 2 ^ 64 in
      let counted : Node = record cs { beacon_block = insert mr.shard number cs.beacon_block } in
      elim (lookup mr.shard cs.merkle_roots_db) [
        | none ↦ (counted, panic)
        | some db ↦ elim (x.put db (itoa (to_i64 number)) (x.roots.encode mr)) [
          | none ↦ (counted, err Error.database)
          | some db' ↦
              (record counted { merkle_roots_db = insert mr.shard db' cs.merkle_roots_db }, ok tt)
        ]
      ]

  -- `GetMerkleRoots`
  unfoldable pub get_merkle_roots : Node → ℕ → ℕ → Outcome Bytes
  get_merkle_roots cs index shard = do
    db ← or_panic (lookup shard cs.merkle_roots_db)
    or_fail (db (itoa (to_i64 index))) Error.database
