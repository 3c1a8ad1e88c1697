-- ===== src/Network/Requests.antt =====
-- networking/handler.go, `handleMessage`: the answers to requests.
use dexmd.Base.{
  keys, ℕ, zero, suc, ◌+◌, ◌*◌, [], ◌∷◌, map, Option, none, some, Bool, not, Bytes, bytes_eq,
  nat_eq, ◌==◌, if◌then◌else◌, Outcome, ok, err, panic, Error, ◌>>=◌, ◌>>◌, fail_if, or_fail, Dict,
}
use dexmd.Text.{text, decimal}
use dexmd.Proto.{Request, Signature, Peers, Interests}
use dexmd.Proto.RequestType.{
  request_get_blockchain_len, request_get_peers, request_get_block, request_get_wallet_status,
  request_get_version, request_get_contract_code, request_get_interests, request_other,
}
use dexmd.External.{External}
use dexmd.Chain.{Blockchain, get_block, get_wallet_state, get_contract_code}
use dexmd.Network.{Node, check_shard, chain_of}

abbrev pub answer_error : Bytes
answer_error = text "Error"

-- `binary.Read` of a little-endian uint64: the first eight bytes, if there are as many.
unfoldable pub read_u64 : ℕ → Bytes → Option ℕ
read_u64 zero s = some 0
read_u64 (suc n) [] = none
read_u64 (suc n) (b ∷ s) = elim (read_u64 n s) [ none ↦ none | some high ↦ some (b + 256 * high) ]

-- An error of a database is answered with the text "Error".
unfoldable pub or_error : Outcome Bytes → Outcome Bytes
or_error (ok s) = ok s
or_error (err _) = ok answer_error
or_error panic = panic

module _ (x : External) (address : ℕ → Bytes) where
  -- The addresses of the connections, which the operating system knows.
  unfoldable pub peers : Dict ℕ Bool → Peers
  peers clients = record { ip = map address (keys clients) }

  -- The cases that ask for a shard's chain.
  unfoldable pub answer_shard : Node → ℕ → (Blockchain → Outcome Bytes) → Outcome Bytes
  answer_shard cs shard answer =
      if not (check_shard cs shard)
      then ok answer_error
      else do bc ← chain_of cs shard; or_error (answer bc)

  unfoldable pub answer_block : Bytes → Blockchain → Outcome Bytes
  unfolding read_u64
  answer_block payload bc = do
    index ← or_fail (read_u64 8 payload) Error.codec
    get_block x bc index

  unfoldable pub answer_wallet : Bytes → Blockchain → Outcome Bytes
  answer_wallet payload bc = do
    state ← get_wallet_state x bc payload
    fail_if (not (x.account.encodes state)) Error.codec
    ok (x.account.encode state)

  -- The switch on the type of the request.
  unfoldable pub answer : Node → Request → ℕ → Outcome Bytes
  unfolding peers answer_shard answer_block answer_wallet or_error
  answer cs r shard = elim r.type [
    | request_get_blockchain_len ↦ answer_shard cs shard (λ bc. ok (decimal bc.current_block))
    | request_get_peers ↦ ok (
        if x.peers.encodes (peers cs.clients)
        then x.peers.encode (peers cs.clients)
        else answer_error)
    | request_get_block ↦ answer_shard cs shard (answer_block r.payload)
    | request_get_wallet_status ↦ answer_shard cs shard (answer_wallet r.payload)
    | request_get_version ↦ ok (text "0.0 Hackney")
    | request_get_contract_code ↦ answer_shard cs shard (λ bc. get_contract_code x bc r.payload)
    | request_get_interests ↦
        let p : Interests = record { keys = cs.interests; address = []; shard_address = 0 } in
        ok (x.interests.encode p)
    | request_other ↦ ok []
  ]

  -- `handleMessage`
  unfoldable pub handle_message : Node → Bytes → ℕ → Signature → Outcome Bytes
  unfolding answer
  handle_message cs data_envelope shard identity =
      if not (x.request.decodes data_envelope)
      then ok answer_error
      else let r = x.request.decode data_envelope in
        if not (r.address == identity.pubkey) then ok answer_error else answer cs r shard
