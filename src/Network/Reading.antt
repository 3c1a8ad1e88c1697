-- ===== src/Network/Reading.antt =====
-- networking/server.go, `read`: what a node does with a message that comes in on a connection.
pub mod Hops
mod Examples
use dexmd.Network.Requests.{handle_message}
use dexmd.Network.{
  get_pub_key, Interests, decimal, Node, accept_envelope, check_duplicated_message, sealed,
}
use dexmd.Wallet.{Wallet}
use dexmd.External.{External}
use dexmd.Proto.{Envelope}
use dexmd.Base.{
  Outcome-cases, drop, take, keys, ℕ, zero, suc, ◌+◌, ◌-◌, ◌*◌, ◌/◌, ◌%◌, ◌^◌, ◌≤◌, ◌<◌, ◌≡◌, ◌≢◌,
  ◌↔◌, ◌⊎◌, inl, inr, refl, sym, ap, ◌∙◌, List, [], ◌∷◌, ◌++◌, map, Option, none, some, Bool, true,
  false, not, ◌&&◌, ◌||◌, arith, Bytes, bytes_eq, nat_eq, ◌==◌, if◌then◌else◌, ltb, leb, Bool-cases,
  Option-cases, length, All, replicate, Outcome, ok, err, panic, Error, ◌>>=◌, ◌>>◌, fail_if,
  or_fail, or_panic, Dict, lookup, insert, erase, bytes_beq,
}
use dexmd.Base.Int.{ℤ, pos, negsuc, to_i64, to_u64, ltb_ℤ, wrap_i64, negate, ◌+ℤ◌}
use dexmd.Proto.EnvelopeType.{broadcast, request, other, interests, neighbour_interests}

-- What becomes of a message. A broadcast is handled, and relayed if the flag says so; a request has an
-- answer, other data goes to whoever waits for it, and interests are noted for the connection.
pub data Received : Type 0 where
  skipped : Received
  for_handler : (relayed : Bool) → Received
  answer_with : Envelope → Received
  for_reader : Bytes → Received
  with_interests : List Bytes → Received

module _ (x : External) (address : ℕ → Bytes) (w : Wallet) where
  -- The message with the node's interests that a new connection is sent, by `run` and by `Connect`.
  unfoldable pub greeting : Node → Outcome Envelope
  unfolding sealed
  greeting cs = do
    let p : Interests = record {
      keys = cs.interests;
      address = elim (get_pub_key x w) [ ok key ↦ key | err _ ↦ [] | panic ↦ [] ];
      shard_address = w.shard;
    }
    let raw = x.interests.encode p
    identity ← sealed x w raw
    ok (record { payload = raw; type = interests; shard = 0; identity = identity; ttl = 0 })

  -- The answer to a request, in an envelope.
  unfoldable pub reply : Node → Envelope → Outcome Envelope
  unfolding sealed handle_message
  reply cs env = do
    raw ← handle_message x address cs env.payload env.shard env.identity
    identity ← sealed x w raw
    ok (record { payload = raw; type = other; shard = env.shard; identity = identity; ttl = 0 })

  unfoldable pub has_interested : Node → ℕ → Bool
  has_interested cs shard = elim (lookup (decimal shard) cs.interested_clients) [
    | none ↦ false
    | some _ ↦ true
  ]

  -- The switch on the type. The message about neighbours is an empty one whatever was sent.
  unfoldable pub sort_message : Node → Envelope → Outcome (Node × Received)
  unfolding check_duplicated_message reply has_interested
  sort_message cs env = elim env.type [
    | broadcast ↦
        let (hashes, skip) = check_duplicated_message cs.hash_messages (x.sha256 env.payload) in
        if skip
        then ok (cs, skipped)
        else ok (record cs { hash_messages = hashes }, for_handler (has_interested cs env.shard))
    | request ↦ do answer ← reply cs env; ok (cs, answer_with answer)
    | other ↦ ok (cs, for_reader env.payload)
    | interests ↦
        if x.interests.decodes env.payload
        then ok (cs, with_interests (x.interests.decode env.payload).keys)
        else ok (cs, skipped)
    | neighbour_interests ↦ ok (cs, with_interests [])
  ]

  -- The body of the loop in `read`.
  unfoldable pub read_message : Node → Bytes → Outcome (Node × Received)
  unfolding accept_envelope sort_message
  read_message cs msg =
      if not (x.envelope.decodes msg)
      then ok (cs, skipped)
      else let env = x.envelope.decode msg in
        elim (accept_envelope x env) [
          | err _ ↦ ok (cs, skipped)
          | panic ↦ panic
          | ok accepted ↦ if accepted then sort_message cs env else ok (cs, skipped)
        ]
