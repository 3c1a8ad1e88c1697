-- ===== src/Network/Examples.antt =====
-- The theorems on the messages of a node, at concrete values.
use dexmd.ForkChoice.{arrival_order}
use dexmd.Text.{hex_string}
use dexmd.Text.{decimal}
use dexmd.Chain.{add_missing_block}
use dexmd.External.Toy.{lossy}
use dexmd.Chain.{block_key}
use dexmd.ForkChoice.{place_block}
use dexmd.Network.{set_chain}
use dexmd.Chain.{save_block}
use dexmd.Wallet.{set_bytes}
use dexmd.Base.{◌++◌, bytes_beq}
use dexmd.Base.{
  ℕ, ◌≡◌, refl, sym, ap, ◌∙◌, List, [], ◌∷◌, none, some, Bool, true, false, ◌&&◌, arith, Bytes,
  bytes_eq, nat_eq, ◌==◌, if◌then◌else◌, ok, lookup, insert,
}
use dexmd.Base.{bytes_beq_iff, nat_beq_iff}
use dexmd.Proto.{EnvelopeType, Envelope, Broadcast, BroadcastType}
use dexmd.Proto.BroadcastType.{
  withdraw, transaction, block_proposal, checkpoint_vote, schnorr, sign_schnorr,
  merkle_roots_signed, merkle_proof, money_withdraw,
}
use dexmd.External.{External, RoundTrips}
use dexmd.External.Toy.{toy, no_block}
use dexmd.Chain.{Blockchain}
use dexmd.Chain.Samples.{bob, chain}
use dexmd.ForkChoice.{known}
use dexmd.Network.Samples.{node, purse}
use dexmd.Network.{Node, accept_envelope, make_envelope_broadcast}
use dexmd.Network.Broadcasts.{propose, handle_broadcast, dispatch}
use dexmd.Network.Sealing.{Signs, handle_broadcast-make_envelope}
use dexmd.Network.Proposals.{MissingUnknown, propose-known}

abbrev messages : List Bytes
messages = (1 ∷ []) ∷ (2 ∷ []) ∷ []

abbrev is_withdraw : BroadcastType → Bool
is_withdraw withdraw = true
is_withdraw _ = false

is_withdraw_sound : (type : BroadcastType) → is_withdraw type ≡ true → type ≡ withdraw
is_withdraw_sound withdraw h = refl
is_withdraw_sound transaction h = absurd (ground arith)
is_withdraw_sound block_proposal h = absurd (ground arith)
is_withdraw_sound checkpoint_vote h = absurd (ground arith)
is_withdraw_sound schnorr h = absurd (ground arith)
is_withdraw_sound sign_schnorr h = absurd (ground arith)
is_withdraw_sound merkle_roots_signed h = absurd (ground arith)
is_withdraw_sound merkle_proof h = absurd (ground arith)
is_withdraw_sound money_withdraw h = absurd (ground arith)

abbrev leave : Bytes → Broadcast
leave payload = record { type = withdraw; payload = payload; address = 1 ∷ []; shard_address = 1 }

-- A codec for withdrawals of one key: it writes the payload.
abbrev carrying : External
carrying = record toy {
  broadcast = record {
    encode = λ b. b.payload;
    encodes = λ b. is_withdraw b.type && (b.address == (1 ∷ []) && b.shard_address == 1);
    decodes = λ s. true;
    decode = leave;
  };
}

carrying-RoundTrips : RoundTrips carrying.broadcast
carrying-RoundTrips = record {
  back = λ b h.
      let type_is = is_withdraw_sound b.type (ground arith) in
      let address_is : b.address ≡ 1 ∷ [] = (bytes_beq_iff b.address (1 ∷ [])).0 (ground arith) in
      let shard_is : b.shard_address ≡ 1 = (nat_beq_iff b.shard_address 1).0 (ground arith) in
      sym (
        ap (λ k. record b { type = k }) type_is
        ∙ (ap
              (λ k. record {
                type = withdraw;
                payload = b.payload;
                address = k;
                shard_address = b.shard_address;
              })
              address_is
            ∙ ap
                (λ k. record {
                  type = withdraw;
                  payload = b.payload;
                  address = 1 ∷ [];
                  shard_address = k;
                })
                shard_is));
  accepted = λ b h. refl;
}

carrying-Signs : Signs carrying (1 ∷ [])
unfolding set_bytes
carrying-Signs = record {
  pkix = 1 ∷ [];
  public_key = 1 ∷ [];
  marshalled = refl;
  parsed = refl;
  signs = λ digest. (1 ∷ [], 1 ∷ [], refl, refl);
}

handle_broadcast-make_envelope_example :
    (env : Envelope) × (make_envelope_broadcast carrying purse (6 ∷ []) withdraw 1 1 ≡ ok env)
    × (accept_envelope carrying env ≡ ok true)
    × ((cs : Node) (now_ms : ℕ)
        → handle_broadcast carrying cs env.payload env.shard env.identity now_ms
          ≡ dispatch carrying cs (leave (6 ∷ [])) 1 now_ms)
unfolding bytes_beq carrying-Signs
handle_broadcast-make_envelope_example =
    handle_broadcast-make_envelope carrying purse carrying-Signs (6 ∷ []) withdraw 1 1
      carrying-RoundTrips refl

abbrev waiting : Blockchain
waiting = record chain {
  block_db = λ j. if (b'0' ∷ []) == j then some (0 ∷ []) else none;
  missing_block =
      (
        [],
        record {
          sequence_block = 1;
          arrival_order = 377;
          hightest_block = [];
          blocks_to_recalculate = [];
        },
      )
      ∷ [];
}

abbrev proposed : Node
proposed = record node { shards_chain = (1, waiting) ∷ [] }

proposal_handled : propose toy node chain 1 no_block 123 ≡ (proposed, ok tt)
unfolding propose save_block set_chain insert place_block block_key lossy lookup add_missing_block
    decimal hex_string arrival_order
proposal_handled = refl

none_missing : MissingUnknown toy chain
unfolding lookup
none_missing h mb e = absurd (ground arith)

propose-known_example :
    (bc' : Blockchain) × (lookup 1 proposed.shards_chain ≡ some bc')
    × MissingUnknown toy bc'
    × ((j : Bytes) → known toy bc' j ≡ known toy chain j)
propose-known_example =
    propose-known toy node proposed chain 1 no_block 123 none_missing proposal_handled

-- What a client sends over such a codec has the hash of the transaction.
abbrev encoded : Bytes
encoded = 1 ∷ bob ++ 5 ∷ 0 ∷ []

abbrev sent_payment : Envelope
sent_payment = record {
  payload = encoded;
  type = EnvelopeType.broadcast;
  shard = 0;
  identity = record { pubkey = 1 ∷ []; r = 1 ∷ []; s = 1 ∷ []; signed_data = encoded };
  ttl = 64;
}
