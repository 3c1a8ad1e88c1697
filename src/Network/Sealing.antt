-- ===== src/Network/Sealing.antt =====
-- networking/import.go and networking/server.go: the envelopes that a node makes pass the checks of
-- the others.
use dexmd.Base.{
  ℕ, ◌≡◌, refl, ap, ◌∙◌, [], some, true, not, Bytes, bytes_eq, nat_eq, if◌then◌else◌, Outcome, ok,
  err, panic, ◌>>=◌,
}
use dexmd.Proto.{Envelope, BroadcastType, Broadcast, Signature}
use dexmd.External.{External, RoundTrips, ecdsa}
use dexmd.Wallet.{Wallet, get_pub_key, signature_valid, set_bytes}
use dexmd.Proto.EnvelopeType.{broadcast}
use dexmd.Base.{eq_self}
use dexmd.Network.Broadcasts.{handle_broadcast, dispatch}
use dexmd.Network.{Node, accept_envelope, make_envelope_broadcast, sealed}

-- crypto/ecdsa and crypto/x509: a signature that is made verifies under the encoded public key.
pub record Signs (x : External) (key : Bytes) : Type 0 where
  pub pkix : Bytes
  pub public_key : Bytes
  pub marshalled : x.marshal_pkix key ≡ some pkix
  pub parsed : x.parse_pkix pkix ≡ some (ecdsa public_key)
  pub signs :
      (digest : Bytes)
      → (r : Bytes) × (s : Bytes) × (x.ecdsa_sign key digest ≡ some (r, s))
        × (x.ecdsa_verify public_key digest (set_bytes 0 r) (set_bytes 0 s) ≡ true)

module _ (x : External) (w : Wallet) (signing : Signs x w.priv_key) where
  -- What sealing a payload gives.
  record Sealing (payload : Bytes) : Type 0 where
    identity : Signature
    made : sealed x w payload ≡ ok identity
    pubkey : identity.pubkey ≡ signing.pkix
    digest : identity.signed_data ≡ x.sha256 payload
    valid : signature_valid x identity.pubkey identity.r identity.s (x.sha256 payload) ≡ ok true

  sealing : (payload : Bytes) → Sealing payload
  unfolding sealed get_pub_key signature_valid
  sealing payload =
      let (r, s, signed, verifies) = signing.signs (x.sha256 payload) in
      record {
        identity = record { pubkey = signing.pkix; r = r; s = s; signed_data = x.sha256 payload };
        made = rw (signed, signing.marshalled) refl;
        pubkey = refl;
        digest = refl;
        valid = rw (signing.parsed, verifies) refl;
      }

  key_bytes : elim (get_pub_key x w) [ ok key ↦ key | err _ ↦ [] | panic ↦ [] ] ≡ signing.pkix
  unfolding get_pub_key
  key_bytes = rw (get_pub_key, signing.marshalled) refl

  accept_sealed :
      (env : Envelope)
      → (s : Sealing env.payload) → env.identity ≡ s.identity
      → accept_envelope x env ≡ ok true
  unfolding accept_envelope
  accept_sealed env s same = rw (same, s.valid, s.digest) (ap ok (eq_self (x.sha256 env.payload)))

  -- For a key that signs and a broadcast that encodes and decodes to itself: the envelope that
  -- `MakeEnvelopeBroadcast` makes passes the checks of `read` and `run`, and `handleBroadcast`
  -- finds in it the broadcast that was put in, under the address of the signature.
  pub handle_broadcast-make_envelope :
      (payload : Bytes) (type : BroadcastType) (shard_address shard : ℕ)
      → RoundTrips x.broadcast
      → x.broadcast.encodes (record {
        payload = payload;
        type = type;
        address = signing.pkix;
        shard_address = shard_address;
      })
        ≡ true
      → (env : Envelope) × (make_envelope_broadcast x w payload type shard_address shard ≡ ok env)
        × (accept_envelope x env ≡ ok true)
        × ((cs : Node) (now_ms : ℕ)
            → handle_broadcast x cs env.payload env.shard env.identity now_ms
              ≡ dispatch x cs
                  (record {
                    payload = payload;
                    type = type;
                    address = signing.pkix;
                    shard_address = shard_address;
                  })
                  shard
                  now_ms)
  unfolding make_envelope_broadcast handle_broadcast
  handle_broadcast-make_envelope payload type shard_address shard trips encodes =
      let b : Broadcast = record {
        payload = payload;
        type = type;
        address = signing.pkix;
        shard_address = shard_address;
      } in
      let raw = x.broadcast.encode b in
      let envelope_of : Bytes → Signature → Outcome Envelope = λ p identity.
        ok (record {
          payload = p;
          type = broadcast;
          shard = shard;
          identity = identity;
          ttl = 64;
        }) in
      let at : Bytes → Bytes = λ a.
        x.broadcast.encode
          (record { payload = payload; type = type; address = a; shard_address = shard_address }) in
      let seal : Bytes → Outcome Envelope = λ p. sealed x w p >>= envelope_of p in
      let s = sealing raw in
      let env : Envelope = record {
        payload = raw;
        type = broadcast;
        shard = shard;
        identity = s.identity;
        ttl = 64;
      } in
      (
        env,
        ap (λ a. seal (at a)) key_bytes ∙ ap (λ o. o >>= envelope_of raw) s.made,
        accept_sealed env s refl,
        λ cs now_ms.
            rw (trips.accepted b encodes, trips.back b encodes, s.pubkey)
              (ap (λ c. if not c then (cs, ok tt) else dispatch x cs b shard now_ms)
                (eq_self signing.pkix)),
      )
