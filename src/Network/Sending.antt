-- ===== src/Network/Sending.antt =====
-- networking/transaction.go, `SendTransaction`: the message that a client sends to a peer.
use dexmd.Network.{get_pub_key, Broadcast, Envelope}
use dexmd.Wallet.{new_transaction, Wallet}
use dexmd.External.{External}
use dexmd.Base.{
  ℕ, ◌%◌, ◌^◌, [], Option, none, some, not, Bytes, bytes_eq, nat_eq, if◌then◌else◌, Outcome, ok,
  err, panic,
}
use dexmd.Base.Int.{to_i64}
use dexmd.Proto.BroadcastType.{transaction}
use dexmd.Proto.EnvelopeType.{broadcast}

module _ (x : External) where
  -- The envelope around a transaction; `none` if the hash cannot be signed.
  unfoldable pub seal_transaction : Wallet → Bytes → ℕ → Option Envelope
  seal_transaction w trans shard_address =
      let pub_key : Bytes = elim (get_pub_key x w) [ ok key ↦ key | err _ ↦ [] | panic ↦ [] ] in
      let hash = x.sha256 trans in
      elim (x.ecdsa_sign w.priv_key hash) [
        | none ↦ none
        | some (r, s) ↦
            let tr_broad : Broadcast = record {
              type = transaction;
              payload = trans;
              address = pub_key;
              shard_address = shard_address;
            } in
            some (record {
              payload = x.broadcast.encode tr_broad;
              type = broadcast;
              shard = 0;
              identity = record { pubkey = pub_key; r = r; s = s; signed_data = hash };
              ttl = 64;
            })
      ]

  -- The body of the loop over the peers, after the answer to the request for the wallet's state: the
  -- wallet with the balance that the peer tells, and the envelope. `some` is a message that is sent,
  -- `none` a `continue`. The state is decoded from the data of an envelope, and an error of it is not
  -- looked at. The function's name, the flag for a new contract and the error of `GetWallet` are not
  -- used.
  unfoldable pub send_transaction :
      Wallet → Bytes → ℕ → ℕ → Bytes → ℕ → ℕ → Bytes → Wallet × Outcome (Option Envelope)
  unfolding seal_transaction
  send_transaction w recipient amount gas cdata shard_address nonce msg =
      if not (x.envelope.decodes msg)
      then (w, ok none)
      else let status = x.account.decode (x.envelope.decode msg).payload in
        let informed : Wallet = record w { balance = to_i64 status.balance } in
        let (w', made) =
          new_transaction x informed recipient amount (gas % 2 ^ 32) cdata shard_address nonce in
        elim made [
          | panic ↦ (w', panic)
          | err _ ↦ (w', ok none)
          | ok trans ↦ (w', ok (seal_transaction w' trans shard_address))
        ]
