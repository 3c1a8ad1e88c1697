-- ===== src/Network/Rounds/Phases.antt =====
-- networking/server.go, `ValidatorLoop`: what the parts of a round do to the block number.
use dexmd.Schnorr.{sign}
use dexmd.Proto.{SignSchnorr}
use dexmd.Network.Rounds.Signing.{
  announce, forget_shares, roots_down, collect_signers, signed_roots, commit, join_shares, share,
}
use dexmd.External.{External}
use dexmd.Network.Rounds.{Chance, Turn, gossip, send, Machine, update_shard}
use dexmd.Network.{
  MerkleRootsSigned, ValidatorsBook, make_envelope_broadcast, BroadcastType, Wallet, Blockchain,
  set_chain, Node, chain_of,
}
use std.Path.{subst}
use dexmd.Base.{lookup-insert_self}
use dexmd.Base.{
  Outcome-cases, ℕ, ◌+◌, ◌-◌, ◌%◌, ◌^◌, ◌≡◌, inl, inr, refl, ◌∙◌, Option, none, some, not, ◌||◌,
  arith, Bytes, bytes_eq, nat_eq, ◌==◌, Bool-cases, Option-cases, ok,
}
use dexmd.Proto.BroadcastType.{schnorr, sign_schnorr, merkle_roots_signed}

-- The number of the current block of a shard.
abbrev pub At : Node → ℕ → ℕ → Type 0
At cs shard n = (bc : Blockchain) × (chain_of cs shard ≡ ok bc) × (bc.current_block ≡ n)

pub At-set_chain :
    (cs : Node) (shard : ℕ) (bc : Blockchain) → At (set_chain cs shard bc) shard bc.current_block
unfolding chain_of set_chain
At-set_chain cs shard bc = (bc, rw (lookup-insert_self shard bc cs.shards_chain) refl, refl)

pub At-chains :
    (cs cs' : Node) (shard n : ℕ)
    → cs'.shards_chain ≡ cs.shards_chain
    → At cs shard n
    → At cs' shard n
unfolding chain_of
At-chains cs cs' shard n same (bc, there, is) = (bc, rw same there, is)

pub update_shard-At :
    (cs cs' : Node) (shard n : ℕ) (change : Blockchain → Blockchain)
    → update_shard cs shard change ≡ ok cs'
    → (bc : Blockchain) → chain_of cs shard ≡ ok bc
    → (change bc).current_block ≡ n
    → At cs' shard n
unfolding update_shard
update_shard-At cs cs' shard n change h bc there is =
    let made : set_chain cs shard (change bc) ≡ cs' = ground arith in
    subst (λ c. At c shard n) made
      (subst (At (set_chain cs shard (change bc)) shard) is (At-set_chain cs shard (change bc)))

module _ (x : External) (m : Machine) (w : Wallet) (wal : Bytes) (shard : ℕ) where
  pub send-node :
      (t t' : Turn) (payload : Bytes) (type : BroadcastType) (s : ℕ)
      → send x m w wal shard t payload type s ≡ ok t'
      → t'.node ≡ t.node
  unfolding send
  send-node t t' payload type s h =
      elim (Outcome-cases (make_envelope_broadcast x w payload type 1 s)) [
        | inl (env, e) ↦ ground arith
        | inr bad ↦ absurd (ground arith)
      ]

  pub gossip-node :
      (t t' : Turn) (c : Chance) → gossip x m w wal shard t c ≡ ok t' → t'.node ≡ t.node
  unfolding gossip
  gossip-node t t' c h = ground arith

  pub commit-node :
      (t t' : Turn) (c : Chance) → commit x m w wal shard t c ≡ ok t' → t'.node ≡ t.node
  unfolding commit
  commit-node t t' c h = elim (Outcome-cases (chain_of t.node shard)) [
    | inr bad ↦ absurd (ground arith)
    | inl (bc, there) ↦ elim (Bool-cases (bc.current_block % 30 == 0)) [
      | inr other ↦ ground arith
      | inl now ↦
          send-node (record t { current_k = some c.scalar }) t'
            (x.schnorr.encode (record { r = x.curve.point_mul c.scalar x.curve.base; p = wal }))
            schnorr shard (ground arith)
    ]
  ]

  share_message : ValidatorsBook → Blockchain → Bytes → Bytes → SignSchnorr
  share_message v bc key k =
      let signers = collect_signers x m w wal shard v bc.schnorr in
      let roots = roots_down x m w wal shard bc 30 ((bc.current_block + 2 ^ 64 - 3) % 2 ^ 64) in
      record {
        wallet = wal;
        r_schnorr = signers.my_r;
        p_schnorr = signers.my_p;
        sign_receipt = sign x.curve roots key signers.other_r signers.other_p k;
        message_sign_receipt = roots;
      }

  pub share-node : (t t' : Turn) → share x m w wal shard t ≡ ok t' → t'.node ≡ t.node
  unfolding share share_message
  share-node t t' h = elim (Outcome-cases (chain_of t.node shard)) [
    | inr bad ↦ absurd (ground arith)
    | inl (bc, there) ↦
        elim (Bool-cases (not (bc.current_block % 30 == 3) || bc.current_block == 3)) [
          | inl other ↦ ground arith
          | inr now ↦ elim (Option-cases (x.parse_scalar w.priv_key_schnorr)) [
            | inl bad ↦ absurd (ground arith)
            | inr (key, read) ↦ elim (Option-cases t.current_k) [
              | inl bad ↦ absurd (ground arith)
              | inr (k, drawn) ↦
                  let message = share_message t.node.validators bc key k in
                  send-node t t' (x.sign_schnorr.encode message) sign_schnorr shard (ground arith)
            ]
          ]
        ]
  ]

  forget_shares-block :
      (bc : Blockchain) → (forget_shares x m w wal shard bc).current_block ≡ bc.current_block
  unfolding forget_shares
  forget_shares-block bc = refl

  pub announce-node :
      (t t' : Turn) (made : Option MerkleRootsSigned)
      → announce x m w wal shard t made ≡ ok t'
      → t'.node ≡ t.node
  unfolding announce
  announce-node t t' none h = ground arith
  announce-node t t' (some mr) h = send-node t t' (x.roots.encode mr) merkle_roots_signed 0 h

  pub join_shares-At :
      (t t' : Turn) (n : ℕ)
      → join_shares x m w wal shard t ≡ ok t'
      → At t.node shard n
      → At t'.node shard n
  unfolding join_shares
  join_shares-At t t' n h (bc, there, is) =
      elim (Bool-cases (not (bc.current_block % 30 == 6) || bc.current_block == 6)) [
        | inl other ↦
            let same : t ≡ t' = ground arith in
            subst (λ (u : Turn). At u.node shard n) same (bc, there, is)
        | inr now ↦ elim (Outcome-cases (signed_roots x m w wal shard bc)) [
          | inr bad ↦ absurd (ground arith)
          | inl (made, e) ↦ elim (Outcome-cases (announce x m w wal shard t made)) [
            | inr bad ↦ absurd (ground arith)
            | inl (t1, sent) ↦
                elim (Outcome-cases (update_shard t1.node shard (forget_shares x m w wal shard))) [
                  | inr bad ↦ absurd (ground arith)
                  | inl (cs, cleared) ↦
                      let same = announce-node t t1 made sent in
                      let node_is : cs ≡ t'.node = ground arith in
                      let there1 : chain_of t1.node shard ≡ ok bc = rw same there in
                      subst (λ c. At c shard n) node_is
                        (update_shard-At t1.node cs shard n (forget_shares x m w wal shard) cleared
                          bc there1 (forget_shares-block bc ∙ is))
                ]
          ]
        ]
      ]
