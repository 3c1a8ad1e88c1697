-- ===== src/Network/Rounds/Signing.antt =====
-- networking/server.go, `ValidatorLoop`: the rounds of a joint signature, and a whole round.
use dexmd.Validators.Draw.{choose_validator}
use dexmd.Schnorr.{sign, create_signature}
use dexmd.Network.Rounds.{
  produce, change_shard, gossip, Chance, expect_validator, send, Turn, count_up, update_shard,
}
use dexmd.Chain.{get_block, Blockchain}
use dexmd.Validators.{
  check_is_validator, check_is_validator, get_schnorr_public_key, ValidatorsBook,
}
use dexmd.Network.{chain_of}
use dexmd.Wallet.{Wallet}
use dexmd.Contracts.{Machine}
use dexmd.External.{External}
use dexmd.Base.{
  get_elem?, drop, ℕ, zero, suc, ◌+◌, ◌-◌, ◌%◌, ◌^◌, List, [], ◌∷◌, ◌++◌, Option, none, some, Bool,
  true, not, ◌||◌, Bytes, bytes_eq, nat_eq, ◌==◌, if◌then◌else◌, length, Outcome, ok, err, panic,
  ◌>>=◌, or_panic, Dict,
}
use dexmd.Base.Int.{to_i64}
use dexmd.Proto.{Schnorr, SignSchnorr, MerkleRootsSigned}
use dexmd.Proto.BroadcastType.{schnorr, sign_schnorr, merkle_roots_signed}

-- The points of the node itself, as the message carries them, and those of the others.
pub record Signers : Type 0 where
  pub my_r : Bytes
  pub my_p : Bytes
  pub other_r : List Bytes
  pub other_p : List Bytes

module _ (x : External) (m : Machine) (w : Wallet) (wal : Bytes) (shard : ℕ) where
  -- Every 30 blocks: a random scalar `k` and the broadcast of `k * G`.
  unfoldable pub commit : Turn → Chance → Outcome Turn
  unfolding chain_of
  commit t c = do
    bc ← chain_of t.node shard
    if not (bc.current_block % 30 == 0) then ok t else do
      let message : Schnorr = record { r = x.curve.point_mul c.scalar x.curve.base; p = wal }
      send x m w wal shard (record t { current_k = some c.scalar }) (x.schnorr.encode message)
          schnorr shard

  -- The loop over the commitments that have arrived. The node's own is kept apart; one without a
  -- point or a key is passed over.
  unfoldable pub collect_signers : ValidatorsBook → Dict Bytes Bytes → Signers
  collect_signers v [] = record { my_r = []; my_p = []; other_r = []; other_p = [] }
  collect_signers v ((key, value) ∷ commitments) =
      let rest = collect_signers v commitments in
      elim (x.parse_point value) [
        | none ↦ rest
        | some r ↦
            if key == wal
            then record rest {
              my_r = r;
              my_p = elim (x.parse_point w.pub_key_schnorr) [ none ↦ [] | some p ↦ p ];
            }
            else elim (get_schnorr_public_key v key) [
              | ok p ↦ record rest { other_r = r ∷ rest.other_r; other_p = p ∷ rest.other_p }
              | err _ ↦ rest
              | panic ↦ rest
            ]
      ]

  -- The Merkle roots of the blocks from an index downwards; a block that is not there is passed over.
  unfoldable pub roots_down : Blockchain → ℕ → ℕ → Bytes
  roots_down bc zero i = []
  roots_down bc (suc n) i =
      let rest = roots_down bc n ((i + 2 ^ 64 - 1) % 2 ^ 64) in
      elim (get_block x bc i) [
        | ok raw ↦ (x.block.decode raw).merkle_root_receipt ++ rest
        | err _ ↦ rest
        | panic ↦ rest
      ]

  -- Three blocks later: the node's share of the signature of 30 Merkle roots. A key or a scalar that
  -- is nil panics in `Sign`.
  unfoldable pub share : Turn → Outcome Turn
  unfolding chain_of collect_signers roots_down
  share t = do
    bc ← chain_of t.node shard
    if not (bc.current_block % 30 == 3) || bc.current_block == 3 then ok t else do
      let signers = collect_signers t.node.validators bc.schnorr
      let roots = roots_down bc 30 ((bc.current_block + 2 ^ 64 - 3) % 2 ^ 64)
      key ← or_panic (x.parse_scalar w.priv_key_schnorr)
      k ← or_panic t.current_k
      let message : SignSchnorr = record {
        wallet = wal;
        r_schnorr = signers.my_r;
        p_schnorr = signers.my_p;
        sign_receipt = sign x.curve roots key signers.other_r signers.other_p k;
        message_sign_receipt = roots;
      }
      send x m w wal shard t (x.sign_schnorr.encode message) sign_schnorr shard

  -- The loop over the shares that have arrived, by the index in three lists. One that cannot be read
  -- is passed over; a list that is too short is an index out of range.
  unfoldable pub read_shares :
      List Bytes → List Bytes → List Bytes → Outcome (List Bytes × List Bytes × List Bytes)
  read_shares [] ps ss = ok ([], [], [])
  read_shares (r ∷ rs) ps ss = elim (x.parse_point r) [
    | none ↦ read_shares rs (drop 1 ps) (drop 1 ss)
    | some r' ↦ do
      p ← or_panic (get_elem? ps 0)
      elim (x.parse_point p) [
        | none ↦ read_shares rs (drop 1 ps) (drop 1 ss)
        | some p' ↦ do
          s ← or_panic (get_elem? ss 0)
          elim (x.parse_scalar s) [
            | none ↦ read_shares rs (drop 1 ps) (drop 1 ss)
            | some s' ↦ do
              rest ← read_shares rs (drop 1 ps) (drop 1 ss)
              let all : List Bytes × List Bytes × List Bytes =
                  (r' ∷ rest.0, p' ∷ rest.1, s' ∷ rest.2)
              ok all
          ]
      ]
  ]

  -- What is forgotten after the signature.
  unfoldable pub forget_shares : Blockchain → Blockchain
  forget_shares bc = record bc {
    schnorr = [];
    mt_receipt = [];
    r_schnorr = [];
    p_schnorr = [];
    messages_receipt = [];
  }

  -- The message with the joint signature; `none` where no share has arrived.
  unfoldable pub signed_roots : Blockchain → Outcome (Option MerkleRootsSigned)
  unfolding read_shares
  signed_roots bc = do
    shares ← read_shares bc.r_schnorr bc.p_schnorr bc.mt_receipt
    if length shares.0 == 0 || length shares.2 == 0 then ok none else do
      (r, s) ← create_signature x.curve shares.0 shares.2
      let mr : MerkleRootsSigned = record {
        shard = shard;
        merkle_roots_receipt = bc.messages_receipt;
        r_signed = r;
        s_signed = s;
        r_validators = bc.r_schnorr;
        p_validators = bc.p_schnorr;
      }
      ok (some mr)

  -- The message goes to all shards.
  unfoldable pub announce : Turn → Option MerkleRootsSigned → Outcome Turn
  announce t none = ok t
  announce t (some mr) = send x m w wal shard t (x.roots.encode mr) merkle_roots_signed 0

  -- Again three blocks later: the joint signature. The goroutine that sends the Merkle proofs ten
  -- seconds later is in Network.Rounds.Proving.
  unfoldable pub join_shares : Turn → Outcome Turn
  unfolding chain_of signed_roots announce update_shard forget_shares
  join_shares t = do
    bc ← chain_of t.node shard
    if not (bc.current_block % 30 == 6) || bc.current_block == 6 then ok t else do
      made ← signed_roots bc
      t' ← announce t made
      cs ← update_shard t'.node shard forget_shares
      ok (record t' { node = cs })

  -- The end of a round, for a validator.
  unfoldable pub sign_roots : Turn → Chance → Outcome Turn
  unfolding commit share join_shares
  sign_roots t c = do t1 ← commit t c; t2 ← share t1; join_shares t2

  -- The chosen validator makes a block.
  unfoldable pub produce_chosen : Turn → Chance → Bytes → Outcome (Turn × Bool)
  produce_chosen t c validator =
      if wal == validator then produce x m w wal shard t c else ok (t, true)

  -- What a node does in a round if it is a validator. A `continue` in the source is a turn that ends.
  unfoldable pub take_part : Turn → Chance → Bytes → Outcome Turn
  unfolding produce_chosen sign_roots
  take_part t c validator = if not (check_is_validator t.node.validators wal) then ok t else do
    (t1, goes_on) ← produce_chosen t c validator
    if goes_on then sign_roots t1 c else ok t1

  -- The round from the choice of a validator on.
  unfoldable pub after_choice : Turn → Chance → Bytes → Outcome Turn
  unfolding update_shard expect_validator take_part
  after_choice t c validator = do
    cs ← update_shard t.node shard (expect_validator validator)
    t1 ← gossip x m w wal shard (record t { node = cs }) c
    t2 ← change_shard x m w wal shard t1 c
    take_part t2 c validator

  -- Where no validator can be chosen, the round ends.
  unfoldable pub proceed : Turn → Chance → Outcome Bytes → Outcome Turn
  unfolding after_choice
  proceed t c (ok validator) = after_choice t c validator
  proceed t c (err _) = ok t
  proceed t c panic = panic

  -- One round.
  unfoldable pub round : Turn → Chance → Outcome Turn
  unfolding update_shard count_up chain_of proceed
  round t c = do
    cs ← update_shard t.node shard count_up
    bc ← chain_of cs shard
    proceed (record t { node = cs }) c
        (choose_validator c.random cs.validators (to_i64 bc.current_block) shard)

  -- The loop, for as many rounds as there are chances.
  unfoldable pub rounds : Turn → List Chance → Outcome Turn
  unfolding round
  rounds t [] = ok t
  rounds t (c ∷ cs) = do t' ← round t c; rounds t' cs
