-- ===== src/Network/Broadcasts.antt =====
-- networking/broadcast.go, `handleBroadcast`: what a broadcast does to the state of a node.
use dexmd.Base.{
  ℕ, suc, ◌*◌, ◌/◌, List, [], ◌∷◌, ◌++◌, none, some, not, Bytes, bytes_eq, nat_eq, ◌==◌,
  if◌then◌else◌, ltb, Outcome, ok, err, panic, Error, ◌>>=◌, ◌>>◌, fail_if, or_fail, lookup, insert,
}
use dexmd.Base.Int.{to_i64}
use dexmd.Text.{hex_string}
use dexmd.Proto.{Block, Broadcast, Signature, SignSchnorr, MerkleRootsSigned}
use dexmd.Proto.BroadcastType.{
  transaction, block_proposal, checkpoint_vote, withdraw, schnorr, sign_schnorr,
  merkle_roots_signed, merkle_proof, money_withdraw,
}
use dexmd.External.{External}
use dexmd.Wallet.{bytes_to_address}
use dexmd.Chain.{Blockchain, save_block}
use dexmd.Schnorr.{verify_signature}
use dexmd.Validators.{withdraw_validator, check_withdraw, len_validators}
use dexmd.Pool.{Counters, add_mempool_transaction}
use dexmd.ForkChoice.{place_block, arrival_order}
use dexmd.Proofs.{Ledger, check_merkle_proof}
use dexmd.Network.{Node, check_shard, chain_of, set_chain, save_merkle_roots}

-- What a handler leaves behind: the node, and nil or an error. A panic ends the program, and the
-- state then does not matter.
abbrev pub Handled : Type 0
Handled = Node × Outcome (Unit {0})

-- Go on with the value of a step that did not change the node, or stop with its error.
unfoldable pub on_ok : {A : Type 0} → Node → Outcome A → (A → Handled) → Handled
on_ok cs (ok a) next = next a
on_ok cs (err e) next = (cs, err e)
on_ok cs panic next = (cs, panic)

-- What `bc.CurrentValidator[index]` holds; the empty string for an index that is not there.
unfoldable pub current_validator_at : Blockchain → ℕ → Bytes
current_validator_at bc index = elim (lookup index bc.current_validator) [ none ↦ [] | some w ↦ w ]

module _ (x : External) where
  -- The case for a transaction. The error of the mempool is not looked at. The counter of the
  -- dashboards is left out of the state of a node.
  unfoldable pub handle_transaction : Node → Bytes → Handled
  handle_transaction cs payload =
      if not (x.transaction.decodes payload)
      then (cs, err Error.codec)
      else let t = x.transaction.decode payload in
        if not (check_shard cs t.shard)
        then (cs, ok tt)
        else on_ok cs (chain_of cs t.shard) (λ bc.
          let counters : Counters = record { mempool_transactions = 0; block_transactions = 0 } in
          let (c, bc', result) = add_mempool_transaction x counters bc t payload in
          elim result [
            | ok _ ↦ (set_chain cs t.shard bc', ok tt)
            | err _ ↦ (set_chain cs t.shard bc', ok tt)
            | panic ↦ (cs, panic)
          ])

  -- The case for a proposed block, at a time in milliseconds. The hash of the block itself is meant to
  -- be the hash of `byteBlock`, but both names get the hash of the previous block's hash.
  unfoldable pub propose : Node → Blockchain → ℕ → Block → ℕ → Handled
  propose cs bc shard block now_ms =
      let hash_prev_block = hex_string (x.sha256 block.prev_hash) in
      let hash_current_block = hash_prev_block in
      let bc1 = place_block x bc hash_current_block hash_prev_block (arrival_order now_ms) in
      elim (save_block x bc1 block) [
        | ok bc2 ↦ (set_chain cs shard bc2, ok tt)
        | err e ↦ (set_chain cs shard bc1, err e)
        | panic ↦ (cs, panic)
      ]

  -- A wrong miner ends the case with the nil error of the decoding.
  unfoldable pub handle_proposal : Node → Bytes → ℕ → ℕ → Handled
  unfolding propose current_validator_at
  handle_proposal cs payload shard now_ms =
      if not (check_shard cs shard)
      then (cs, ok tt)
      else if not (x.block.decodes payload)
      then (cs, err Error.codec)
      else let block = x.block.decode payload in
        on_ok cs (chain_of cs shard) (λ bc.
          if not (block.miner == current_validator_at bc block.index)
          then (cs, ok tt)
          else propose cs bc shard block now_ms)

  -- The case for a validator that leaves. Nobody looks at who asks for it, and the error of
  -- `WithdrawValidator` is not looked at.
  unfoldable pub handle_withdraw : Node → Bytes → ℕ → Handled
  handle_withdraw cs payload shard =
      if not (x.withdraw.decodes payload)
      then (cs, err Error.codec)
      else on_ok cs (bytes_to_address x (x.withdraw.decode payload).public_key 1) (λ sender.
        on_ok cs (chain_of cs shard) (λ bc.
          elim (withdraw_validator cs.validators sender (to_i64 bc.current_block)) [
            | ok v ↦ (record cs { validators = v }, ok tt)
            | err _ ↦ (cs, ok tt)
            | panic ↦ (cs, panic)
          ]))

  unfoldable pub handle_schnorr : Node → Bytes → ℕ → Handled
  handle_schnorr cs payload shard =
      if not (check_shard cs shard)
      then (cs, ok tt)
      else if not (x.schnorr.decodes payload)
      then (cs, err Error.codec)
      else let m = x.schnorr.decode payload in
        on_ok cs (chain_of cs shard)
          (λ bc. (set_chain cs shard (record bc { schnorr = insert m.p m.r bc.schnorr }), ok tt))

  -- The four lists of a chain grow together.
  unfoldable pub collect : Blockchain → SignSchnorr → Blockchain
  collect bc m = record bc {
    mt_receipt = bc.mt_receipt ++ m.sign_receipt ∷ [];
    r_schnorr = bc.r_schnorr ++ m.r_schnorr ∷ [];
    p_schnorr = bc.p_schnorr ++ m.p_schnorr ∷ [];
    messages_receipt = bc.messages_receipt ++ m.message_sign_receipt ∷ [];
  }

  unfoldable pub handle_sign_schnorr : Node → Bytes → ℕ → Handled
  unfolding collect
  handle_sign_schnorr cs payload shard =
      if not (check_shard cs shard)
      then (cs, ok tt)
      else if not (x.sign_schnorr.decodes payload)
      then (cs, err Error.codec)
      else on_ok cs (chain_of cs shard)
          (λ bc. (set_chain cs shard (collect bc (x.sign_schnorr.decode payload)), ok tt))

  -- The loop over the commitments, with the public keys at the same indices.
  unfoldable pub parse_points : List Bytes → List Bytes → Outcome (List Bytes × List Bytes)
  parse_points [] ps = ok ([], [])
  parse_points (r ∷ rs) [] = do _ ← or_fail (x.parse_point r) Error.codec; panic
  parse_points (r ∷ rs) (p ∷ ps) = do
    r' ← or_fail (x.parse_point r) Error.codec
    p' ← or_fail (x.parse_point p) Error.codec
    (rs', ps') ← parse_points rs ps
    ok (r' ∷ rs', p' ∷ ps')

  -- The loop over the roots; the count of those that verify is their number.
  unfoldable pub verify_roots : MerkleRootsSigned → List Bytes → List Bytes → List Bytes → Outcome ℕ
  verify_roots mr rs ps [] = ok 0
  verify_roots mr rs ps (root ∷ roots) = do
    r ← or_fail (x.parse_point mr.r_signed) Error.codec
    s ← or_fail (x.parse_scalar mr.s_signed) Error.codec
    verified ← verify_signature x.curve root r s ps rs
    fail_if (not verified) Error.verify_failed
    n ← verify_roots mr rs ps roots
    ok (suc n)

  -- The case for signed roots. The float64 values are whole numbers, the second one after an integer
  -- division; as in the source the number of validators is compared with two thirds of the count.
  unfoldable pub handle_merkle_roots : Node → Bytes → Handled
  unfolding parse_points verify_roots
  handle_merkle_roots cs payload =
      if not (x.roots.decodes payload)
      then (cs, err Error.codec)
      else let mr = x.roots.decode payload in
        on_ok cs (parse_points mr.r_validators mr.p_validators) (λ parsed.
          on_ok cs (verify_roots mr parsed.0 parsed.1 mr.merkle_roots_receipt) (λ count.
            if ltb (len_validators cs.validators mr.shard) (2 * count / 3)
            then (cs, ok tt)
            else save_merkle_roots x cs mr))

  -- The case for a Merkle proof; a proof that is not accepted without an error is a nil error.
  unfoldable pub handle_merkle_proof : Node → Bytes → Handled
  handle_merkle_proof cs payload =
      if not (x.proof.decodes payload)
      then (cs, err Error.codec)
      else let mp = x.proof.decode payload in
        if not (check_shard cs mp.shard)
        then (cs, ok tt)
        else let ledger : Ledger = record {
          receipt_burned = cs.receipt_burned;
          chains = cs.shards_chain;
          roots_db = cs.merkle_roots_db;
        } in
          let (l, result) = check_merkle_proof x cs.interests ledger mp in
          let cs' : Node = record cs {
            receipt_burned = l.receipt_burned;
            shards_chain = l.chains;
          } in
          elim result [ ok _ ↦ (cs', ok tt) | err e ↦ (cs', err e) | panic ↦ (cs', panic) ]

  unfoldable pub handle_money_withdraw : Node → Bytes → ℕ → Handled
  handle_money_withdraw cs payload shard =
      if not (x.money_withdraw.decodes payload)
      then (cs, err Error.codec)
      else on_ok cs (chain_of cs shard) (λ bc.
        on_ok cs (check_withdraw x cs.validators (x.money_withdraw.decode payload).wallet bc)
          (λ done. (record (set_chain cs shard done.1) { validators = done.0 }, ok tt)))

  -- The switch on the type of the broadcast.
  unfoldable pub dispatch : Node → Broadcast → ℕ → ℕ → Handled
  unfolding handle_transaction handle_proposal handle_withdraw handle_schnorr handle_sign_schnorr
      handle_merkle_roots handle_merkle_proof handle_money_withdraw
  dispatch cs b shard now_ms = elim b.type [
    | transaction ↦ handle_transaction cs b.payload
    | block_proposal ↦ handle_proposal cs b.payload shard now_ms
    | checkpoint_vote ↦ (cs, ok tt)
    | withdraw ↦ handle_withdraw cs b.payload shard
    | schnorr ↦ handle_schnorr cs b.payload shard
    | sign_schnorr ↦ handle_sign_schnorr cs b.payload shard
    | merkle_roots_signed ↦ handle_merkle_roots cs b.payload
    | merkle_proof ↦ handle_merkle_proof cs b.payload
    | money_withdraw ↦ handle_money_withdraw cs b.payload shard
  ]

  -- `handleBroadcast`: a broadcast under another address than that of the signature ends with nil.
  unfoldable pub handle_broadcast : Node → Bytes → ℕ → Signature → ℕ → Handled
  unfolding dispatch
  handle_broadcast cs payload shard identity now_ms =
      if not (x.broadcast.decodes payload)
      then (cs, err Error.codec)
      else let b = x.broadcast.decode payload in
        if not (b.address == identity.pubkey) then (cs, ok tt) else dispatch cs b shard now_ms
