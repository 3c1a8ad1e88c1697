-- ===== src/Network/Rounds/Blocks.antt =====
-- networking/server.go, `ValidatorLoop`: the new block and the new shard leave the block number as it is.
use dexmd.Network.Rounds.Phases.{At, At-set_chain, At-chains, send-node}
use dexmd.External.{External}
use dexmd.Network.Rounds.{
  shard_or_zero, deal_again, shard_seed, choose_shard, change_shard, Counters, update_chain,
  enter_shard, place_own, produce, update_or_die, Chance, Turn, send, Machine,
}
use dexmd.Network.{Block, decimal, ValidatorsBook, Wallet, Blockchain, set_chain, Node, chain_of}
use dexmd.Pool.{generate_block}
use dexmd.ForkChoice.{set_height, insert_priority}
use std.Path.{subst}
use dexmd.Base.{lookup-insert_ne}
use dexmd.Base.{
  Outcome-cases, ℕ, ◌%◌, ◌≡◌, ◌≢◌, inl, inr, refl, sym, ap, ◌∙◌, none, Bool, not, arith, Bytes,
  bytes_eq, nat_eq, ◌==◌, Bool-cases, Option-cases, ok, err, panic, lookup,
}
use dexmd.Proto.BroadcastType.{block_proposal}
use dexmd.Network.Sync.Endless.{update_chain-keeps}

module _ (x : External) (m : Machine) (w : Wallet) (wal : Bytes) (shard : ℕ) where
  generate_block-block :
      (c : Counters) (bc : Blockchain) (v : ValidatorsBook) (now : ℕ)
      → (generate_block x m c bc wal shard v now).1.current_block ≡ bc.current_block
  unfolding generate_block
  generate_block-block c bc v now = ground arith

  place_own-block :
      (bc : Blockchain) (block : Block)
      → (place_own x m w wal shard bc block).current_block ≡ bc.current_block
  unfolding place_own insert_priority set_height
  place_own-block bc block = refl

  pub produce-At :
      (t t' : Turn) (c : Chance) (goes_on : Bool) (n : ℕ)
      → produce x m w wal shard t c ≡ ok (t', goes_on)
      → At t.node shard n
      → At t'.node shard n
  unfolding produce
  produce-At t t' c goes_on n h (bc, there, is) =
      let counters : Counters = record { mempool_transactions = 0; block_transactions = 0 } in
      let made = generate_block x m counters bc wal shard t.node.validators c.now in
      let block_is = generate_block-block counters bc t.node.validators c.now in
      elim (Outcome-cases made.2) [
        | inr (inr bad) ↦ absurd (ground arith)
        | inr (inl (e, failed)) ↦
            let node_is : set_chain t.node shard made.1 ≡ t'.node = ground arith in
            subst (λ cs. At cs shard n) node_is
              (subst (At (set_chain t.node shard made.1) shard) (block_is ∙ is)
                (At-set_chain t.node shard made.1))
        | inl (block, built) ↦
            let bc2 = place_own x m w wal shard made.1 block in
            let t1 : Turn = record t { node = set_chain t.node shard bc2 } in
            elim (Outcome-cases
              (send x m w wal shard t1 (x.block.encode block) block_proposal shard)) [
                | inr bad ↦ absurd (ground arith)
                | inl (t2, sent) ↦
                    let turn_is : t2 ≡ t' = ground arith in
                    let node_is : t1.node ≡ t'.node =
                      sym (
                        send-node x m w wal shard t1 t2 (x.block.encode block) block_proposal shard
                          sent)
                      ∙ ap (λ (u : Turn). u.node) turn_is in
                    subst (λ cs. At cs shard n) node_is
                      (subst (At t1.node shard) (place_own-block made.1 block ∙ (block_is ∙ is))
                        (At-set_chain t.node shard bc2))
              ]
      ]

  update_or_die-chains :
      (c : Chance) (new_shard : ℕ) (cs cs' : Node)
      → update_or_die x m w wal shard c new_shard cs ≡ ok cs'
      → cs'.shards_chain ≡ cs.shards_chain
  unfolding update_or_die
  update_or_die-chains c new_shard cs cs' h =
      let r = update_chain x m new_shard c.feed c.sync_fuel (decimal shard) cs in
      elim (Outcome-cases r.1) [
        | inl (u, e) ↦
            let node_is : r.0 ≡ cs' = ground arith in
            ap (λ (k : Node). k.shards_chain) (sym node_is)
            ∙ update_chain-keeps x m new_shard c.feed c.sync_fuel (decimal shard) cs u e
        | inr (inl (e, bad)) ↦ absurd (ground arith)
        | inr (inr bad) ↦ absurd (ground arith)
      ]

  absent :
      (cs : Node) (a b : ℕ) (bc : Blockchain)
      → chain_of cs a ≡ ok bc
      → lookup b cs.shards_chain ≡ none
      → b ≡ a
      → ⊥
  unfolding chain_of
  absent cs a b bc there missing same =
      let gone : lookup a cs.shards_chain ≡ none =
        ap (λ k. lookup k cs.shards_chain) (sym same) ∙ missing in
      ground arith

  set_chain-chain_of :
      (cs : Node) (a b : ℕ) (bc bc' : Blockchain)
      → a ≢ b
      → chain_of cs b ≡ ok bc'
      → chain_of (set_chain cs a bc) b ≡ ok bc'
  unfolding chain_of set_chain
  set_chain-chain_of cs a b bc bc' differs there =
      rw (lookup-insert_ne a b bc cs.shards_chain differs) there

  enter_shard-At :
      (c : Chance) (new_shard block n : ℕ) (cs cs' : Node)
      → enter_shard x m w wal shard c new_shard block cs ≡ ok cs'
      → At cs shard n
      → At cs' shard n
  unfolding enter_shard
  enter_shard-At c new_shard block n cs cs' h (bc0, there, is) =
      elim (Option-cases (lookup new_shard cs.shards_chain)) [
        | inr (bc, found) ↦ elim (Bool-cases (bc.current_block == block)) [
          | inl level ↦ subst (λ k. At k shard n) (ground arith) (bc0, there, is)
          | inr behind ↦
              At-chains cs cs' shard n (update_or_die-chains c new_shard cs cs' (ground arith))
                (bc0, there, is)
        ]
        | inl missing ↦ elim (Outcome-cases c.opened) [
          | inr (inl (e, bad)) ↦ absurd (ground arith)
          | inr (inr bad) ↦ absurd (ground arith)
          | inl (bc, opened) ↦
              let differs : new_shard ≢ shard =
                λ same. absent cs shard new_shard bc0 there missing same in
              At-chains (set_chain cs new_shard bc) cs' shard n
                (update_or_die-chains c new_shard (set_chain cs new_shard bc) cs' (ground arith))
                (bc0, set_chain-chain_of cs new_shard shard bc bc0 differs there, is)
        ]
      ]

  deal_again-At :
      (t t' : Turn) (c : Chance) (bc : Blockchain) (n : ℕ)
      → deal_again x m w wal shard t c bc ≡ ok t'
      → At t.node shard n
      → At t'.node shard n
  unfolding deal_again chain_of
  deal_again-At t t' c bc n h at =
      let seed = shard_seed x m w wal shard bc in
      elim (Outcome-cases (choose_shard c.random t.node.validators c.choice_block seed wal)) [
        | inr (inl (f, bad)) ↦
            let ends : deal_again x m w wal shard t c bc ≡ err f = rw (deal_again, bad) refl in
            absurd (cc)
        | inr (inr bad) ↦
            let ends : deal_again x m w wal shard t c bc ≡ panic = rw (deal_again, bad) refl in
            absurd (cc)
        | inl ((v, dealt), e) ↦
            let new_shard = shard_or_zero dealt in
            let dealt_node : Node = record t.node { validators = v } in
            elim (Outcome-cases
              (enter_shard x m w wal shard c new_shard bc.current_block dealt_node)) [
                | inr (inl (f, bad)) ↦
                    let ends : deal_again x m w wal shard t c bc ≡ err f =
                      rw (deal_again, e, bad) refl in
                    absurd (cc)
                | inr (inr bad) ↦
                    let ends : deal_again x m w wal shard t c bc ≡ panic =
                      rw (deal_again, e, bad) refl in
                    absurd (cc)
                | inl (cs, entered) ↦
                    let ends : deal_again x m w wal shard t c bc ≡ ok (record t { node = cs }) =
                      rw (deal_again, e, entered) refl in
                    let turn_is : record t { node = cs } ≡ t' = cc in
                    subst (λ (u : Turn). At u.node shard n) turn_is
                      (enter_shard-At c new_shard bc.current_block n dealt_node cs entered at)
              ]
      ]

  pub change_shard-At :
      (t t' : Turn) (c : Chance) (n : ℕ)
      → change_shard x m w wal shard t c ≡ ok t'
      → At t.node shard n
      → At t'.node shard n
  unfolding change_shard
  change_shard-At t t' c n h (bc, there, is) =
      elim (Bool-cases (not (bc.current_block % 10000 == 0))) [
        | inl other ↦
            let ends : change_shard x m w wal shard t c ≡ ok t =
              rw (change_shard, there, other) refl in
            let same : t ≡ t' = cc in subst (λ (u : Turn). At u.node shard n) same (bc, there, is)
        | inr now ↦
            deal_again-At t t' c bc n (sym (rw (change_shard, there, now) refl) ∙ h) (bc, there, is)
      ]
