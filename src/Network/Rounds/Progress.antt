-- ===== src/Network/Rounds/Progress.antt =====
-- networking/server.go, `ValidatorLoop`: every round moves its shard on by one block.
use dexmd.Validators.Draw.{choose_validator}
use dexmd.Validators.{check_is_validator}
use dexmd.Network.Rounds.Phases.{
  gossip-node, update_shard-At, join_shares-At, commit-node, share-node, At,
}
use dexmd.Network.Rounds.{
  Node, change_shard, chain_of, gossip, Blockchain, update_shard, count_up, expect_validator,
  Chance, Turn,
}
use dexmd.Network.Rounds.Signing.{
  proceed, rounds, after_choice, produce_chosen, round, join_shares, join_shares, share, commit,
  sign_roots, take_part,
}
use dexmd.Wallet.{Wallet}
use dexmd.Contracts.{Machine}
use dexmd.External.{External}
use dexmd.Base.{
  ℕ, ◌+◌, ◌%◌, ◌^◌, ◌<◌, ◌≡◌, inl, inr, refl, sym, ◌∙◌, List, [], ◌∷◌, Bool, true, false, not,
  arith, Bytes, bytes_eq, nat_eq, ◌==◌, if◌then◌else◌, Bool-cases, length, Outcome, ok, err, panic,
  ◌>>=◌,
}
use dexmd.Base.Int.{to_i64}
use dexmd.Base.{>>=-ok}
use dexmd.Network.Rounds.Blocks.{produce-At, change_shard-At}
use std.Path.{subst}

module _ (x : External) (m : Machine) (w : Wallet) (wal : Bytes) (shard : ℕ) where
  sign_roots-At :
      (t t' : Turn) (c : Chance) (n : ℕ)
      → sign_roots x m w wal shard t c ≡ ok t'
      → At t.node shard n
      → At t'.node shard n
  unfolding sign_roots
  sign_roots-At t t' c n h at =
      let (t1, committed, h1) =
        >>=-ok (commit x m w wal shard t c)
          (λ t1. share x m w wal shard t1 >>= join_shares x m w wal shard) h in
      let (t2, shared, h2) = >>=-ok (share x m w wal shard t1) (join_shares x m w wal shard) h1 in
      let kept : t2.node ≡ t.node =
        share-node x m w wal shard t1 t2 shared ∙ commit-node x m w wal shard t t1 c committed in
      join_shares-At x m w wal shard t2 t' n h2 (subst (λ cs. At cs shard n) (sym kept) at)

  sign_roots_if-At :
      (goes_on : Bool) (t t' : Turn) (c : Chance) (n : ℕ)
      → (if goes_on then sign_roots x m w wal shard t c else ok t) ≡ ok t'
      → At t.node shard n
      → At t'.node shard n
  sign_roots_if-At true t t' c n h at = sign_roots-At t t' c n h at
  sign_roots_if-At false t t' c n h at =
      let same : t ≡ t' = cc in subst (λ (u : Turn). At u.node shard n) same at

  produce_chosen-At :
      (t t' : Turn) (c : Chance) (validator : Bytes) (goes_on : Bool) (n : ℕ)
      → produce_chosen x m w wal shard t c validator ≡ ok (t', goes_on)
      → At t.node shard n
      → At t'.node shard n
  unfolding produce_chosen
  produce_chosen-At t t' c validator goes_on n h at = elim (Bool-cases (wal == validator)) [
    | inl chosen ↦
        produce-At x m w wal shard t t' c goes_on n (sym (rw (produce_chosen, chosen) refl) ∙ h) at
    | inr other ↦
        let ends : produce_chosen x m w wal shard t c validator ≡ ok (t, true) =
          rw (produce_chosen, other) refl in
        let same : t ≡ t' = cc in subst (λ (u : Turn). At u.node shard n) same at
  ]

  take_part-At :
      (t t' : Turn) (c : Chance) (validator : Bytes) (n : ℕ)
      → take_part x m w wal shard t c validator ≡ ok t'
      → At t.node shard n
      → At t'.node shard n
  unfolding take_part
  take_part-At t t' c validator n h at =
      elim (Bool-cases (not (check_is_validator t.node.validators wal))) [
        | inl outside ↦
            let ends : take_part x m w wal shard t c validator ≡ ok t =
              rw (take_part, outside) refl in
            let same : t ≡ t' = cc in subst (λ (u : Turn). At u.node shard n) same at
        | inr inside ↦
            let rest = sym (rw (take_part, inside) refl) ∙ h in
            let (r, made, h1) =
              >>=-ok (produce_chosen x m w wal shard t c validator)
                (λ r. if r.1 then sign_roots x m w wal shard r.0 c else ok r.0) rest in
            sign_roots_if-At r.1 r.0 t' c n h1 (produce_chosen-At t r.0 c validator r.1 n made at)
      ]

  after_choice-At :
      (t t' : Turn) (c : Chance) (validator : Bytes) (n : ℕ)
      → after_choice x m w wal shard t c validator ≡ ok t'
      → At t.node shard n
      → At t'.node shard n
  unfolding after_choice expect_validator
  after_choice-At t t' c validator n h (bc, there, is) =
      let (cs, expected, h1) =
        >>=-ok (update_shard t.node shard (expect_validator validator))
          (λ cs.
            (gossip x m w wal shard (record t { node = cs }) c >>= λ t1.
            (change_shard x m w wal shard t1 c >>= λ t2. take_part x m w wal shard t2 c validator)))
          h in
      let (t1, told, h2) =
        >>=-ok (gossip x m w wal shard (record t { node = cs }) c)
          (λ t1.
            (change_shard x m w wal shard t1 c >>= λ t2. take_part x m w wal shard t2 c validator))
          h1 in
      let (t2, changed, h3) =
        >>=-ok (change_shard x m w wal shard t1 c) (λ t2. take_part x m w wal shard t2 c validator)
          h2 in
      let at1 : At cs shard n =
        update_shard-At t.node cs shard n (expect_validator validator) expected bc there is in
      let at2 : At t1.node shard n =
        subst (λ k. At k shard n)
          (sym (gossip-node x m w wal shard (record t { node = cs }) t1 c told)) at1 in
      take_part-At t2 t' c validator n h3 (change_shard-At x m w wal shard t1 t2 c n changed at2)

  proceed-At :
      (t t' : Turn) (c : Chance) (choice : Outcome Bytes) (n : ℕ)
      → proceed x m w wal shard t c choice ≡ ok t'
      → At t.node shard n
      → At t'.node shard n
  unfolding proceed
  proceed-At t t' c (ok validator) n h at = after_choice-At t t' c validator n h at
  proceed-At t t' c (err e) n h at =
      let same : t ≡ t' = cc in subst (λ (u : Turn). At u.node shard n) same at
  proceed-At t t' c panic n h at = absurd (cc)

  -- A round that does not end the program counts the block of its shard up by exactly one, whatever
  -- else happens in it: also if no validator is chosen, the node is none, no block can be made or the
  -- shards are dealt again.
  pub round-advances :
      (t t' : Turn) (c : Chance) (bc : Blockchain)
      → chain_of t.node shard ≡ ok bc
      → round x m w wal shard t c ≡ ok t'
      → At t'.node shard ((bc.current_block + 1) % 2 ^ 64)
  unfolding round count_up
  round-advances t t' c bc there h =
      let n = (bc.current_block + 1) % 2 ^ 64 in
      let choice = λ (cs : Node) (b : Blockchain).
        choose_validator c.random cs.validators (to_i64 b.current_block) shard in
      let (cs, counted, h1) =
        >>=-ok (update_shard t.node shard count_up)
          (λ cs.
            (chain_of cs shard >>= λ b.
            proceed x m w wal shard (record t { node = cs }) c (choice cs b)))
          h in
      let (b, found, h2) =
        >>=-ok (chain_of cs shard)
          (λ b. proceed x m w wal shard (record t { node = cs }) c (choice cs b)) h1 in
      proceed-At (record t { node = cs }) t' c (choice cs b) n h2
        (update_shard-At t.node cs shard n count_up counted bc there refl)

  -- After any number of rounds, none of which ends the program, the block number of the shard is as
  -- many further, up to the wrap-around of a uint64.
  pub rounds-advance :
      (t t' : Turn) (cs : List Chance) (bc : Blockchain)
      → chain_of t.node shard ≡ ok bc
      → bc.current_block < 2 ^ 64
      → rounds x m w wal shard t cs ≡ ok t'
      → At t'.node shard ((bc.current_block + length cs) % 2 ^ 64)
  unfolding rounds
  rounds-advance t t' [] bc there small h =
      let same : t ≡ t' = cc in
      subst (λ (u : Turn). At u.node shard ((bc.current_block + 0) % 2 ^ 64)) same
        (bc, there, omega arith)
  rounds-advance t t' (c ∷ cs) bc there small h =
      let (t1, first, h1) =
        >>=-ok (round x m w wal shard t c) (λ u. rounds x m w wal shard u cs) h in
      let (bc1, there1, is1) = round-advances t t1 c bc there first in
      let (bc2, there2, is2) = rounds-advance t1 t' cs bc1 there1 (omega (arith, is1)) h1 in
      (bc2, there2, omega (arith, is1, is2))
