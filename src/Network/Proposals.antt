-- ===== src/Network/Proposals.antt =====
-- networking/broadcast.go: what proposals do to the heights, with one hash for a block and for the
-- block before it.
use dexmd.Base.{
  Outcome-cases, ℕ, ◌+◌, ◌%◌, ◌^◌, ◌≡◌, inl, inr, refl, sym, ap, ◌∙◌, [], ◌∷◌, ◌++◌, none, some,
  true, false, arith, Bytes, bytes_eq, nat_eq, ◌==◌, Bool-cases, Option-cases, ok, Dict, lookup,
  insert, erase,
}
use dexmd.Base.{lookup-insert_self, lookup-insert, lookup-erase, bytes_beq_iff}
use dexmd.Text.{hex_string}
use dexmd.Proto.{Block}
use dexmd.External.{External}
use dexmd.Chain.{Blockchain, MissingBlock, add_missing_block, modify_missing_block, save_block}
use dexmd.ForkChoice.{
  height, known, extend, move_gap, place_block, set_height, insert_priority, arrival_order,
}
use dexmd.Network.{Node, set_chain}
use dexmd.Network.Broadcasts.{propose}

module _ (x : External) where
  -- No block is missing that has a height.
  abbrev pub MissingUnknown : Blockchain → Type 0
  MissingUnknown bc =
      (h : Bytes) (mb : MissingBlock) → lookup h bc.missing_block ≡ some mb → known x bc h ≡ false

  known-place_block :
      (bc : Blockchain) (h j : Bytes) (order : ℕ)
      → MissingUnknown bc
      → known x (place_block x bc h h order) j ≡ known x bc j
  unfolding place_block known extend move_gap set_height insert_priority add_missing_block
      modify_missing_block
  known-place_block bc h j order ok_missing = elim (Option-cases (lookup h bc.missing_block)) [
    | inl fresh ↦ elim (Bool-cases (known x bc h)) [
      | inl has ↦
          ground (
            arith,
            bytes_beq_iff h j,
            lookup-insert h j ((height bc h + 1) % 2 ^ 64) bc.hash_blocks,
          )
      | inr lacks ↦ rw (place_block, fresh, lacks) refl
    ]
    | inr (mb, waiting) ↦ rw (place_block, waiting, ok_missing h mb waiting) refl
  ]

  lookup-insert_other :
      (h j : Bytes) (v : MissingBlock) (m : Dict Bytes MissingBlock)
      → (h == j) ≡ false
      → lookup j (insert h v m) ≡ lookup j m
  lookup-insert_other h j v m other = rw (lookup-insert h j v m, other) refl

  lookup-erase_other :
      (h j : Bytes) (m : Dict Bytes MissingBlock)
      → (h == j) ≡ false
      → lookup j (erase h m) ≡ lookup j m
  lookup-erase_other h j m other = rw (lookup-erase h j m, other) refl

  -- A block that is missing afterwards and is not the one in question was missing before.
  missing-place_block_other :
      (bc : Blockchain) (h j : Bytes) (order : ℕ)
      → MissingUnknown bc
      → (h == j) ≡ false
      → lookup j (place_block x bc h h order).missing_block ≡ lookup j bc.missing_block
  unfolding place_block extend move_gap set_height insert_priority add_missing_block
      modify_missing_block
  missing-place_block_other bc h j order ok_missing other =
      elim (Option-cases (lookup h bc.missing_block)) [
        | inl fresh ↦ elim (Bool-cases (known x bc h)) [
          | inl has ↦ rw (place_block, fresh, has) refl
          | inr lacks ↦
              rw (place_block, fresh, lacks)
                (lookup-insert_other h j
                  (record {
                    sequence_block = 1;
                    arrival_order = order;
                    hightest_block = h;
                    blocks_to_recalculate = [];
                  })
                  bc.missing_block other)
        ]
        | inr (waits, waiting) ↦
            let later = modify_missing_block bc h waits h in
            rw (place_block, waiting, ok_missing h waits waiting)
              (lookup-erase_other h j later.missing_block other
                ∙ lookup-insert_other h j
                    (record {
                      sequence_block = (waits.sequence_block + 1) % 2 ^ 64;
                      arrival_order = waits.arrival_order;
                      hightest_block = waits.hightest_block;
                      blocks_to_recalculate = waits.blocks_to_recalculate ++ h ∷ [];
                    })
                    bc.missing_block other)
      ]

  -- A block with a height is not missing after its own proposal.
  missing-place_block_self :
      (bc : Blockchain) (h : Bytes) (order : ℕ) (mb : MissingBlock)
      → MissingUnknown bc
      → lookup h (place_block x bc h h order).missing_block ≡ some mb
      → known x bc h ≡ false
  unfolding place_block extend set_height insert_priority
  missing-place_block_self bc h order mb ok_missing =
      elim (Option-cases (lookup h bc.missing_block)) [
        | inl fresh ↦ elim (Bool-cases (known x bc h)) [
          | inl has ↦ rw (place_block, fresh, has) (λ e. sym has ∙ ok_missing h mb e)
          | inr lacks ↦ λ e. lacks
        ]
        | inr (waits, waiting) ↦ λ e. ok_missing h waits waiting
      ]

  missing-place_block :
      (bc : Blockchain) (h j : Bytes) (order : ℕ) (mb : MissingBlock)
      → MissingUnknown bc
      → lookup j (place_block x bc h h order).missing_block ≡ some mb
      → known x bc j ≡ false
  missing-place_block bc h j order mb ok_missing e = elim (Bool-cases (h == j)) [
    | inr other ↦
        ok_missing j mb (sym (missing-place_block_other bc h j order ok_missing other) ∙ e)
    | inl same ↦
        let h_j : h ≡ j = (bytes_beq_iff h j).0 same in
        ap (known x bc) (sym h_j)
        ∙ missing-place_block_self bc h order mb ok_missing
            (ap (λ k. lookup k (place_block x bc h h order).missing_block) h_j ∙ e)
  ]

  MissingUnknown-place_block :
      (bc : Blockchain) (h : Bytes) (order : ℕ)
      → MissingUnknown bc
      → MissingUnknown (place_block x bc h h order)
  MissingUnknown-place_block bc h order ok_missing j mb e =
      known-place_block bc h j order ok_missing ∙ missing-place_block bc h j order mb ok_missing e

  save_block-heights :
      (bc bc' : Blockchain) (block : Block)
      → save_block x bc block ≡ ok bc'
      → (bc'.hash_blocks ≡ bc.hash_blocks) × (bc'.missing_block ≡ bc.missing_block)
  unfolding save_block
  save_block-heights bc bc' block h = (ground arith, ground arith)

  -- A proposal that is handled without an error leaves the set of the blocks that have heights as it
  -- was, in a chain where no missing block has a height, and this stays so.
  pub propose-known :
      (cs cs' : Node) (bc : Blockchain) (shard : ℕ) (block : Block) (now_ms : ℕ)
      → MissingUnknown bc
      → propose x cs bc shard block now_ms ≡ (cs', ok tt)
      → (bc' : Blockchain) × (lookup shard cs'.shards_chain ≡ some bc')
        × MissingUnknown bc'
        × ((j : Bytes) → known x bc' j ≡ known x bc j)
  unfolding propose set_chain known
  propose-known cs cs' bc shard block now_ms ok_missing h =
      let key = hex_string (x.sha256 block.prev_hash) in
      let bc1 = place_block x bc key key (arrival_order now_ms) in
      elim (Outcome-cases (save_block x bc1 block)) [
        | inl (bc2, saved) ↦
            let kept = save_block-heights bc1 bc2 block saved in
            let same : (j : Bytes) → known x bc2 j ≡ known x bc j = λ j.
              ap (λ hs. elim (lookup j hs) [ none ↦ false | some _ ↦ true ]) kept.0
              ∙ known-place_block bc key j (arrival_order now_ms) ok_missing in
            (
              bc2,
              ground (arith, lookup-insert_self shard bc2 cs.shards_chain),
              λ j mb e.
                  same j
                  ∙ missing-place_block bc key j (arrival_order now_ms) mb ok_missing
                      (ap (lookup j) (sym kept.1) ∙ e),
              same,
            )
        | inr bad ↦ absurd (ground arith)
      ]
