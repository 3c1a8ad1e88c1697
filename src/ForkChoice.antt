-- ===== src/ForkChoice.antt =====
-- networking/broadcast.go, `Broadcast_BLOCK_PROPOSAL`: heights of the blocks that arrive in any
-- order, and their priorities for the next block to be built on.
pub mod Heights
mod Examples
use dexmd.Base.{
  ℕ, zero, suc, ◌+◌, ◌-◌, ◌*◌, ◌/◌, ◌%◌, ◌^◌, ◌≤◌, ◌<◌, ◌≡◌, ◌≢◌, ◌↔◌, ◌⊎◌, inl, inr, refl, sym, ap,
  ◌∙◌, List, [], ◌∷◌, ◌++◌, map, Option, none, some, Bool, true, false, not, ◌&&◌, ◌||◌, arith,
  Bytes, bytes_eq, nat_eq, ◌==◌, if◌then◌else◌, ltb, leb, Bool-cases, Option-cases, length, All,
  replicate, dec_lt, Outcome, ok, err, panic, Error, ◌>>=◌, ◌>>◌, fail_if, or_fail, or_panic, Dict,
  lookup, insert, erase,
}
use dexmd.External.{External}
use dexmd.Chain.{Blockchain, MissingBlock, modify_missing_block, add_missing_block}

-- `bc.HashBlocks[key]` of a key that is not there is 0.
unfoldable pub height : Blockchain → Bytes → ℕ
height bc key = elim (lookup key bc.hash_blocks) [ none ↦ 0 | some h ↦ h ]

unfoldable pub set_height : Blockchain → Bytes → ℕ → Blockchain
set_height bc key h = record bc { hash_blocks = insert key (h % 2 ^ 64) bc.hash_blocks }

-- The loop over `blocksToRecalculate`, with the number of blocks and the index.
unfoldable pub recalculate : Blockchain → Bytes → ℕ → ℕ → List Bytes → Blockchain
unfolding set_height height
recalculate bc hash_prev_block len index [] = bc
recalculate bc hash_prev_block len index (b ∷ bs) =
    recalculate (set_height bc b (height bc hash_prev_block + (len - index))) hash_prev_block len
      (suc index) bs

module _ (x : External) where
  -- A priority in thousandths: a height, and what the arrival adds to it.
  unfoldable pub insert_priority : Blockchain → Bytes → ℕ → Blockchain
  insert_priority bc key priority = record bc {
    priority_blocks = x.insert_key key priority bc.priority_blocks;
  }

  -- [1, 2, ?, 4] and now 3: everything above the block gets its height.
  unfoldable pub fill_gap : Blockchain → Bytes → Bytes → MissingBlock → Blockchain
  unfolding recalculate set_height height insert_priority
  fill_gap bc hash_current_block hash_prev_block mb =
      let bc1 =
        recalculate bc hash_prev_block (length mb.blocks_to_recalculate) 0
          mb.blocks_to_recalculate in
      let bc2 = set_height bc1 mb.hightest_block (mb.sequence_block + height bc1 hash_prev_block) in
      let bc3 =
        insert_priority bc2 mb.hightest_block
          (height bc2 mb.hightest_block * 1000 + mb.arrival_order) in
      record bc3 { missing_block = erase hash_current_block bc3.missing_block }

  -- [1, ?, ?, 4] and now 3: the gap moves one block down.
  unfoldable pub move_gap : Blockchain → Bytes → Bytes → MissingBlock → Blockchain
  move_gap bc hash_current_block hash_prev_block mb =
      let bc1 = modify_missing_block bc hash_prev_block mb hash_current_block in
      record bc1 { missing_block = erase hash_current_block bc1.missing_block }

  -- [1, 2, ?] and now 3: the block is the next one.
  unfoldable pub extend : Blockchain → Bytes → Bytes → ℕ → Blockchain
  unfolding set_height height insert_priority
  extend bc hash_current_block hash_prev_block arrival_order =
      let bc1 =
        insert_priority bc hash_current_block
          (height bc hash_prev_block * 1000 + 1000 + arrival_order) in
      set_height bc1 hash_current_block (height bc1 hash_prev_block + 1)

  unfoldable pub known : Blockchain → Bytes → Bool
  known bc key = elim (lookup key bc.hash_blocks) [ none ↦ false | some _ ↦ true ]

  -- The branches on what has arrived before.
  unfoldable pub place_block : Blockchain → Bytes → Bytes → ℕ → Blockchain
  unfolding fill_gap move_gap extend known
  place_block bc hash_current_block hash_prev_block arrival_order =
      elim (lookup hash_current_block bc.missing_block) [
        | some mb ↦
            if known bc hash_prev_block
            then fill_gap bc hash_current_block hash_prev_block mb
            else move_gap bc hash_current_block hash_prev_block mb
        | none ↦
            if known bc hash_prev_block
            then extend bc hash_current_block hash_prev_block arrival_order
            else add_missing_block bc hash_prev_block arrival_order hash_current_block
      ]

-- `arrivalOrder` in thousandths, of the clock in milliseconds.
unfoldable pub arrival_order : ℕ → ℕ
arrival_order now_ms = 500 - now_ms % 500
