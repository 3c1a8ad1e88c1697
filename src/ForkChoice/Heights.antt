-- ===== src/ForkChoice/Heights.antt =====
-- networking/broadcast.go, `Broadcast_BLOCK_PROPOSAL`: heights for blocks that arrive in and out of
-- order.
use dexmd.Base.{
  ℕ, ◌+◌, ◌%◌, ◌^◌, ◌<◌, ◌≡◌, ◌≢◌, refl, sym, ap, ◌∙◌, [], none, some, true, arith, Bytes, bytes_eq,
  nat_eq, lookup, insert,
}
use dexmd.Base.{lookup-insert_self, lookup-insert_ne}
use dexmd.External.{External}
use dexmd.Chain.{Blockchain, MissingBlock}
use dexmd.ForkChoice.{height, known, extend, place_block, set_height, insert_priority}

abbrev first_gap : Bytes → ℕ → MissingBlock
first_gap c order = record {
  sequence_block = 1;
  arrival_order = order;
  hightest_block = c;
  blocks_to_recalculate = [];
}

height-some :
    (bc : Blockchain) (p : Bytes) (n : ℕ) → lookup p bc.hash_blocks ≡ some n → height bc p ≡ n
unfolding height
height-some bc p n at = rw (height, at) refl

known-some :
    (x : External) (bc : Blockchain) (p : Bytes) (n : ℕ)
    → lookup p bc.hash_blocks ≡ some n
    → known x bc p ≡ true
unfolding known
known-some x bc p n at = rw (known, at) refl

module _ (x : External) (bc : Blockchain) (c p : Bytes) (order : ℕ) where
  extend-heights :
      (n : ℕ)
      → lookup p bc.hash_blocks ≡ some n
      → n + 1 < 2 ^ 64
      → (extend x bc c p order).hash_blocks ≡ insert c (n + 1) bc.hash_blocks
  unfolding extend set_height insert_priority height
  extend-heights n at room =
      let sum : (height bc p + 1) % 2 ^ 64 ≡ n + 1 = omega (arith, height-some bc p n at) in
      ap (λ k. insert c k bc.hash_blocks) sum

  place_block-extend :
      (n : ℕ)
      → lookup c bc.missing_block ≡ none
      → lookup p bc.hash_blocks ≡ some n
      → n + 1 < 2 ^ 64
      → ((place_block x bc c p order).hash_blocks ≡ insert c (n + 1) bc.hash_blocks)
        × ((place_block x bc c p order).missing_block ≡ bc.missing_block)
  unfolding place_block extend set_height insert_priority
  place_block-extend n fresh at room =
      rw (place_block, fresh, known-some x bc p n at) (extend-heights n at room, refl)

module _ (x : External) (bc : Blockchain) (a b c : Bytes) (n order order' : ℕ)
    (at : lookup a bc.hash_blocks ≡ some n) (room : n + 2 < 2 ^ 64) (b_c : b ≢ c)
    (fresh_b : lookup b bc.missing_block ≡ none) (fresh_c : lookup c bc.missing_block ≡ none) where
  -- For a block with a height below 2^64 - 2 and two different blocks after it that no block is
  -- waiting for: if the two arrive in their order, each gets the height of the one before it and 1.
  pub place_block-in_order :
      (lookup b (place_block x (place_block x bc b a order) c b order').hash_blocks ≡ some (n + 1))
      × (lookup c (place_block x (place_block x bc b a order) c b order').hash_blocks
          ≡ some (n + 2))
  place_block-in_order =
      let first = place_block-extend x bc b a order n fresh_b at (omega arith) in
      let b_at = ap (lookup b) first.0 ∙ lookup-insert_self b (n + 1) bc.hash_blocks in
      let second =
        place_block-extend x (place_block x bc b a order) c b order' (n + 1)
          (ap (lookup c) first.1 ∙ fresh_c) b_at (omega arith) in
      let sum : n + 1 + 1 ≡ n + 2 = omega arith in
      (
        ap (lookup b) second.0
            ∙ (lookup-insert_ne c b (n + 1 + 1) (place_block x bc b a order).hash_blocks
                  (λ e. b_c (sym e))
                ∙ b_at),
        ap (lookup c) second.0
            ∙ (lookup-insert_self c (n + 1 + 1) (place_block x bc b a order).hash_blocks
                ∙ ap some sum),
      )
