-- ===== src/Network/Filtering.antt =====
-- networking/broadcast.go, `CheckShard` and the cases that begin with it.
use dexmd.Base.{
  ℕ, ◌≡◌, ◌≢◌, ◌↔◌, ◌⊎◌, inl, inr, sym, ap, ◌∙◌, List, [], ◌∷◌, some, true, arith, Bytes, bytes_eq,
  nat_eq, ◌==◌, Bool-cases, Option-cases,
}
use dexmd.Base.{nat_beq_iff}
use dexmd.Text.{parse_hex32}
use dexmd.Network.{Node, interested, check_shard}

-- A string among the interests that reads as the shard, in base 16.
abbrev pub Listed : ℕ → List Bytes → Type 0
Listed shard [] = ⊥
Listed shard (i ∷ is) = (parse_hex32 i ≡ some shard) ⊎ Listed shard is

interested-Listed : (shard : ℕ) (is : List Bytes) → interested shard is ≡ true → Listed shard is
unfolding interested
interested-Listed shard [] h = absurd (ground arith)
interested-Listed shard (i ∷ is) h = elim (Option-cases (parse_hex32 i)) [
  | inl bad ↦ inr (interested-Listed shard is (ground arith))
  | inr (n, good) ↦ elim (Bool-cases (shard == n)) [
    | inl same ↦ inl (good ∙ ap some (sym ((nat_beq_iff shard n).0 same)))
    | inr other ↦ inr (interested-Listed shard is (ground arith))
  ]
]

Listed-interested : (shard : ℕ) (is : List Bytes) → Listed shard is → interested shard is ≡ true
unfolding interested
Listed-interested shard [] x = elim x [ ]
Listed-interested shard (i ∷ is) (inl good) = ground (arith, nat_beq_iff shard shard)
Listed-interested shard (i ∷ is) (inr rest) = ground (arith, Listed-interested shard is rest)

-- `CheckShard` holds exactly for a shard other than 0 that one of the interests reads as in base 16.
pub check_shard-exact :
    (cs : Node) (shard : ℕ)
    → (check_shard cs shard ≡ true) ↔ ((shard ≢ 0) × Listed shard cs.interests)
unfolding check_shard
check_shard-exact cs shard = (
  λ h. (ground (arith, nat_beq_iff shard 0), interested-Listed shard cs.interests (ground arith)),
  λ p. ground (arith, nat_beq_iff shard 0, Listed-interested shard cs.interests p.1),
)
