-- ===== src/Validation/Repeats.antt =====
-- blockchain/processing.go, `ValidateBlock`: transactions that come again, in a block and in the blocks
-- before it.
use dexmd.Validation.Blocks.{sub_u64o-covered}
use dexmd.Validation.Spends.{IsSigned, validate_step-Step}
use dexmd.Validation.{Transaction, Block, Tainted, validate_block, validate_loop, validate_step}
use dexmd.Chain.{Blockchain}
use dexmd.External.{External}
use mathlib.Core.List.{Memᴰ}
use std.Path.{subst}
use dexmd.Validation.Spends.{IsSigned}
use dexmd.Validation.Blocks.{sub_u64o-covered}
use dexmd.Validation.{already_included}
use dexmd.Base.{
  nat_beq_iff, Outcome-cases, ◌≡◌, ◌≢◌, inl, inr, sym, List, [], ◌∷◌, none, some, true, false,
  arith, bytes_eq, nat_eq, All, ok,
}

pub All-Memᴰ {ℓ κ} :
    {A : Type ℓ} (P : A → Type κ) (a : A) (xs : List A) → All P xs → Memᴰ a xs → P a
All-Memᴰ P a [] all there = elim there [ ]
All-Memᴰ P a (x ∷ xs) all (Memᴰ.head e) = subst P (sym e) all.0
All-Memᴰ P a (x ∷ xs) all (Memᴰ.tail there) = All-Memᴰ P a xs all.1 there

module _ (x : External) (bc : Blockchain) where
  validate_loop-fresh :
      {tainted' : Tainted x} (tainted : Tainted x) (ts : List Transaction)
      → validate_loop x bc tainted ts ≡ ok (some tainted')
      → All (λ t. already_included x bc t ≡ false) ts
  unfolding validate_loop
  validate_loop-fresh tainted [] h = tt
  validate_loop-fresh tainted (t ∷ ts) h = elim (Outcome-cases (validate_step x bc tainted t)) [
    | inl (some next, e) ↦
        let s = validate_step-Step x bc tainted next t e in
        (s.fresh, validate_loop-fresh next ts (rw e at h))
    | inl (none, e) ↦ absurd (ground arith)
    | inr bad ↦ absurd (ground arith)
  ]

  -- An accepted block holds no transaction that the database has as included.
  pub validate_block-fresh :
      (block : Block)
      → block.index ≢ 0
      → validate_block x bc block ≡ ok true
      → All (λ t. already_included x bc t ≡ false) block.transactions
  unfolding validate_block
  validate_block-fresh block later h =
      elim (Outcome-cases (validate_loop x bc [] block.transactions)) [
        | inl (some last, e) ↦ validate_loop-fresh [] block.transactions e
        | inl (none, e) ↦ absurd (ground (arith, nat_beq_iff block.index 0))
        | inr bad ↦ absurd (ground (arith, nat_beq_iff block.index 0))
      ]
