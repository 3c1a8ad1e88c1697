-- ===== src/Validators/Totality.antt =====
-- blockchain/validators.go, `ChooseValidator`: it finds someone whenever there is any stake.
use std.Path.{subst}
use dexmd.Validators.{ValidatorsBook}
use mathlib.Core.List.{Permᴰ}
use dexmd.Validators.Choice.{Chosen, choose_validator-Chosen}
use dexmd.Validators.Draw.{
  SimpleValidator, Random, eligible, sort_strings, total_stake, shuffle, pick, choose_validator,
}
use dexmd.Base.{
  get_elem?, keys, ℕ, zero, suc, ◌+◌, ◌%◌, ◌^◌, ◌≤◌, ◌<◌, ◌≡◌, inl, inr, refl, sym, ap, ◌∙◌, List,
  [], ◌∷◌, some, Bool, true, false, arith, Bytes, bytes_eq, nat_eq, ltb, Bool-cases, length, All,
  ok,
}
use dexmd.Base.Int.{ℤ, to_u64}

-- The stakes of some validators together.
sum_stakes : List SimpleValidator → ℕ
sum_stakes [] = 0
sum_stakes ((w, stake) ∷ ss) = stake + sum_stakes ss

stake_at : List SimpleValidator → ℕ → ℕ
stake_at [] i = 0
stake_at ((w, stake) ∷ ss) zero = stake
stake_at ((w, stake) ∷ ss) (suc i) = stake_at ss i

sum_at : List SimpleValidator → List ℕ → ℕ
unfolding stake_at
sum_at ss [] = 0
sum_at ss (i ∷ is) = stake_at ss i + sum_at ss is

-- As many numbers from one on.
abbrev pub from : ℕ → ℕ → List ℕ
from k zero = []
from k (suc n) = k ∷ from (suc k) n

-- What math/rand promises: `Perm(n)` is a permutation of the numbers below n, and the level, a share of
-- the total, is reached by the total.
pub record Fair (rand : Random) : Type 0 where
  pub perm_is : (seed : ℤ) (n : ℕ) → Permᴰ (rand.perm seed n) (from 0 n)
  pub total_reaches : (seed : ℤ) (total : ℕ) → rand.reaches seed total total ≡ true

sum_at-Permᴰ :
    (ss : List SimpleValidator) {is js : List ℕ} → Permᴰ is js → sum_at ss is ≡ sum_at ss js
unfolding sum_at
sum_at-Permᴰ ss Permᴰ.nil = refl
sum_at-Permᴰ ss (Permᴰ.cons e p) = omega (arith, ap (stake_at ss) e, sum_at-Permᴰ ss p)
sum_at-Permᴰ ss (Permᴰ.swap e e') = omega (arith, ap (stake_at ss) e, ap (stake_at ss) e')
sum_at-Permᴰ ss (Permᴰ.trans p q) = sum_at-Permᴰ ss p ∙ sum_at-Permᴰ ss q

All-Permᴰ : (P : ℕ → Type 0) {is js : List ℕ} → Permᴰ is js → All P js → All P is
All-Permᴰ P Permᴰ.nil all = tt
All-Permᴰ P (Permᴰ.cons e p) (first, rest) = (subst P (sym e) first, All-Permᴰ P p rest)
All-Permᴰ P (Permᴰ.swap e e') (first, (second, rest)) =
    (subst P (sym e) second, (subst P (sym e') first, rest))
All-Permᴰ P (Permᴰ.trans p q) all = All-Permᴰ P p (All-Permᴰ P q all)

found_at :
    (ss : List SimpleValidator) (i : ℕ)
    → i < length ss
    → (w : Bytes) × (get_elem? ss i ≡ some (w, stake_at ss i))
unfolding stake_at
found_at [] i h = absurd (omega arith)
found_at ((w, stake) ∷ ss) zero h = (w, refl)
found_at ((w, stake) ∷ ss) (suc i) h = found_at ss i (omega arith)

from-below : (k n bound : ℕ) → k + n ≤ bound → All (λ i. i < bound) (from k n)
from-below k zero bound h = tt
from-below k (suc n) bound h = (omega arith, from-below (suc k) n bound (omega arith))

sum_at-from_tail :
    (w : Bytes) (stake : ℕ) (ss : List SimpleValidator) (k n : ℕ)
    → sum_at ((w, stake) ∷ ss) (from (suc k) n) ≡ sum_at ss (from k n)
unfolding sum_at stake_at
sum_at-from_tail w stake ss k zero = refl
sum_at-from_tail w stake ss k (suc n) = omega (arith, sum_at-from_tail w stake ss (suc k) n)

sum_at-from : (ss : List SimpleValidator) → sum_at ss (from 0 (length ss)) ≡ sum_stakes ss
unfolding sum_at stake_at sum_stakes
sum_at-from [] = refl
sum_at-from ((w, stake) ∷ ss) =
    omega (arith, sum_at-from_tail w stake ss 0 (length ss), sum_at-from ss)

total_stake-sum :
    (acc : ℕ) (ss : List SimpleValidator)
    → acc < 2 ^ 64
    → total_stake acc ss ≡ (acc + sum_stakes ss) % 2 ^ 64
unfolding total_stake sum_stakes
total_stake-sum acc [] h = omega arith
total_stake-sum acc ((w, stake) ∷ ss) h =
    omega (arith, total_stake-sum ((acc + stake) % 2 ^ 64) ss (omega arith))

shuffle-sums :
    (ss : List SimpleValidator) (is : List ℕ)
    → All (λ i. i < length ss) is
    → (ret : List SimpleValidator) × (shuffle ss is ≡ ok ret) × (sum_stakes ret ≡ sum_at ss is)
unfolding shuffle sum_at sum_stakes
shuffle-sums ss [] all = ([], refl, refl)
shuffle-sums ss (i ∷ is) (below, all) =
    let (ret, shuffled, sums) = shuffle-sums ss is all in
    let (w, found) = found_at ss i below in
    ((w, stake_at ss i) ∷ ret, rw (shuffle, found, shuffled) refl, ap (λ n. stake_at ss i + n) sums)

pick_finds :
    (reaches : ℕ → Bool) (counter stake : ℕ) (w : Bytes) (ss : List SimpleValidator)
    → reaches ((counter + sum_stakes ((w, stake) ∷ ss)) % 2 ^ 64) ≡ true
    → (u : Bytes) × (pick reaches counter ((w, stake) ∷ ss) ≡ ok u)
unfolding pick sum_stakes
pick_finds reaches counter stake w [] h =
    let last : (counter + (stake + 0)) % 2 ^ 64 ≡ (counter + stake) % 2 ^ 64 = omega arith in
    let reached : reaches ((counter + stake) % 2 ^ 64) ≡ true = ap reaches (sym last) ∙ h in
    (w, rw reached refl)
pick_finds reaches counter stake w ((w', stake') ∷ ss) h =
    elim (Bool-cases (reaches ((counter + stake) % 2 ^ 64))) [
      | inl reached ↦ (w, rw reached refl)
      | inr below ↦
          let next = (counter + stake) % 2 ^ 64 in
          let same : (counter + (stake + (stake' + sum_stakes ss))) % 2 ^ 64
              ≡ (next + (stake' + sum_stakes ss)) % 2 ^ 64 =
            omega arith in
          let (u, picked) = pick_finds reaches next stake' w' ss (ap reaches (sym same) ∙ h) in
          (u, rw below picked)
    ]

pick_total :
    (reaches : ℕ → Bool) (total : ℕ) (ret : List SimpleValidator)
    → total ≡ sum_stakes ret % 2 ^ 64
    → 1 ≤ total
    → reaches total ≡ true
    → (w : Bytes) × (pick reaches 0 ret ≡ ok w)
unfolding sum_stakes
pick_total reaches total [] is some_stake h = absurd (omega (arith, is))
pick_total reaches total ((w, stake) ∷ ret) is some_stake h =
    let same : (0 + (stake + sum_stakes ret)) % 2 ^ 64 ≡ total = omega (arith, is) in
    pick_finds reaches 0 stake w ret (ap reaches same ∙ h)

-- If `rand.Perm` gives a permutation and the level, a random share of the total, is reached by the total:
-- whenever the stakes of the validators of the shard that are in their dynasty sum up, as a uint64, to at
-- least 1, `ChooseValidator` returns a wallet, and it is in the book, in its dynasty and in the shard.
pub choose_validator-finds :
    (rand : Random) (v : ValidatorsBook) (current_block : ℤ) (shard : ℕ)
    → Fair rand
    → 1 ≤ total_stake 0 (eligible v (to_u64 current_block) shard (sort_strings (keys v.vals_array)))
    → (w : Bytes) × (choose_validator rand v current_block shard ≡ ok w)
      × Chosen v (to_u64 current_block) shard w
unfolding choose_validator sum_stakes pick
choose_validator-finds rand v current_block shard fair some_stake =
    let ss = eligible v (to_u64 current_block) shard (sort_strings (keys v.vals_array)) in
    let perm = fair.perm_is current_block (length ss) in
    let total = total_stake 0 ss in
    let reaches = rand.reaches current_block total in
    let (ret, shuffled, sums) =
      shuffle-sums ss (rand.perm current_block (length ss)) (
        All-Permᴰ (λ i. i < length ss) perm (from-below 0 (length ss) (length ss) (omega arith))) in
    let sum_is : sum_stakes ret ≡ sum_stakes ss = sums ∙ (sum_at-Permᴰ ss perm ∙ sum_at-from ss) in
    let total_is : total ≡ sum_stakes ret % 2 ^ 64 =
      omega (arith, total_stake-sum 0 ss (omega arith), sum_is) in
    let (w, picked) =
      pick_total reaches total ret total_is some_stake (fair.total_reaches current_block total) in
    let enough : ltb total 1 ≡ false = ground arith in
    let ends : choose_validator rand v current_block shard ≡ ok w =
      rw (choose_validator, enough, shuffled) picked in
    (w, ends, choose_validator-Chosen rand v current_block shard w ends)
