-- ===== src/Validators/Draw.antt =====
-- blockchain/validators.go, `ChooseValidator` and `ChooseShard`.
use dexmd.Base.{
  ℕ, suc, ◌+◌, ◌%◌, ◌^◌, List, [], ◌∷◌, none, some, Bool, true, false, not, ◌&&◌, ◌||◌, Bytes,
  bytes_eq, nat_eq, ◌==◌, if◌then◌else◌, ltb, length, Outcome, ok, err, panic, Error, ◌>>=◌, ◌>>◌,
  fail_if, or_panic, Dict, lookup,
}
use dexmd.Base.{get_elem?, keys}
use dexmd.Base.Int.{ℤ, to_u64}
use dexmd.Validators.{Validator, ValidatorsBook, check_dynasty, set_shard}

-- math/rand and the float64 comparison in `ChooseValidator`: the permutation that a seed gives for a
-- length, whether `float64(counter) >= rand.Float64() * float64(total)` for the number drawn after a
-- seed, and the shard numbers that a seed draws, by their place.
pub record Random : Type 0 where
  pub perm : ℤ → ℕ → List ℕ
  pub reaches : ℤ → ℕ → ℕ → Bool
  pub shards : ℤ → ℕ → ℕ

-- The byte order of Go strings.
unfoldable pub bytes_leb : Bytes → Bytes → Bool
bytes_leb [] ys = true
bytes_leb (x ∷ xs) [] = false
bytes_leb (x ∷ xs) (y ∷ ys) = ltb x y || (x == y && bytes_leb xs ys)

-- `sort.Strings`, as an insertion sort.
unfoldable pub insert_sorted : Bytes → List Bytes → List Bytes
unfolding bytes_leb
insert_sorted w [] = w ∷ []
insert_sorted w (u ∷ us) = if bytes_leb w u then w ∷ (u ∷ us) else u ∷ insert_sorted w us

unfoldable pub sort_strings : List Bytes → List Bytes
unfolding insert_sorted
sort_strings [] = []
sort_strings (w ∷ ws) = insert_sorted w (sort_strings ws)

-- `simpleValidator`
abbrev pub SimpleValidator : Type 0
SimpleValidator = Bytes × ℕ

-- The first loop of `ChooseValidator`: the validators of the shard that are in their dynasty.
unfoldable pub eligible : ValidatorsBook → ℕ → ℕ → List Bytes → List SimpleValidator
unfolding check_dynasty
eligible v current_block shard [] = []
eligible v current_block shard (w ∷ ws) =
    let rest = eligible v current_block shard ws in
    elim (lookup w v.vals_array) [
      | none ↦ rest
      | some val ↦
          if not (check_dynasty v val.wallet current_block) || not (val.shard == shard)
          then rest
          else (w, val.stake) ∷ rest
    ]

unfoldable pub total_stake : ℕ → List SimpleValidator → ℕ
total_stake acc [] = acc
total_stake acc ((w, stake) ∷ ss) = total_stake ((acc + stake) % 2 ^ 64) ss

-- `ret[i] = ss[randIndex]`
unfoldable pub shuffle : List SimpleValidator → List ℕ → Outcome (List SimpleValidator)
shuffle ss [] = ok []
shuffle ss (i ∷ is) = do s ← or_panic (get_elem? ss i); rest ← shuffle ss is; ok (s ∷ rest)

-- The last loop: the first validator at which the running stake reaches the level.
unfoldable pub pick : (ℕ → Bool) → ℕ → List SimpleValidator → Outcome Bytes
pick reaches counter [] = err Error.not_chosen
pick reaches counter ((w, stake) ∷ ss) =
    let rest = pick reaches ((counter + stake) % 2 ^ 64) ss in
    if reaches ((counter + stake) % 2 ^ 64) then ok w else rest

-- `ChooseValidator`
unfoldable pub choose_validator : Random → ValidatorsBook → ℤ → ℕ → Outcome Bytes
unfolding sort_strings eligible total_stake shuffle pick
choose_validator rand v current_block shard = do
  let ss : List SimpleValidator =
      eligible v (to_u64 current_block) shard (sort_strings (keys v.vals_array))
  fail_if (ltb (total_stake 0 ss) 1) Error.not_enough_stake
  ret ← shuffle ss (rand.perm current_block (length ss))
  pick (rand.reaches current_block (total_stake 0 ss)) 0 ret

-- The first loop of `ChooseShard` visits the map itself, in whatever order it has.
unfoldable pub in_dynasty_now : ValidatorsBook → ℕ → Dict Bytes Validator → List SimpleValidator
unfolding check_dynasty
in_dynasty_now v current_block [] = []
in_dynasty_now v current_block ((k, val) ∷ vals) =
    let rest = in_dynasty_now v current_block vals in
    if not (check_dynasty v val.wallet current_block) then rest else (k, val.stake) ∷ rest

-- Its second loop: every validator gets the shard that is drawn for it; the wallet's own is kept.
unfoldable pub deal_shards :
    ValidatorsBook → Bytes → ℕ → List SimpleValidator → (ℕ → ℕ) → ℕ → ValidatorsBook × ℕ
unfolding set_shard
deal_shards v wallet shard_wallet [] draw i = (v, shard_wallet)
deal_shards v wallet shard_wallet ((w, stake) ∷ ss) draw i =
    let v' : ValidatorsBook = elim (set_shard v w (draw i)) [
      | ok book ↦ book
      | err _ ↦ v
      | panic ↦ v
    ] in
    deal_shards v' wallet (if w == wallet then draw i else shard_wallet) ss draw (suc i)

-- `ChooseShard`, at the value that the package variable `currentBlock` has.
unfoldable pub choose_shard :
    Random → ValidatorsBook → ℕ → ℤ → Bytes → Outcome (ValidatorsBook × Outcome ℕ)
unfolding in_dynasty_now shuffle deal_shards
choose_shard rand v current_block seed wallet = do
  let ss : List SimpleValidator = in_dynasty_now v current_block v.vals_array
  ret ← shuffle ss (rand.perm seed (length ss))
  let (v', shard) = deal_shards v wallet 0 ret (rand.shards seed) 0
  ok (v', if shard == 0 then err Error.not_a_validator else ok shard)
