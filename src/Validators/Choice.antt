-- ===== src/Validators/Choice.antt =====
-- blockchain/validators.go, `ChooseValidator`: who can be chosen.
use dexmd.Base.{
  Outcome-cases, ℕ, zero, suc, ◌+◌, ◌%◌, ◌^◌, ◌≡◌, inl, inr, sym, ap, ◌∙◌, List, [], ◌∷◌, some,
  Bool, true, false, not, ◌||◌, arith, Bytes, bytes_eq, nat_eq, ◌==◌, Bool-cases, Option-cases,
  length, ok, lookup,
}
use dexmd.Base.{bytes_beq_iff, get_elem?, keys, nat_beq_iff}
use dexmd.Base.Int.{ℤ, to_u64}
use dexmd.Validators.{Validator, ValidatorsBook, check_dynasty}
use dexmd.Validators.Draw.{
  SimpleValidator, eligible, sort_strings, total_stake, shuffle, pick, Random, choose_validator,
}

-- A wallet among validators with their stakes.
unfoldable pub has : Bytes → List SimpleValidator → Bool
has w [] = false
has w ((u, stake) ∷ ss) = u == w || has w ss

-- What a chosen wallet is: a validator of the shard that is in its dynasty.
pub record Chosen (v : ValidatorsBook) (current_block shard : ℕ) (w : Bytes) : Type 0 where
  pub validator : Validator
  pub listed : lookup w v.vals_array ≡ some validator
  pub active : check_dynasty v validator.wallet current_block ≡ true
  pub in_shard : validator.shard ≡ shard

eligible-Chosen :
    (v : ValidatorsBook) (current_block shard : ℕ) (ws : List Bytes) (w : Bytes)
    → has w (eligible v current_block shard ws) ≡ true
    → Chosen v current_block shard w
unfolding eligible has
eligible-Chosen v current_block shard [] w h = absurd (ground arith)
eligible-Chosen v current_block shard (u ∷ ws) w h = elim (Option-cases (lookup u v.vals_array)) [
  | inl gone ↦ eligible-Chosen v current_block shard ws w (ground arith)
  | inr (val, there) ↦
      elim (Bool-cases
        (not (check_dynasty v val.wallet current_block) || not (val.shard == shard))) [
          | inl out ↦ eligible-Chosen v current_block shard ws w (ground arith)
          | inr fits ↦ elim (Bool-cases (u == w)) [
            | inr other ↦ eligible-Chosen v current_block shard ws w (ground arith)
            | inl same ↦ record {
              validator = val;
              listed = ap (λ k. lookup k v.vals_array) (sym ((bytes_beq_iff u w).0 same)) ∙ there;
              active = ground arith;
              in_shard = ground (arith, nat_beq_iff val.shard shard);
            }
          ]
        ]
]

has-get_elem :
    (w : Bytes) (ss : List SimpleValidator) (i stake : ℕ)
    → get_elem? ss i ≡ some (w, stake)
    → has w ss ≡ true
unfolding has
has-get_elem w [] i stake h = absurd (ground arith)
has-get_elem w ((u, s) ∷ ss) zero stake h = ground (arith, bytes_beq_iff u w)
has-get_elem w ((u, s) ∷ ss) (suc i) stake h = ground (arith, has-get_elem w ss i stake h)

has-shuffle :
    (w : Bytes) (ss ret : List SimpleValidator) (is : List ℕ)
    → shuffle ss is ≡ ok ret
    → has w ret ≡ true
    → has w ss ≡ true
unfolding shuffle has
has-shuffle w ss ret [] h there = absurd (ground arith)
has-shuffle w ss ret (i ∷ is) h there = elim (Option-cases (get_elem? ss i)) [
  | inl out ↦ absurd (ground arith)
  | inr ((u, stake), found) ↦ elim (Outcome-cases (shuffle ss is)) [
    | inr bad ↦ absurd (ground arith)
    | inl (rest, e) ↦
        let parts : ret ≡ (u, stake) ∷ rest = ground arith in
        let split : (u == w || has w rest) ≡ true = ap (has w) (sym parts) ∙ there in
        elim (Bool-cases (u == w)) [
          | inl same ↦
              has-get_elem w ss i stake
                (found ∙ ap (λ k. some (k, stake)) ((bytes_beq_iff u w).0 same))
          | inr other ↦ has-shuffle w ss rest is e (ground arith)
        ]
  ]
]

pick-has :
    (reaches : ℕ → Bool) (counter : ℕ) (ss : List SimpleValidator) (w : Bytes)
    → pick reaches counter ss ≡ ok w
    → has w ss ≡ true
unfolding pick has
pick-has reaches counter [] w h = absurd (ground arith)
pick-has reaches counter ((u, stake) ∷ ss) w h =
    elim (Bool-cases (reaches ((counter + stake) % 2 ^ 64))) [
      | inl reached ↦ ground (arith, bytes_beq_iff u w)
      | inr below ↦ ground (arith, pick-has reaches ((counter + stake) % 2 ^ 64) ss w)
    ]

-- Whoever `ChooseValidator` returns is in the book, is in its dynasty at the block, and belongs to the
-- shard, for any random source.
pub choose_validator-Chosen :
    (rand : Random) (v : ValidatorsBook) (current_block : ℤ) (shard : ℕ) (w : Bytes)
    → choose_validator rand v current_block shard ≡ ok w
    → Chosen v (to_u64 current_block) shard w
unfolding choose_validator
choose_validator-Chosen rand v current_block shard w h =
    let ss = eligible v (to_u64 current_block) shard (sort_strings (keys v.vals_array)) in
    elim (Outcome-cases (shuffle ss (rand.perm current_block (length ss)))) [
      | inr bad ↦ absurd (ground arith)
      | inl (ret, e) ↦
          eligible-Chosen v (to_u64 current_block) shard (sort_strings (keys v.vals_array)) w (
            has-shuffle w ss ret (rand.perm current_block (length ss)) e
              (pick-has (rand.reaches current_block (total_stake 0 ss)) 0 ret w (ground arith)))
    ]
