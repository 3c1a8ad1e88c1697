-- ===== src/Validators/Book.antt =====
-- blockchain/validators.go: the book of validators after its operations.
use dexmd.Base.{
  Outcome-cases, ℕ, ◌+◌, ◌^◌, ◌<◌, ◌≡◌, ◌↔◌, ◌⊎◌, inl, inr, refl, sym, ap, ◌∙◌, none, some, Bool,
  true, false, arith, Bytes, bytes_eq, nat_eq, ◌==◌, if◌then◌else◌, ltb, Option-cases, ok, lookup,
  insert,
}
use dexmd.Base.{lookup-insert, lookup-insert_self}
use dexmd.Base.Int.{ℤ, pos, negsuc, ltb_ℤ, to_i64, wrap_i64, ◌+ℤ◌}
use dexmd.Proto.{Transaction}
use dexmd.External.{External}
use dexmd.Validators.{
  Validator, ValidatorsBook, check_is_validator, check_dynasty, in_dynasty, withdraw_validator,
  update_validator, add_validator, may_validate,
}

later_than :
    (start current_block : ℕ)
    → start + 200 < 2 ^ 63
    → current_block < 2 ^ 63
    → ltb_ℤ (wrap_i64 (pos start +ℤ pos 200)) (to_i64 current_block)
      ≡ ltb (start + 200) current_block
later_than start current_block hs hc = ground arith

earlier_than :
    (left current_block : ℕ)
    → left + 200 < 2 ^ 63
    → current_block < 2 ^ 63
    → ltb_ℤ (to_i64 current_block) (wrap_i64 (pos left +ℤ pos 200)) ≡ ltb current_block (left + 200)
earlier_than left current_block hl hc = ground arith

in_dynasty-exact :
    (val : Validator) (start left current_block : ℕ)
    → val.start_dynasty ≡ pos start
    → val.end_dynasty ≡ pos left
    → start + 200 < 2 ^ 63
    → left + 200 < 2 ^ 63
    → current_block < 2 ^ 63
    → (in_dynasty val current_block ≡ true)
      ↔ ((start + 200 < current_block) × (current_block < left + 200))
unfolding in_dynasty
in_dynasty-exact val start left current_block started ended hs hl hc =
    rw
      (
        in_dynasty,
        started,
        ended,
        later_than start current_block hs hc,
        earlier_than left current_block hl hc,
      )
      (λ c. (ground arith, ground arith), λ c. ground arith)

-- For a validator that started at a block, with block numbers below 2^63: after a
-- `WithdrawValidator` at another block, `CheckDynasty` holds exactly for the blocks later than 200
-- after the start and earlier than 200 after the end.
pub check_dynasty-withdraw_validator :
    (v v' : ValidatorsBook) (wallet : Bytes) (val : Validator) (start left current_block : ℕ)
    → lookup wallet v.vals_array ≡ some val
    → val.start_dynasty ≡ pos start
    → start + 200 < 2 ^ 63
    → left + 200 < 2 ^ 63
    → current_block < 2 ^ 63
    → withdraw_validator v wallet (pos left) ≡ ok v'
    → (check_dynasty v' wallet current_block ≡ true)
      ↔ ((start + 200 < current_block) × (current_block < left + 200))
unfolding withdraw_validator update_validator check_dynasty
check_dynasty-withdraw_validator v v' wallet val start left current_block there started hs hl hc h =
    let gone : Validator = record val { end_dynasty = pos left } in
    let now : lookup wallet v'.vals_array ≡ some gone =
      ground (arith, lookup-insert_self wallet gone v.vals_array) in
    let test : check_dynasty v' wallet current_block ≡ in_dynasty gone current_block =
      ap (λ o. elim o [ none ↦ false | some u ↦ in_dynasty u current_block ]) now in
    let exact = in_dynasty-exact gone start left current_block started refl hs hl hc in
    (λ c. exact.0 (sym test ∙ c), λ c. test ∙ exact.1 c)

-- An `AddValidator` of a wallet that is not in the book returns false if it returns, and then either
-- leaves the book as it was, or puts the wallet into shard 1 with the amount of the transaction as its
-- stake and without an end, whatever shard it is given; the others stay as they were.
pub add_validator-new :
    (x : External) (v v' : ValidatorsBook) (wallet : Bytes) (dynasty : ℤ) (key : Bytes)
    (t : Transaction) (shard : ℕ) (existed : Bool)
    → check_is_validator v wallet ≡ false
    → add_validator x v wallet dynasty key t shard ≡ ok (v', existed)
    → (existed ≡ false)
      × ((v' ≡ v)
          ⊎ ((val : Validator) × (val.shard ≡ 1)
              × (val.stake ≡ t.amount)
              × (val.end_dynasty ≡ negsuc 0)
              × ((j : Bytes)
                  → lookup j v'.vals_array
                    ≡ (if wallet == j then some val else lookup j v.vals_array))))
unfolding add_validator
add_validator-new x v v' wallet dynasty key t shard existed fresh h =
    elim (Option-cases (x.parse_point key)) [
      | inl bad ↦ (ground arith, inl (ground arith))
      | inr (point, parsed) ↦ elim (Outcome-cases (may_validate x wallet)) [
        | inr bad ↦ absurd (ground arith)
        | inl (false, refused) ↦ (ground arith, inl (ground arith))
        | inl (true, allowed) ↦
            let val : Validator = record {
              wallet = wallet;
              start_dynasty = dynasty;
              end_dynasty = negsuc 0;
              stake = t.amount;
              shard = 1;
              schnorr_public_key = point;
            } in
            let grown : v'.vals_array ≡ insert wallet val v.vals_array = ground arith in
            (
              ground arith,
              inr (
                val,
                refl,
                refl,
                refl,
                λ j. ap (lookup j) grown ∙ lookup-insert wallet j val v.vals_array,
              ),
            )
      ]
    ]
