-- ===== src/Casper/Agreement.antt =====
-- networking/casper.go, `CheckpointAgreement`: which votes are counted, and how many are enough.
use dexmd.Base.{
  ℕ, ◌+◌, ◌≡◌, inl, inr, refl, ap, List, [], ◌∷◌, ◌++◌, Bool, ◌&&◌, ◌||◌, arith, Bytes, bytes_eq,
  nat_eq, ◌==◌, if◌then◌else◌, ltb, Bool-cases,
}
use dexmd.Base.{bytes_beq_iff, nat_beq_iff}
use dexmd.Proto.{CasperVote}
use dexmd.External.{External}
use dexmd.Chain.{Blockchain}
use dexmd.Validators.{ValidatorsBook}
use dexmd.Casper.{counts, mem_bytes, without, tally}

-- How many of the votes that are accepted a key has cast.
pub votes_of : (CasperVote → Bool) → Bytes → List CasperVote → ℕ
votes_of accepts key [] = 0
votes_of accepts key (vote ∷ votes) =
    (if accepts vote && key == vote.public_key then 1 else 0) + votes_of accepts key votes

mem_bytes-append :
    (k : Bytes) (js ks : List Bytes) → mem_bytes k (js ++ ks) ≡ (mem_bytes k js || mem_bytes k ks)
unfolding mem_bytes
mem_bytes-append k [] ks = refl
mem_bytes-append k (j ∷ js) ks = ground (arith, mem_bytes-append k js ks)

-- `userToRemove` afterwards holds the keys that it held, and those that voted again.
tally-again :
    (accepts : CasperVote → Bool) (key : Bytes) (voters again : List Bytes)
    (votes : List CasperVote)
    → mem_bytes key (tally accepts voters again votes).1 ≡ (
        mem_bytes key again
        || (if mem_bytes key voters
            then ltb 0 (votes_of accepts key votes)
            else ltb 1 (votes_of accepts key votes)))
unfolding tally votes_of mem_bytes
tally-again accepts key voters again [] = ground arith
tally-again accepts key voters again (vote ∷ votes) = elim (Bool-cases (key == vote.public_key)) [
  | inl same ↦
      let moved : mem_bytes key voters ≡ mem_bytes vote.public_key voters =
        ap (λ i. mem_bytes i voters) ((bytes_beq_iff key vote.public_key).0 same) in
      ground (
        arith,
        moved,
        mem_bytes-append key again (vote.public_key ∷ []),
        tally-again accepts key voters again votes,
        tally-again accepts key voters (again ++ vote.public_key ∷ []) votes,
        tally-again accepts key (vote.public_key ∷ voters) again votes,
      )
  | inr other ↦ ground (
    arith,
    mem_bytes-append key again (vote.public_key ∷ []),
    tally-again accepts key voters again votes,
    tally-again accepts key voters (again ++ vote.public_key ∷ []) votes,
    tally-again accepts key (vote.public_key ∷ voters) again votes,
  )
]

-- How often a key is listed.
unfoldable pub times : Bytes → List Bytes → ℕ
times k [] = 0
times k (j ∷ js) = (if k == j then 1 else 0) + times k js

times-without :
    (k : Bytes) (users ks : List Bytes)
    → times k (without users ks) ≡ (if mem_bytes k users then 0 else times k ks)
unfolding times without
times-without k users [] = ground arith
times-without k users (j ∷ ks) = elim (Bool-cases (k == j)) [
  | inl same ↦
      let moved : mem_bytes k users ≡ mem_bytes j users =
        ap (λ i. mem_bytes i users) ((bytes_beq_iff k j).0 same) in
      ground (arith, times-without k users ks, moved)
  | inr other ↦ ground (arith, times-without k users ks)
]

-- No key gets into `mapVote` twice.
tally-times :
    (accepts : CasperVote → Bool) (key : Bytes) (voters again : List Bytes)
    (votes : List CasperVote)
    → times key (tally accepts voters again votes).0 ≡ (
        if mem_bytes key voters
        then times key voters
        else times key voters + (if ltb 0 (votes_of accepts key votes) then 1 else 0))
unfolding tally votes_of mem_bytes times
tally-times accepts key voters again [] = ground arith
tally-times accepts key voters again (vote ∷ votes) = elim (Bool-cases (key == vote.public_key)) [
  | inl same ↦
      let moved : mem_bytes key voters ≡ mem_bytes vote.public_key voters =
        ap (λ i. mem_bytes i voters) ((bytes_beq_iff key vote.public_key).0 same) in
      ground (
        arith,
        moved,
        tally-times accepts key voters again votes,
        tally-times accepts key voters (again ++ vote.public_key ∷ []) votes,
        tally-times accepts key (vote.public_key ∷ voters) again votes,
      )
  | inr other ↦ ground (
    arith,
    tally-times accepts key voters again votes,
    tally-times accepts key voters (again ++ vote.public_key ∷ []) votes,
    tally-times accepts key (vote.public_key ∷ voters) again votes,
  )
]

-- The list that `CheckpointAgreement` counts holds a key once if the key cast exactly one of the votes
-- that are accepted, and otherwise not at all.
pub counted-voted_once :
    (accepts : CasperVote → Bool) (key : Bytes) (votes : List CasperVote)
    → times key (without (tally accepts [] [] votes).1 (tally accepts [] [] votes).0)
      ≡ (if votes_of accepts key votes == 1 then 1 else 0)
unfolding mem_bytes times
counted-voted_once accepts key votes = ground (
  arith,
  nat_beq_iff (votes_of accepts key votes) 1,
  times-without key (tally accepts [] [] votes).1 (tally accepts [] [] votes).0,
  tally-times accepts key [] [] votes,
  tally-again accepts key [] [] votes,
)

module _ (x : External) (v : ValidatorsBook) (b : Blockchain) (votes : List CasperVote)
    (source_height target_height shard : ℕ) where
  -- The keys that are counted.
  unfoldable pub counted : List Bytes
  unfolding counts
  counted =
      let (voters, again) = tally (counts x v b source_height target_height shard) [] [] votes in
      without again voters
