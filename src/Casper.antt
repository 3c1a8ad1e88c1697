-- ===== src/Casper.antt =====
-- networking/casper.go: votes on checkpoints. The votes that have arrived are a package variable of
-- the source, here a part of the state.
pub mod Agreement
pub mod Ancestry
pub mod Votes
mod Examples
use dexmd.Base.{
  ℕ, zero, suc, ◌+◌, ◌-◌, ◌*◌, ◌/◌, ◌%◌, ◌^◌, ◌≤◌, ◌<◌, ◌≡◌, ◌≢◌, ◌↔◌, ◌⊎◌, inl, inr, refl, sym, ap,
  ◌∙◌, List, [], ◌∷◌, ◌++◌, map, Option, none, some, Bool, true, false, not, ◌&&◌, ◌||◌, arith,
  Bytes, bytes_eq, nat_eq, ◌==◌, if◌then◌else◌, ltb, leb, Bool-cases, Option-cases, length, All,
  replicate, dec_lt, Outcome, ok, err, panic, Error, ◌>>=◌, ◌>>◌, fail_if, or_fail, or_panic, Dict,
  lookup, insert, erase,
}
use dexmd.Proto.{CasperVote, Block}
use dexmd.External.{External}
use dexmd.Text.{decimal}
use dexmd.Chain.{Blockchain, get_block}
use dexmd.Validators.{ValidatorsBook, check_is_validator, check_dynasty, get_shard, len_validators}

-- `IsJustified`
unfoldable pub is_justified : ℕ → ℕ → Bool
is_justified current_checkpoint index = not (ltb current_checkpoint index)

-- What the backward search of `IsVoteValid` ends with; `out_of_fuel` is no outcome of the source.
pub data Search : Type 0 where
  found : Search
  refused : Search
  out_of_fuel : Search

module _ (x : External) where
  -- `GetBlock` with its error ignored: a block that is not there has no bytes.
  unfoldable pub block_bytes : Blockchain → ℕ → Bytes
  block_bytes b index = elim (get_block x b index) [ ok raw ↦ raw | err _ ↦ [] | panic ↦ [] ]

  -- The `for` loop of `IsVoteValid` at index `i`, which is a uint64: it wraps around after 0, and
  -- the test `i >= 0` always holds. A block with an empty previous hash skips the checkpoint test.
  unfoldable pub search_back : ℕ → Blockchain → Bytes → ℕ → Bytes → Search
  search_back zero b source_hash i prev_hash = out_of_fuel
  search_back (suc fuel) b source_hash i prev_hash =
      let raw = block_bytes b i in
      let current_hash = x.sha256 raw in
      let equal = prev_hash == current_hash in
      let block_prev = (x.block.decode raw).prev_hash in
      let before = (i + 2 ^ 64 - 1) % 2 ^ 64 in
      let skipped = search_back fuel b source_hash before prev_hash in
      let linked = search_back fuel b source_hash before block_prev in
      let unlinked = search_back fuel b source_hash before prev_hash in
      if current_hash == source_hash && equal
      then found
      else if equal && length block_prev == 0
      then skipped
      else if is_justified b.current_checkpoint i
      then refused
      else if equal
      then linked
      else unlinked

  -- `IsVoteValid`, with the rounds that its loop may take.
  unfoldable pub is_vote_valid : ℕ → Blockchain → Bytes → ℕ → Search
  unfolding search_back block_bytes is_justified
  is_vote_valid fuel b source_hash target_height =
      search_back fuel b source_hash ((target_height + 2 ^ 64 - 1) % 2 ^ 64)
        (x.block.decode (block_bytes b target_height)).prev_hash

  -- The loop is given a round for each uint64: after that it would begin again.
  unfoldable pub vote_valid : Blockchain → CasperVote → Bool
  unfolding is_vote_valid
  vote_valid b vote = elim (is_vote_valid (2 ^ 64) b vote.source vote.target_height) [
    | found ↦ true
    | refused ↦ false
    | out_of_fuel ↦ false
  ]

  -- The tests of the loop of `CheckpointAgreement` on one vote.
  unfoldable pub counts : ValidatorsBook → Blockchain → ℕ → ℕ → ℕ → CasperVote → Bool
  unfolding vote_valid
  counts v b source_height target_height shard vote =
      vote.source_height == source_height
      && (vote.target_height == target_height
          && (elim (get_shard v vote.public_key) [
            | ok s ↦ s == shard
            | err _ ↦ false
            | panic ↦ false
          ]
              && (check_dynasty v vote.public_key b.current_block && vote_valid b vote)))

unfoldable pub mem_bytes : Bytes → List Bytes → Bool
mem_bytes k [] = false
mem_bytes k (j ∷ js) = k == j || mem_bytes k js

-- `delete(mapVote, user)` for every user of the first list.
unfoldable pub without : List Bytes → List Bytes → List Bytes
unfolding mem_bytes
without users [] = []
without users (k ∷ ks) = if mem_bytes k users then without users ks else k ∷ without users ks

-- `mapVote` and `userToRemove`: the keys that have voted, and those that have voted again.
unfoldable pub tally :
    (CasperVote → Bool) → List Bytes → List Bytes → List CasperVote → List Bytes × List Bytes
unfolding mem_bytes
tally accepts voters again [] = (voters, again)
tally accepts voters again (vote ∷ votes) =
    if accepts vote
    then if mem_bytes vote.public_key voters
      then tally accepts voters (again ++ vote.public_key ∷ []) votes
      else tally accepts (vote.public_key ∷ voters) again votes
    else tally accepts voters again votes

module _ (x : External) where
  -- `CheckpointAgreement`: the votes that are kept, the chain, and the result. The two float64
  -- values are whole numbers, the second one after an integer division.
  unfoldable pub checkpoint_agreement :
      ValidatorsBook
      → Blockchain
      → List CasperVote
      → ℕ
      → ℕ
      → ℕ
      → List CasperVote × Blockchain × Bool
  unfolding counts tally
  checkpoint_agreement v b received_votes source_height target_height shard =
      let (voters, again) =
        tally (counts x v b source_height target_height shard) [] [] received_votes in
      if ltb (2 * len_validators v shard / 3) (length (without again voters))
      then ([], record b { current_checkpoint = target_height }, true)
      else (received_votes, b, false)

  -- `AddVote`: a vote of a validator is appended and written under the number of the current vote.
  unfoldable pub add_vote :
      ValidatorsBook
      → Blockchain
      → List CasperVote
      → CasperVote
      → List CasperVote × Blockchain × Outcome (Unit {0})
  add_vote v b received_votes vote =
      if not (check_is_validator v vote.public_key)
      then (received_votes, b, ok tt)
      else if not (x.vote.encodes vote)
      then (received_votes ++ vote ∷ [], b, err Error.codec)
      else elim (x.put b.casper_votes_db (decimal b.current_vote) (x.vote.encode vote)) [
        | none ↦ (received_votes ++ vote ∷ [], b, err Error.database)
        | some db ↦ (received_votes ++ vote ∷ [], record b { casper_votes_db = db }, ok tt)
      ]

  -- `GetCasperVote`
  unfoldable pub get_casper_vote : Blockchain → ℕ → Outcome CasperVote
  get_casper_vote b index = do
    old_vote ← or_fail (b.casper_votes_db (decimal index)) Error.database
    ok (x.vote.decode old_vote)
