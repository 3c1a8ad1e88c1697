-- ===== src/Network/Sync.antt =====
-- networking/import.go, `UpdateChain`: the download of the blocks that the peers have.
pub mod Endless
mod Examples
use dexmd.Validation.{validate_block}
use dexmd.Base.{
  Outcome-cases, drop, take, keys, ℕ, zero, suc, ◌+◌, ◌-◌, ◌*◌, ◌/◌, ◌%◌, ◌^◌, ◌≤◌, ◌<◌, ◌≡◌, ◌≢◌,
  ◌↔◌, ◌⊎◌, inl, inr, refl, sym, ap, ◌∙◌, List, [], ◌∷◌, ◌++◌, map, Option, none, some, Bool, true,
  false, not, ◌&&◌, ◌||◌, arith, Bytes, bytes_eq, nat_eq, ◌==◌, if◌then◌else◌, ltb, leb, Bool-cases,
  Option-cases, length, All, replicate, Outcome, ok, err, panic, Error, ◌>>=◌, ◌>>◌, fail_if,
  or_fail, or_panic, Dict, lookup, insert, erase, bytes_beq,
}
use dexmd.Base.Int.{ℤ, pos, negsuc, to_i64, to_u64, ltb_ℤ, wrap_i64, negate, ◌+ℤ◌}
use dexmd.Import.{Step, go, stop, crash}
use dexmd.Chain.{get_network_index}
use dexmd.Import.Loop.{import_block}
use dexmd.Contracts.{Machine}
use dexmd.External.{External}
use dexmd.Network.{remove_interest, Block, mem_bytes, Blockchain, chain_of, set_chain, Node}
use dexmd.Text.{atoi_magnitude}

-- What comes of a request to a peer: it could not be sent, no answer came in time, or an answer.
pub data Reply : Type 0 where
  unsent timed_out : Reply
  answered : Bytes → Reply

-- What the peers, the clock and the files give to a call. A round is a pass over all connections.
pub record Feed : Type 0 where
  pub now : ℕ → ℕ
  pub length_reply : (round client : ℕ) → Reply
  pub block_reply : (round client index : ℕ) → Reply
  pub wallets : List (Bytes × Bytes)
  pub draw : ℕ → ℕ
  pub config : Option (List Bytes)
  pub removes : Bool

-- `binary.LittleEndian.PutUint64` into a buffer of a size; it panics on one of less than 8 bytes.
unfoldable pub little_endian : ℕ → ℕ → Bytes
little_endian zero i = []
little_endian (suc n) i = i % 256 ∷ little_endian n (i / 256)

unfoldable pub put_u64 : ℕ → ℕ → Outcome Bytes
unfolding little_endian
put_u64 size i = if ltb size 8 then panic else ok (little_endian 8 i ++ replicate (size - 8) 0)

-- `strconv.ParseUint(s, 10, 64)`
unfoldable pub parse_uint : Bytes → Option ℕ
unfolding atoi_magnitude
parse_uint = atoi_magnitude (2 ^ 64 - 1)

-- `min(cb+MaxBlockPeer, flen)`
unfoldable pub download_end : ℕ → ℕ → ℕ
download_end cb flen = if ltb ((cb + 200) % 2 ^ 64) flen then (cb + 200) % 2 ^ 64 else flen

-- The connections that did not answer, in `clientToDrop`, beside the node.
abbrev pub Progress : Type 0
Progress = Node × List ℕ

module _ (x : External) (m : Machine) (shard : ℕ) (feed : Feed) where
  -- `ImportBlock` of a block that is valid, its error ignored, and the block number counted up.
  unfoldable pub import_valid : Node → Blockchain → Block → Outcome Node
  unfolding set_chain
  import_valid cs bc b =
      let counted =
        λ (bc' : Blockchain). record bc' { current_block = (bc'.current_block + 1) % 2 ^ 64 } in
      elim (import_block x m feed.wallets feed.draw bc cs.validators b) [
        | go bc' v ↦ ok (record (set_chain cs shard (counted bc')) { validators = v })
        | stop bc' v e ↦ ok (record (set_chain cs shard (counted bc')) { validators = v })
        | crash ↦ panic
      ]

  -- The loop over the blocks from an index on, with the number of blocks that are left. The request
  -- holds the index in a buffer of four bytes.
  unfoldable pub download : ℕ → ℕ → ℕ → ℕ → Progress → Outcome Progress
  unfolding put_u64 chain_of import_valid
  download round client zero i (cs, dropped) = ok (cs, dropped)
  download round client (suc n) i (cs, dropped) = do
    request ← put_u64 4 i
    elim (feed.block_reply round client i) [
      | unsent ↦ ok (cs, dropped)
      | timed_out ↦ ok (cs, dropped ++ client ∷ [])
      | answered raw ↦ if not (x.block.decodes raw) then ok (cs, dropped) else do
        bc ← chain_of cs shard
        elim (validate_block x bc (x.block.decode raw)) [
          | panic ↦ panic
          | err _ ↦ download round client n (i + 1) (cs, dropped)
          | ok false ↦ download round client n (i + 1) (cs, dropped)
          | ok true ↦ do
            cs' ← import_valid cs bc (x.block.decode raw)
            download round client n (i + 1) (cs', dropped)
        ]
    ]

  -- The body of the loop over the connections.
  unfoldable pub poll : ℕ → ℕ → Progress → Outcome Progress
  unfolding download chain_of parse_uint download_end
  poll round client (cs, dropped) = elim (feed.length_reply round client) [
    | unsent ↦ ok (cs, dropped)
    | timed_out ↦ ok (cs, dropped ++ client ∷ [])
    | answered raw ↦ elim (parse_uint raw) [
      | none ↦ ok (cs, dropped)
      | some flen ↦ do
        bc ← chain_of cs shard
        let cb = bc.current_block
        if ltb flen cb
            then ok (cs, dropped)
            else download round client (download_end cb flen - cb) cb (cs, dropped)
    ]
  ]

  unfoldable pub poll_all : ℕ → List ℕ → Progress → Outcome Progress
  unfolding poll
  poll_all round [] p = ok p
  poll_all round (client ∷ clients) p = do p' ← poll round client p; poll_all round clients p'

  -- `for CurrentBlock <= uint64(GetNetworkIndex())`, with fuel for the rounds.
  unfoldable pub catch_up : ℕ → ℕ → Progress → Outcome Progress
  unfolding poll_all chain_of
  catch_up zero round p = err Error.unfinished
  catch_up (suc fuel) round p = do
    bc ← chain_of p.0 shard
    let again : Outcome Progress =
        (poll_all round (keys p.0.clients) p >>= catch_up fuel (round + 1))
    if leb bc.current_block (to_u64 (get_network_index bc (feed.now (round + 1))))
        then again
        else ok p

  -- The connections that did not answer are forgotten.
  unfoldable pub drop_clients : Progress → Node
  drop_clients (cs, []) = cs
  drop_clients (cs, c ∷ dropped) =
      drop_clients (record cs { clients = erase c cs.clients }, dropped)

  -- Leaving a shard whose number is not in the file of interests.
  unfoldable pub leave_shard : Bytes → Node → Node × Outcome (Unit {0})
  leave_shard old_shard cs = elim feed.config [
    | none ↦ (cs, err Error.config)
    | some shard_interest ↦
        if mem_bytes old_shard shard_interest
        then (cs, ok tt)
        else if feed.removes
        then (remove_interest cs old_shard, ok tt)
        else (remove_interest cs old_shard, err Error.config)
  ]

  -- `UpdateChain`: it stops at once before the first block of the network.
  unfoldable pub update_chain : ℕ → Bytes → Node → Node × Outcome (Unit {0})
  unfolding catch_up drop_clients leave_shard chain_of
  update_chain fuel old_shard cs = elim (chain_of cs shard) [
    | err e ↦ (cs, err e)
    | panic ↦ (cs, panic)
    | ok bc ↦
        if ltb_ℤ (pos 0) (get_network_index bc (feed.now 0))
        then elim (catch_up fuel 0 (cs, [])) [
          | err e ↦ (cs, err e)
          | panic ↦ (cs, panic)
          | ok p ↦
              if length old_shard == 0
              then (drop_clients p, ok tt)
              else leave_shard old_shard (drop_clients p)
        ]
        else (cs, ok tt)
  ]
