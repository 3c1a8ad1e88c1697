-- ===== src/Network/Sync/Endless.antt =====
-- networking/import.go, `UpdateChain`: what becomes of a download.
use dexmd.Network.Sync.{
  remove_interest, drop_clients, leave_shard, download_end, Reply, parse_uint, get_network_index,
  chain_of, Blockchain, Node, put_u64, Progress, catch_up, download, poll, poll_all, update_chain,
  Feed,
}
use dexmd.Contracts.{Machine}
use dexmd.External.{External}
use dexmd.Base.{
  Outcome-cases, keys, ℕ, zero, suc, ◌+◌, ◌-◌, ◌≤◌, ◌≡◌, ◌⊎◌, inl, inr, refl, ap, List, [], ◌∷◌,
  ◌++◌, true, arith, Bytes, bytes_eq, nat_eq, ltb, leb, Bool-cases, Option-cases, Outcome, ok, err,
  panic, Error, erase,
}
use dexmd.Network.Sync.{unsent, timed_out, answered}
use dexmd.Base.Int.{◌<ℤ◌, pos, to_u64, ltb_ℤ}

Reply-cases : (r : Reply) → (r ≡ unsent) ⊎ ((r ≡ timed_out) ⊎ ((raw : Bytes) × (r ≡ answered raw)))
Reply-cases unsent = inl refl
Reply-cases timed_out = inr (inl refl)
Reply-cases (answered raw) = inr (inr (raw, refl))

module _ (x : External) (m : Machine) (shard : ℕ) (feed : Feed) where
  -- No block can be asked for.
  download_stops :
      (round client n i : ℕ) (p : Progress)
      → (download x m shard feed round client n i p ≡ panic)
        ⊎ (download x m shard feed round client n i p ≡ ok p)
  unfolding download put_u64
  download_stops round client zero i (cs, dropped) = inr refl
  download_stops round client (suc n) i (cs, dropped) = inl refl

  -- The node that a pass leaves, if it leaves one, is the node that it began with.
  abbrev KeepsNode : Progress → Outcome Progress → Type 0
  KeepsNode p r = (r ≡ panic) ⊎ ((dropped : List ℕ) × (r ≡ ok (p.0, dropped)))

  poll-KeepsNode :
      (round client : ℕ) (cs : Node) (dropped : List ℕ) (bc : Blockchain)
      → chain_of cs shard ≡ ok bc
      → KeepsNode (cs, dropped) (poll x m shard feed round client (cs, dropped))
  unfolding poll
  poll-KeepsNode round client cs dropped bc there =
      elim (Reply-cases (feed.length_reply round client)) [
        | inl e ↦ rw (e, poll) (inr (dropped, refl))
        | inr (inl e) ↦ rw (e, poll) (inr (dropped ++ client ∷ [], refl))
        | inr (inr (raw, e)) ↦ elim (Option-cases (parse_uint raw)) [
          | inl bad ↦ rw (e, poll, bad) (inr (dropped, refl))
          | inr (flen, read) ↦ elim (Bool-cases (ltb flen bc.current_block)) [
            | inl short ↦ rw (e, poll, read, there, short) (inr (dropped, refl))
            | inr long ↦
                let n = download_end bc.current_block flen - bc.current_block in
                elim (download_stops round client n bc.current_block (cs, dropped)) [
                  | inl stops ↦ rw (e, poll, read, there, long) (inl stops)
                  | inr keeps ↦ rw (e, poll, read, there, long) (inr (dropped, keeps))
                ]
          ]
        ]
      ]

  poll_all-KeepsNode :
      (round : ℕ) (clients : List ℕ) (cs : Node) (dropped : List ℕ) (bc : Blockchain)
      → chain_of cs shard ≡ ok bc
      → KeepsNode (cs, dropped) (poll_all x m shard feed round clients (cs, dropped))
  unfolding poll_all
  poll_all-KeepsNode round [] cs dropped bc there = inr (dropped, refl)
  poll_all-KeepsNode round (client ∷ clients) cs dropped bc there =
      elim (poll-KeepsNode round client cs dropped bc there) [
        | inl e ↦ rw e (inl refl)
        | inr (dropped', e) ↦ rw e (poll_all-KeepsNode round clients cs dropped' bc there)
      ]

  catch_up-Endless :
      (fuel round : ℕ) (cs : Node) (dropped : List ℕ) (bc : Blockchain)
      → chain_of cs shard ≡ ok bc
      → ((r : ℕ) → bc.current_block ≤ to_u64 (get_network_index bc (feed.now r)))
      → (catch_up x m shard feed fuel round (cs, dropped) ≡ panic)
        ⊎ (catch_up x m shard feed fuel round (cs, dropped) ≡ err Error.unfinished)
  unfolding catch_up
  catch_up-Endless zero round cs dropped bc there behind = inr refl
  catch_up-Endless (suc fuel) round cs dropped bc there behind =
      let test : leb bc.current_block (to_u64 (get_network_index bc (feed.now (round + 1))))
          ≡ true =
        ground (arith, behind (round + 1)) in
      elim (poll_all-KeepsNode round (keys cs.clients) cs dropped bc there) [
        | inl e ↦ rw (there, test, e) (inl refl)
        | inr (dropped', e) ↦
            rw (there, test, e) (catch_up-Endless fuel (round + 1) cs dropped' bc there behind)
      ]

  -- Once the network has begun, for a chain whose block number is never above the index of the network:
  -- `UpdateChain` does not return, whatever the peers answer. With any fuel it either has panicked or
  -- is still in its loop.
  pub update_chain-Endless :
      (fuel : ℕ) (old_shard : Bytes) (cs : Node) (bc : Blockchain)
      → chain_of cs shard ≡ ok bc
      → pos 0 <ℤ get_network_index bc (feed.now 0)
      → ((r : ℕ) → bc.current_block ≤ to_u64 (get_network_index bc (feed.now r)))
      → ((update_chain x m shard feed fuel old_shard cs).1 ≡ panic)
        ⊎ ((update_chain x m shard feed fuel old_shard cs).1 ≡ err Error.unfinished)
  unfolding update_chain
  update_chain-Endless fuel old_shard cs bc there begun behind =
      let start : ltb_ℤ (pos 0) (get_network_index bc (feed.now 0)) ≡ true = ground arith in
      elim (catch_up-Endless fuel 0 cs [] bc there behind) [
        | inl e ↦ rw (there, update_chain, start, e) (inl refl)
        | inr e ↦ rw (there, update_chain, start, e) (inr refl)
      ]

  catch_up-keeps :
      (fuel round : ℕ) (cs : Node) (dropped : List ℕ) (bc : Blockchain) (p : Progress)
      → chain_of cs shard ≡ ok bc
      → catch_up x m shard feed fuel round (cs, dropped) ≡ ok p
      → p.0 ≡ cs
  unfolding catch_up
  catch_up-keeps zero round cs dropped bc p there h = cc
  catch_up-keeps (suc fuel) round cs dropped bc p there h =
      let limit = to_u64 (get_network_index bc (feed.now (round + 1))) in
      elim (Bool-cases (leb bc.current_block limit)) [
        | inr done ↦ ground arith
        | inl more ↦ elim (poll_all-KeepsNode round (keys cs.clients) cs dropped bc there) [
          | inl e ↦ absurd (ground arith)
          | inr (dropped', e) ↦
              catch_up-keeps fuel (round + 1) cs dropped' bc p there (ground arith)
        ]
      ]

  drop_clients-keeps :
      (cs : Node) (dropped : List ℕ)
      → (drop_clients x m shard feed (cs, dropped)).shards_chain ≡ cs.shards_chain
  unfolding drop_clients
  drop_clients-keeps cs [] = refl
  drop_clients-keeps cs (c ∷ dropped) =
      drop_clients-keeps (record cs { clients = erase c cs.clients }) dropped

  -- Whenever it does return, the chains are as they were.
  pub update_chain-keeps :
      (fuel : ℕ) (old_shard : Bytes) (cs : Node) (u : Unit {0})
      → (update_chain x m shard feed fuel old_shard cs).1 ≡ ok u
      → (update_chain x m shard feed fuel old_shard cs).0.shards_chain ≡ cs.shards_chain
  unfolding update_chain leave_shard remove_interest
  update_chain-keeps fuel old_shard cs u h = elim (Outcome-cases (chain_of cs shard)) [
    | inr bad ↦ absurd (ground arith)
    | inl (bc, there) ↦ elim (Bool-cases (ltb_ℤ (pos 0) (get_network_index bc (feed.now 0)))) [
      | inr early ↦ rw (there, update_chain, early) refl
      | inl begun ↦ elim (Outcome-cases (catch_up x m shard feed fuel 0 (cs, []))) [
        | inr bad ↦ absurd (ground arith)
        | inl (p, e) ↦
            let same =
              ap (λ (c : Node). c.shards_chain) (catch_up-keeps fuel 0 cs [] bc p there e) in
            ground (arith, same, drop_clients-keeps p.0 p.1)
      ]
    ]
  ]
