-- ===== src/Network/Rounds/Proving.antt =====
-- networking/server.go, `ValidatorLoop`: the goroutine that sends the Merkle proofs of a window of
-- blocks, ten seconds after their roots have been signed. The chain has moved on by then.
use dexmd.Network.Rounds.{send, Turn}
use dexmd.Network.{chain_of}
use dexmd.Chain.{get_block, Blockchain}
use dexmd.Proofs.{generate_merkle_proof}
use dexmd.Proto.{merkle_proof, Receipt, Transaction}
use dexmd.Wallet.{bytes_to_address, Wallet}
use dexmd.Contracts.{Machine}
use dexmd.External.{External}
use dexmd.Base.{
  ℕ, zero, suc, ◌+◌, ◌-◌, ◌%◌, ◌^◌, List, [], ◌∷◌, map, not, Bytes, bytes_eq, nat_eq, ◌==◌,
  if◌then◌else◌, length, Outcome, ok, err, panic, ◌>>=◌,
}

module _ (x : External) (m : Machine) (w : Wallet) (wal : Bytes) (shard : ℕ) where
  -- The receipts of the transactions of a block that come from this shard, with the transactions.
  unfoldable pub own_receipts : List Transaction → Outcome (List (Receipt × Transaction))
  own_receipts [] = ok []
  own_receipts (t ∷ ts) =
      let rest = own_receipts ts in
      if not (t.shard == shard) then rest else do
        sender ← bytes_to_address x t.sender t.shard
        let r : Receipt = record {
          sender = sender;
          recipient = t.recipient;
          amount = t.amount;
          nonce = t.nonce;
        }
        own ← rest
        ok ((r, t) ∷ own)

  -- The loop over the receipts, from an index on. A proof that is empty is passed over.
  unfoldable pub send_each : List Receipt → ℕ → List (Receipt × Transaction) → Turn → Outcome Turn
  unfolding generate_merkle_proof
  send_each receipts i [] t = ok t
  send_each receipts i ((_, tx) ∷ rest) t = do
    proof ← generate_merkle_proof x receipts i tx
    t' ← if length proof == 0 then ok t else send x m w wal shard t proof merkle_proof 0
    send_each receipts (i + 1) rest t'

  -- The loop over the blocks from an index downwards; one that is not there is passed over.
  unfoldable pub prove_down : Blockchain → ℕ → ℕ → Turn → Outcome Turn
  unfolding own_receipts send_each
  prove_down bc zero i t = ok t
  prove_down bc (suc n) i t = do
    own ← elim (get_block x bc i) [
      | ok raw ↦ own_receipts (x.block.decode raw).transactions
      | err _ ↦ ok []
      | panic ↦ panic
    ]
    t' ← send_each (map (λ (p : Receipt × Transaction). p.0) own) 0 own t
    prove_down bc n ((i + 2 ^ 64 - 1) % 2 ^ 64) t'

  unfoldable pub send_proofs : Turn → Outcome Turn
  unfolding chain_of prove_down
  send_proofs t = do
    bc ← chain_of t.node shard
    prove_down bc 30 ((bc.current_block + 2 ^ 64 - 7) % 2 ^ 64) t
