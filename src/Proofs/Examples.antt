-- ===== src/Proofs/Examples.antt =====
-- The theorems on Merkle proofs, at concrete values.
use dexmd.Import.{state_or_zero}
use dexmd.Chain.{set_state}
use dexmd.Util.{add_u64o}
use dexmd.External.Toy.{read_balance}
use dexmd.Text.{hex}
use dexmd.Chain.{get_wallet_state}
use dexmd.Text.{atoi}
use dexmd.External.Toy.{cut}
use dexmd.Wallet.{base58_encoding}
use dexmd.Wallet.{bytes_to_address}
use dexmd.External.Toy.{lossy}
use dexmd.Base.{bytes_beq}
use dexmd.Base.{ℕ, ◌≡◌, ◌⊎◌, refl, [], ◌∷◌, none, true, false, bytes_eq, nat_eq, ok, Dict, lookup}
use dexmd.Proto.{MerkleProof, Transaction}
use dexmd.External.{External, Db}
use dexmd.External.Toy.{toy, no_receipt}
use dexmd.Text.{text}
use dexmd.Chain.Samples.{chain, payment}
use dexmd.Proofs.{Ledger, verify_proof, check_merkle_proof}
use dexmd.Proofs.Collisions.{Collision, verify_proof-binds}
use dexmd.Proofs.Burning.{run_checks, check_merkle_proof-once}

-- A database of roots with the root of the proof below.
abbrev rooted : External
rooted = record toy {
  values = λ db. [] ∷ [];
  roots = record {
    encode = λ m. [];
    encodes = λ m. true;
    decodes = λ s. true;
    decode = λ s. record {
      shard = 1;
      merkle_roots_receipt = (4 ∷ 0 ∷ 0 ∷ []) ∷ [];
      r_signed = [];
      s_signed = [];
      r_validators = [];
      p_validators = [];
    };
  };
}

abbrev proof : MerkleProof
proof = record {
  map_leaf = text "left" ∷ [];
  map_hash = (4 ∷ []) ∷ [];
  root = 4 ∷ 0 ∷ 0 ∷ [];
  leaf = 0 ∷ 0 ∷ [];
  receipt = no_receipt;
  transaction = payment;
  shard = 1;
}

abbrev roots : Dict ℕ Db
roots = (1, λ k. none) ∷ []

proof_accepted : verify_proof rooted roots proof 1 ≡ ok true
unfolding verify_proof lookup bytes_beq lossy
proof_accepted = refl

verify_proof-binds_example :
    (rooted.receipt.encode no_receipt ≡ rooted.receipt.encode no_receipt) ⊎ Collision rooted
verify_proof-binds_example =
    verify_proof-binds rooted roots proof proof 1 1 refl refl refl proof_accepted proof_accepted

abbrev ledger : Ledger
ledger = record { receipt_burned = []; chains = (2, chain) ∷ []; roots_db = roots }

paid : (check_merkle_proof rooted (text "2" ∷ []) ledger proof).1 ≡ ok true
unfolding check_merkle_proof lookup bytes_beq lossy bytes_to_address base58_encoding cut atoi
    get_wallet_state hex read_balance add_u64o set_state state_or_zero
paid = refl

check_merkle_proof-once_example :
    check_merkle_proof rooted
      (text "2" ∷ [])
      (run_checks rooted
        (text "2" ∷ [])
        (check_merkle_proof rooted (text "2" ∷ []) ledger proof).0
        (proof ∷ []))
      proof
    ≡ (
      run_checks rooted
          (text "2" ∷ [])
          (check_merkle_proof rooted (text "2" ∷ []) ledger proof).0
          (proof ∷ []),
      ok false,
    )
check_merkle_proof-once_example =
    check_merkle_proof-once rooted (text "2" ∷ []) ledger proof proof (proof ∷ []) paid refl

abbrev unrelated : Transaction
unrelated = record payment { amount = 777 }
