-- ===== src/Casper/Ancestry.antt =====
-- networking/casper.go, `IsVoteValid`: what its backward search finds, and that it ends.
use dexmd.Base.{ℕ, ◌≡◌, ◌≢◌, Bytes, bytes_eq, nat_eq, length}
use dexmd.External.{External}
use dexmd.Chain.{Blockchain}
use dexmd.Casper.{block_bytes}

module _ (x : External) (b : Blockchain) where
  -- A hash leads to another one along the previous hashes of the blocks of the chain.
  pub data Leads (source_hash : Bytes) : Bytes → Type 0 where
    here : (i : ℕ) → x.sha256 (block_bytes x b i) ≡ source_hash → Leads source_hash source_hash
    back :
        (i : ℕ) (hash : Bytes)
        → x.sha256 (block_bytes x b i) ≡ hash
        → Leads source_hash (x.block.decode (block_bytes x b i)).prev_hash
        → Leads source_hash hash

  -- A block after the first one has the hash of another before it.
  abbrev pub HasPrevious : ℕ → Type 0
  HasPrevious i = length (x.block.decode (block_bytes x b i)).prev_hash ≢ 0
