-- ===== src/Casper/Votes.antt =====
-- networking/casper.go, `CreateVote`.
use dexmd.Proto.{CasperVote}
use dexmd.Wallet.{Wallet, get_wallet}
use dexmd.External.{External}
use dexmd.Text.{decimal, text}
use dexmd.Base.{
  fatal, Outcome-cases, ℕ, ◌≡◌, inl, inr, [], ◌∷◌, ◌++◌, arith, Bytes, bytes_eq, nat_eq,
  Option-cases, Outcome, ok, err, panic, ◌>>=◌, or_panic,
}

-- `fmt.Sprintf("%v", b)` for bytes: the decimal numbers between brackets.
unfoldable pub format_items : Bytes → Bytes
unfolding decimal
format_items [] = []
format_items (b ∷ []) = decimal b
format_items (b ∷ c ∷ bs) = decimal b ++ (text " " ++ format_items (c ∷ bs))

unfoldable pub format_bytes : Bytes → Bytes
unfolding format_items
format_bytes bs = text "[" ++ (format_items bs ++ text "]")

module _ (x : External) where
  -- What is hashed: the height of the source stands twice, and that of the target not at all.
  unfoldable pub vote_data : Bytes → Bytes → ℕ → ℕ → Bytes → Bytes
  unfolding format_bytes decimal
  vote_data s_vote t_vote hs_vote ht_vote wal =
      format_bytes s_vote ++ (format_bytes t_vote ++ (decimal hs_vote ++ (decimal hs_vote ++ wal)))

  unfoldable pub create_vote : Bytes → Bytes → ℕ → ℕ → Wallet → Outcome CasperVote
  unfolding vote_data get_wallet
  create_vote s_vote t_vote hs_vote ht_vote w = elim (get_wallet x w) [
    | err _ ↦ err fatal
    | panic ↦ panic
    | ok wal ↦ do
      (r, s) ←
          or_panic
            (x.ecdsa_sign w.priv_key (x.sha256 (vote_data s_vote t_vote hs_vote ht_vote wal)))
      ok (record {
        source = s_vote;
        target = t_vote;
        source_height = hs_vote;
        target_height = ht_vote;
        r = r;
        s = s;
        public_key = wal;
      })
  ]

  -- The signature of a vote holds for any height of the target.
  create_vote_any_height :
      (s_vote t_vote : Bytes) (hs_vote ht_vote other : ℕ) (w : Wallet) (vote : CasperVote)
      → create_vote s_vote t_vote hs_vote ht_vote w ≡ ok vote
      → create_vote s_vote t_vote hs_vote other w ≡ ok (record vote { target_height = other })
  unfolding create_vote vote_data
  create_vote_any_height s_vote t_vote hs_vote ht_vote other w vote h =
      elim (Outcome-cases (get_wallet x w)) [
        | inr bad ↦ absurd (ground arith)
        | inl (wal, named) ↦
            elim (Option-cases
              (x.ecdsa_sign w.priv_key (x.sha256 (vote_data s_vote t_vote hs_vote ht_vote wal)))) [
                | inl unsigned ↦ absurd (ground arith)
                | inr ((r, s), signed) ↦ ground (arith, named, signed)
              ]
      ]
