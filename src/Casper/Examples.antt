-- ===== src/Casper/Examples.antt =====
-- The theorems on votes, at concrete values.
use dexmd.Base.{◌≡◌, List, [], ◌∷◌, true, Bytes, bytes_eq, nat_eq, ◌==◌, if◌then◌else◌}
use dexmd.Proto.{CasperVote}
use dexmd.External.{External}
use dexmd.External.Toy.{toy, no_block}
use dexmd.Chain.Samples.{alice, bob}
use dexmd.Validators.{ValidatorsBook}
use dexmd.Casper.{tally, without}
use dexmd.Casper.Agreement.{votes_of, times, counted-voted_once}

abbrev vote_by : Bytes → CasperVote
vote_by key = record {
  source = [];
  target = [];
  source_height = 1;
  target_height = 2;
  r = [];
  s = [];
  public_key = key;
}

abbrev ballot : List CasperVote
ballot = vote_by alice ∷ vote_by bob ∷ vote_by alice ∷ []

counted-voted_once_example :
    times bob (without (tally (λ v. true) [] [] ballot).1 (tally (λ v. true) [] [] ballot).0)
    ≡ (if votes_of (λ v. true) bob ballot == 1 then 1 else 0)
counted-voted_once_example = counted-voted_once (λ v. true) bob ballot

abbrev nobody : ValidatorsBook
nobody = record { vals_withdraw = []; vals_array = [] }

-- Every block names the hash of the empty string as the one before it, and is stored as `[9]`.
abbrev linked : External
linked = record toy {
  sha256 = λ s. 9 ∷ [];
  block = record {
    encode = λ b. 9 ∷ [];
    encodes = λ b. true;
    decodes = λ s. true;
    decode = λ s. record no_block { prev_hash = 9 ∷ [] };
  };
}
