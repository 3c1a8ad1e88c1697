-- ===== src/Network/Rounds/Joint.antt =====
-- networking/server.go and networking/broadcast.go: the joint signature of the Merkle roots, from the
-- shares that have arrived to the check of the message at the other nodes.
use dexmd.Chain.{Blockchain}
use dexmd.Proto.{MerkleRootsSigned}
use dexmd.Network.Rounds.Signing.{signed_roots, read_shares}
use dexmd.Wallet.{Wallet}
use dexmd.Contracts.{Machine}
use dexmd.Network.Broadcasts.{verify_roots, parse_points}
use dexmd.Schnorr.{verify_signature, sign, sum_points, sum_scalars}
use std.Path.{subst}
use dexmd.Schnorr.{create_signature, sign}
use dexmd.Base.{
  ℕ, zero, suc, ◌≡◌, refl, List, [], ◌∷◌, ◌++◌, some, true, false, ◌||◌, arith, Bytes, bytes_eq,
  nat_eq, ◌==◌, length, replicate, ok,
}
use dexmd.Schnorr.Laws.{keys_of, commitments_of, sign_all, verify_signature-create_signature}
use dexmd.External.{IsCurve, External}

-- The encodings that the curve's operations make can be read back.
pub record Canonical (x : External) : Type 0 where
  pub mul_read :
      (a p : Bytes) → x.parse_point (x.curve.point_mul a p) ≡ some (x.curve.point_mul a p)
  pub add_read :
      (p q : Bytes) → x.parse_point (x.curve.point_add p q) ≡ some (x.curve.point_add p q)
  pub sub_read :
      (a b : Bytes) → x.parse_scalar (x.curve.scalar_sub a b) ≡ some (x.curve.scalar_sub a b)
  pub sum_read :
      (a b : Bytes) → x.parse_scalar (x.curve.scalar_add a b) ≡ some (x.curve.scalar_add a b)

module _ (x : External) (canon : Canonical x) (laws : IsCurve x.curve) where
  sum_points-read :
      (p : Bytes) (qs : List Bytes)
      → x.parse_point p ≡ some p
      → x.parse_point (sum_points x.curve p qs) ≡ some (sum_points x.curve p qs)
  unfolding sum_points
  sum_points-read p [] h = h
  sum_points-read p (q ∷ qs) h = sum_points-read (x.curve.point_add p q) qs (canon.add_read p q)

  sum_scalars-read :
      (a : Bytes) (bs : List Bytes)
      → x.parse_scalar a ≡ some a
      → x.parse_scalar (sum_scalars x.curve a bs) ≡ some (sum_scalars x.curve a bs)
  unfolding sum_scalars
  sum_scalars-read a [] h = h
  sum_scalars-read a (b ∷ bs) h = sum_scalars-read (x.curve.scalar_add a b) bs (canon.sum_read a b)

  parse_points-signers :
      (signers : List (Bytes × Bytes))
      → parse_points x (commitments_of x.curve laws signers) (keys_of x.curve laws signers)
        ≡ ok (commitments_of x.curve laws signers, keys_of x.curve laws signers)
  unfolding parse_points commitments_of keys_of
  parse_points-signers [] = refl
  parse_points-signers (s ∷ signers) =
      rw
        (
          canon.mul_read s.1 x.curve.base,
          canon.mul_read s.0 x.curve.base,
          parse_points-signers signers,
        )
        refl

  module _ (m : Machine) (w : Wallet) (wal : Bytes) (shard : ℕ) where
    read_shares-signers :
        (message : Bytes) (before signers : List (Bytes × Bytes))
        → read_shares x m w wal shard
            (commitments_of x.curve laws signers)
            (keys_of x.curve laws signers)
            (sign_all x.curve laws message before signers)
          ≡ ok (
            commitments_of x.curve laws signers,
            keys_of x.curve laws signers,
            sign_all x.curve laws message before signers,
          )
    unfolding read_shares commitments_of keys_of sign_all sign
    read_shares-signers message before [] = refl
    read_shares-signers message before (s ∷ signers) =
        rw
          (
            canon.mul_read s.1 x.curve.base,
            canon.mul_read s.0 x.curve.base,
            canon.sub_read _ _,
            read_shares-signers message (before ++ s ∷ []) signers,
          )
          refl

    -- The message is checked once for each copy of it.
    verify_roots-copies :
        (mr : MerkleRootsSigned) (message r s : Bytes) (rs ps : List Bytes) (n : ℕ)
        → x.parse_point mr.r_signed ≡ some r
        → x.parse_scalar mr.s_signed ≡ some s
        → verify_signature x.curve message r s ps rs ≡ ok true
        → verify_roots x mr rs ps (replicate n message) ≡ ok n
    unfolding verify_roots
    verify_roots-copies mr message r s rs ps zero hr hs h = refl
    verify_roots-copies mr message r s rs ps (suc n) hr hs h =
        rw (hr, hs, h, verify_roots-copies mr message r s rs ps n hr hs h) refl

    some_shares :
        (message : Bytes) (s : Bytes × Bytes) (signers : List (Bytes × Bytes))
        → (length (commitments_of x.curve laws (s ∷ signers)) == 0
            || length (sign_all x.curve laws message [] (s ∷ signers)) == 0)
          ≡ false
    unfolding commitments_of sign_all
    some_shares message s signers = ground arith

    created_read :
        (message : Bytes) (s : Bytes × Bytes) (signers : List (Bytes × Bytes)) (r total : Bytes)
        → create_signature x.curve
            (commitments_of x.curve laws (s ∷ signers))
            (sign_all x.curve laws message [] (s ∷ signers))
          ≡ ok (r, total)
        → (x.parse_point r ≡ some r) × (x.parse_scalar total ≡ some total)
    unfolding create_signature commitments_of sign_all sign
    created_read message s signers r total created =
        let first = x.curve.point_mul s.1 x.curve.base in
        let r_is : sum_points x.curve first (commitments_of x.curve laws signers) ≡ r = cc in
        let share_of =
          sign x.curve message s.0 (commitments_of x.curve laws signers)
            (keys_of x.curve laws signers) s.1 in
        let total_is : sum_scalars x.curve share_of (sign_all x.curve laws message (s ∷ []) signers)
            ≡ total =
          cc in
        (
          subst (λ p. x.parse_point p ≡ some p) r_is
              (sum_points-read first (commitments_of x.curve laws signers)
                (canon.mul_read s.1 x.curve.base)),
          subst (λ p. x.parse_scalar p ≡ some p) total_is
              (sum_scalars-read share_of (sign_all x.curve laws message (s ∷ []) signers)
                (canon.sub_read _ _)),
        )

    -- On a commutative group on which the scalars act, whose elements can be read back from their
    -- encodings: if the shares of some signers have arrived, each made of the same message with the
    -- points of all the others, then the message that `ValidatorLoop` makes of them passes the checks of
    -- `handleBroadcast`: its points can be read, and the signature verifies for each of the messages.
    pub signed_roots-verifies :
        (bc : Blockchain) (message : Bytes) (s : Bytes × Bytes) (signers : List (Bytes × Bytes))
        → bc.r_schnorr ≡ commitments_of x.curve laws (s ∷ signers)
        → bc.p_schnorr ≡ keys_of x.curve laws (s ∷ signers)
        → bc.mt_receipt ≡ sign_all x.curve laws message [] (s ∷ signers)
        → bc.messages_receipt ≡ replicate (length (s ∷ signers)) message
        → (mr : MerkleRootsSigned) × (signed_roots x m w wal shard bc ≡ ok (some mr))
          × (parse_points x mr.r_validators mr.p_validators ≡ ok (mr.r_validators, mr.p_validators))
          × (verify_roots x mr mr.r_validators mr.p_validators mr.merkle_roots_receipt
              ≡ ok (length (s ∷ signers)))
    unfolding signed_roots
    signed_roots-verifies bc message s signers hr hp hm hmessages =
        let (r, total, created, verified) =
          verify_signature-create_signature x.curve laws message s signers in
        let all = s ∷ signers in
        let (r_read, s_read) = created_read message s signers r total created in
        let mr : MerkleRootsSigned = record {
          shard = shard;
          merkle_roots_receipt = replicate (length all) message;
          r_signed = r;
          s_signed = total;
          r_validators = commitments_of x.curve laws all;
          p_validators = keys_of x.curve laws all;
        } in
        (
          mr,
          rw
              (
                signed_roots,
                hr,
                hp,
                hm,
                hmessages,
                read_shares-signers message [] all,
                some_shares message s signers,
                created,
              )
              refl,
          parse_points-signers all,
          verify_roots-copies mr message r total (commitments_of x.curve laws all)
              (keys_of x.curve laws all) (length all) r_read s_read verified,
        )
