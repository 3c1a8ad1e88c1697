-- ===== src/Schnorr/Laws.antt =====
-- wallet/schnorr.go: a signature that all the signers made together verifies.
use dexmd.Base.{
  ◌≡◌, refl, sym, ap, ◌∙◌, List, [], ◌∷◌, ◌++◌, map, true, Bytes, bytes_eq, nat_eq, ok,
}
use dexmd.External.{Curve, IsCurve}
use mathlib.Core.List.{map-append}
use mathlib.Core.Path.{ap₂}
use dexmd.Schnorr.{
  sum_points, sum_scalars, challenge, sign, verify, create_signature, verify_signature,
}

module _ {S P : Type 0} (c : Curve S P) (laws : IsCurve c) where
  -- Adding a point to the start of a sum adds it to the sum.
  sum_points-point_add :
      (p q : P) (ps : List P)
      → sum_points c (c.point_add p q) ps ≡ c.point_add p (sum_points c q ps)
  unfolding sum_points
  sum_points-point_add p q [] = refl
  sum_points-point_add p q (r ∷ ps) =
      ap (λ s. sum_points c s ps) (laws.point_add_assoc p q r)
      ∙ sum_points-point_add p (c.point_add q r) ps

  -- A sum may begin with any of its points.
  sum_points-middle :
      (p q : P) (before after : List P)
      → sum_points c p (before ++ q ∷ after) ≡ sum_points c q (p ∷ before ++ after)
  unfolding sum_points
  sum_points-middle p q [] after = ap (λ s. sum_points c s after) (laws.point_add_comm p q)
  sum_points-middle p q (b ∷ before) after =
      sum_points-middle (c.point_add p b) q before after
      ∙ ap (λ s. sum_points c s (before ++ after)) (sym (laws.point_add_assoc q p b))

  -- A signer: the private key and the random scalar of the round.
  abbrev pub Signer : Type 0
  Signer = S × S

  unfoldable pub keys_of : List Signer → List P
  keys_of signers = map (λ s. c.point_mul s.0 c.base) signers

  unfoldable pub commitments_of : List Signer → List P
  commitments_of signers = map (λ s. c.point_mul s.1 c.base) signers

  -- Every signer signs with the points of all the others.
  unfoldable pub sign_all : Bytes → List Signer → List Signer → List S
  unfolding sign keys_of commitments_of
  sign_all m before [] = []
  sign_all m before (s ∷ after) =
      sign c m s.0 (commitments_of (before ++ after)) (keys_of (before ++ after)) s.1
      ∷ sign_all m (before ++ s ∷ []) after

  snoc-append :
      (before : List Signer) (s : Signer) (after : List Signer)
      → (before ++ s ∷ []) ++ after ≡ before ++ s ∷ after
  snoc-append [] s after = refl
  snoc-append (b ∷ before) s after = ap (λ l. b ∷ l) (snoc-append before s after)

  total : (Signer → P) → List Signer → P
  total point [] = c.base
  total point (s ∷ rest) = sum_points c (point s) (map point rest)

  total-middle :
      (point : Signer → P) (s : Signer) (before after : List Signer)
      → sum_points c (point s) (map point (before ++ after)) ≡ total point (before ++ s ∷ after)
  unfolding total
  total-middle point s [] after = refl
  total-middle point s (b ∷ before) after =
      rw (map-append point before after, map-append point before (s ∷ after))
        (sym (sum_points-middle (point b) (point s) (map point before) (map point after)))

  share : S → Signer → S
  share e s = c.scalar_sub s.1 (c.scalar_mul e s.0)

  joint : Bytes → List Signer → S
  joint m signers =
      challenge c m (total (λ s. c.point_mul s.0 c.base) signers)
        (total (λ s. c.point_mul s.1 c.base) signers)

  sign-share :
      (m : Bytes) (before : List Signer) (s : Signer) (after : List Signer)
      → sign c m s.0 (commitments_of (before ++ after)) (keys_of (before ++ after)) s.1
        ≡ share (joint m (before ++ s ∷ after)) s
  unfolding sign keys_of commitments_of joint share
  sign-share m before s after =
      ap₂ (λ p r. share (challenge c m p r) s)
        (total-middle (λ u. c.point_mul u.0 c.base) s before after)
        (total-middle (λ u. c.point_mul u.1 c.base) s before after)

  -- The signers agree on the challenge.
  sign_all-share :
      (m : Bytes) (before after : List Signer)
      → sign_all m before after ≡ map (share (joint m (before ++ after))) after
  unfolding sign_all share joint
  sign_all-share m before [] = refl
  sign_all-share m before (s ∷ after) =
      ap₂ (λ a (l : List S). a ∷ l) (sign-share m before s after)
        (sign_all-share m (before ++ s ∷ []) after
          ∙ ap (λ l. map (share (joint m l)) after) (snoc-append before s after))

  interchange :
      (p q r s : P)
      → c.point_add (c.point_add p q) (c.point_add r s)
        ≡ c.point_add (c.point_add p r) (c.point_add q s)
  interchange p q r s =
      laws.point_add_assoc p q (c.point_add r s)
      ∙ (ap (c.point_add p) (
            sym (laws.point_add_assoc q r s)
            ∙ (ap (λ t. c.point_add t s) (laws.point_add_comm q r) ∙ laws.point_add_assoc r q s))
          ∙ sym (laws.point_add_assoc p r (c.point_add q s)))

  share-point :
      (e : S) (s : Signer)
      → c.point_add (c.point_mul (share e s) c.base) (c.point_mul e (c.point_mul s.0 c.base))
        ≡ c.point_mul s.1 c.base
  unfolding share
  share-point e s =
      ap (c.point_add (c.point_mul (share e s) c.base)) (sym (laws.mul-scalar_mul e s.0 c.base))
      ∙ laws.mul-scalar_sub s.1 (c.scalar_mul e s.0) c.base

  shares-sum :
      (e a : S) (p r : P) (signers : List Signer)
      → c.point_add (c.point_mul a c.base) (c.point_mul e p) ≡ r
      → c.point_add
          (c.point_mul (sum_scalars c a (map (share e) signers)) c.base)
          (c.point_mul e (sum_points c p (keys_of signers)))
        ≡ sum_points c r (commitments_of signers)
  unfolding sum_scalars sum_points keys_of commitments_of
  shares-sum e a p r [] h = h
  shares-sum e a p r (s ∷ signers) h =
      shares-sum e (c.scalar_add a (share e s)) (c.point_add p (c.point_mul s.0 c.base))
        (c.point_add r (c.point_mul s.1 c.base)) signers
        (ap₂ c.point_add (laws.mul-scalar_add a (share e s) c.base)
            (laws.mul-point_add e p (c.point_mul s.0 c.base))
          ∙ (interchange (c.point_mul a c.base) (c.point_mul (share e s) c.base) (c.point_mul e p)
                (c.point_mul e (c.point_mul s.0 c.base))
              ∙ ap₂ c.point_add h (share-point e s)))

  -- On a commutative group on which the scalars act: if every one of some signers signs a message with the commitments and the public keys of all the
  -- others, then the signature that `CreateSignature` makes of their shares passes `VerifySignature`
  -- against their public keys and commitments.
  pub verify_signature-create_signature :
      (m : Bytes) (s : Signer) (signers : List Signer)
      → (r : P) × (total_share : S) × (create_signature c
            (commitments_of (s ∷ signers))
            (sign_all m [] (s ∷ signers))
          ≡ ok (r, total_share))
        × (verify_signature c m r total_share (keys_of (s ∷ signers)) (commitments_of (s ∷ signers))
            ≡ ok true)
  unfolding verify_signature create_signature verify keys_of commitments_of joint total
  verify_signature-create_signature m s signers =
      let e = joint m (s ∷ signers) in
      (
        sum_points c (c.point_mul s.1 c.base) (commitments_of signers),
        sum_scalars c (share e s) (map (share e) signers),
        rw (sign_all-share m [] (s ∷ signers)) refl,
        ap ok (
            ap (c.point_eq (sum_points c (c.point_mul s.1 c.base) (commitments_of signers))) (
              shares-sum e (share e s) (c.point_mul s.0 c.base) (c.point_mul s.1 c.base) signers
                (share-point e s))
            ∙ laws.point_eq_refl (sum_points c (c.point_mul s.1 c.base) (commitments_of signers))),
      )
