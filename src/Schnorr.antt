-- ===== src/Schnorr.antt =====
-- wallet/schnorr.go: Schnorr signatures of several signers. The curve is a parameter.
pub mod Laws
mod Examples
use dexmd.Base.{
  ℕ, zero, suc, ◌+◌, ◌-◌, ◌*◌, ◌/◌, ◌%◌, ◌^◌, ◌≤◌, ◌<◌, ◌≡◌, ◌≢◌, ◌↔◌, ◌⊎◌, inl, inr, refl, sym, ap,
  ◌∙◌, List, [], ◌∷◌, ◌++◌, map, Option, none, some, Bool, true, false, not, ◌&&◌, ◌||◌, arith,
  Bytes, bytes_eq, nat_eq, ◌==◌, if◌then◌else◌, ltb, leb, Bool-cases, Option-cases, length, All,
  replicate, dec_lt, Outcome, ok, err, panic, Error, ◌>>=◌, ◌>>◌, fail_if, or_fail, or_panic, Dict,
  lookup, insert, erase,
}
use dexmd.External.{Curve}

module _ {S P : Type 0} (c : Curve S P) where
  -- `R = curve.Point().Add(R, r)` for each point of a list.
  unfoldable pub sum_points : P → List P → P
  sum_points p [] = p
  sum_points p (q ∷ qs) = sum_points (c.point_add p q) qs

  unfoldable pub sum_scalars : S → List S → S
  sum_scalars a [] = a
  sum_scalars a (b ∷ bs) = sum_scalars (c.scalar_add a b) bs

  -- `Hash(m + P.String() + R.String())`
  unfoldable pub challenge : Bytes → P → P → S
  challenge m p r = c.scalar_hash (m ++ (c.point_string p ++ c.point_string r))

  -- `Sign`
  unfoldable pub sign : Bytes → S → List P → List P → S → S
  unfolding sum_points challenge
  sign m x other_r other_p k =
      let r = sum_points (c.point_mul k c.base) other_r in
      let p = sum_points (c.point_mul x c.base) other_p in
      let e = challenge m p r in c.scalar_sub k (c.scalar_mul e x)

  -- `Verify`; the signature's own point is not looked at.
  unfoldable pub verify : Bytes → P → S → P → P → Bool
  unfolding challenge
  verify m r_signature s_signature p r =
      let e = challenge m p r in
      c.point_eq r (c.point_add (c.point_mul s_signature c.base) (c.point_mul e p))

  -- `CreateSignature`, before its results are encoded; an empty list has no first element.
  unfoldable pub create_signature : List P → List S → Outcome (P × S)
  unfolding sum_points sum_scalars
  create_signature [] ss = panic
  create_signature (r ∷ rs) [] = panic
  create_signature (r ∷ rs) (s ∷ ss) = ok (sum_points r rs, sum_scalars s ss)

  -- `VerifySignature`
  unfoldable pub verify_signature : Bytes → P → S → List P → List P → Outcome Bool
  unfolding sum_points verify
  verify_signature message r_signature s_signature [] all_r = panic
  verify_signature message r_signature s_signature (p ∷ ps) [] = panic
  verify_signature message r_signature s_signature (p ∷ ps) (r ∷ rs) =
      ok (verify message r_signature s_signature (sum_points p ps) (sum_points r rs))
