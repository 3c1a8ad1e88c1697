-- ===== src/Schnorr/Examples.antt =====
-- Schnorr signatures over the field with two elements.
use dexmd.Base.{
  ◌≡◌, refl, [], ◌∷◌, Bool, true, false, not, ◌&&◌, bytes_eq, nat_eq, if◌then◌else◌, ok,
}
use dexmd.External.{Curve, IsCurve}
use dexmd.Schnorr.{create_signature, verify_signature}
use dexmd.Schnorr.Laws.{keys_of, commitments_of, sign_all, verify_signature-create_signature}

abbrev xor : Bool → Bool → Bool
xor true b = not b
xor false b = b

-- Points and scalars are bits; every hash is the bit 1.
abbrev bits : Curve Bool Bool
bits = record {
  base = true;
  point_add = xor;
  point_mul = ◌&&◌;
  point_eq = λ p q. not (xor p q);
  point_string = λ p. if p then 1 ∷ [] else 0 ∷ [];
  scalar_add = xor;
  scalar_sub = xor;
  scalar_mul = ◌&&◌;
  scalar_hash = λ s. true;
}

xor_comm : (p q : Bool) → xor p q ≡ xor q p
xor_comm true true = refl
xor_comm true false = refl
xor_comm false true = refl
xor_comm false false = refl

xor_assoc : (p q r : Bool) → xor (xor p q) r ≡ xor p (xor q r)
xor_assoc true true true = refl
xor_assoc true true false = refl
xor_assoc true false true = refl
xor_assoc true false false = refl
xor_assoc false true true = refl
xor_assoc false true false = refl
xor_assoc false false true = refl
xor_assoc false false false = refl

and-xor_left : (a b p : Bool) → (xor a b && p) ≡ xor (a && p) (b && p)
and-xor_left true true true = refl
and-xor_left true true false = refl
and-xor_left true false true = refl
and-xor_left true false false = refl
and-xor_left false true true = refl
and-xor_left false true false = refl
and-xor_left false false true = refl
and-xor_left false false false = refl

and-xor_back : (a b p : Bool) → xor (xor a b && p) (b && p) ≡ (a && p)
and-xor_back true true true = refl
and-xor_back true true false = refl
and-xor_back true false true = refl
and-xor_back true false false = refl
and-xor_back false true true = refl
and-xor_back false true false = refl
and-xor_back false false true = refl
and-xor_back false false false = refl

and_assoc : (a b p : Bool) → ((a && b) && p) ≡ (a && (b && p))
and_assoc true true true = refl
and_assoc true true false = refl
and_assoc true false true = refl
and_assoc true false false = refl
and_assoc false true true = refl
and_assoc false true false = refl
and_assoc false false true = refl
and_assoc false false false = refl

and-xor_right : (a p q : Bool) → (a && xor p q) ≡ xor (a && p) (a && q)
and-xor_right true true true = refl
and-xor_right true true false = refl
and-xor_right true false true = refl
and-xor_right true false false = refl
and-xor_right false true true = refl
and-xor_right false true false = refl
and-xor_right false false true = refl
and-xor_right false false false = refl

xor_self : (p : Bool) → not (xor p p) ≡ true
xor_self true = refl
xor_self false = refl

bits-IsCurve : IsCurve bits
bits-IsCurve = record {
  point_add_comm = xor_comm;
  point_add_assoc = xor_assoc;
  mul-scalar_add = and-xor_left;
  mul-scalar_sub = and-xor_back;
  mul-scalar_mul = and_assoc;
  mul-point_add = and-xor_right;
  point_eq_refl = xor_self;
}

verify_signature-create_signature_example :
    (r : Bool) × (total_share : Bool) × (create_signature bits
        (commitments_of bits bits-IsCurve ((true, false) ∷ (true, true) ∷ []))
        (sign_all bits bits-IsCurve (5 ∷ []) [] ((true, false) ∷ (true, true) ∷ []))
      ≡ ok (r, total_share))
    × (verify_signature bits
          (5 ∷ [])
          r
          total_share
          (keys_of bits bits-IsCurve ((true, false) ∷ (true, true) ∷ []))
          (commitments_of bits bits-IsCurve ((true, false) ∷ (true, true) ∷ []))
        ≡ ok true)
verify_signature-create_signature_example =
    verify_signature-create_signature bits bits-IsCurve (5 ∷ []) (true, false) ((true, true) ∷ [])
