-- ===== src/Rebuttal/Respond.antt =====
-- chargeback/rebuttal_builder.py: how the response follows the evidence.
use pay_shield.Prelude.{
  ℕ, ◌≤◌, String, Option, Bool, true, false, arith, Bool-cases, inl, inr, if◌then◌else◌,
}
use pay_shield.Prelude.Float.{Float, IsOrdered, ◌≼◌, lit, of_ℕ, fle, flt, fmin}
use pay_shield.Prelude.Float.Order.{le-fmin, fmin-le_left, not_lt→le}
use pay_shield.Rebuttal.{
  Evidence, Response, accept, partial, reject, required, optional, is_fraud_code, is_service_code,
  calculate_completeness, by_completeness, determine_response_type, build_rebuttal, one,
}

abbrev pub strength : Response → ℕ
strength accept = 0
strength partial = 1
strength reject = 2

-- whatever one bundle holds, the other one holds too
abbrev pub IsWithin : Evidence → Evidence → Type 0
IsWithin a b =
    (one a.transaction_proof ≤ one b.transaction_proof)
    × (one a.device_fingerprint ≤ one b.device_fingerprint)
    × (one a.velocity_evidence ≤ one b.velocity_evidence)
    × (one a.geo_evidence ≤ one b.geo_evidence)
    × (one a.benford_evidence ≤ one b.benford_evidence)
    × (one a.graph_evidence ≤ one b.graph_evidence)
    × (one a.investigation_report ≤ one b.investigation_report)
    × (one a.delivery_proof ≤ one b.delivery_proof)

module _ (F : Type 0) ⦃f : Float F⦄ (o : IsOrdered F) where
  of_mono : (m n : ℕ) → m ≤ n → of_ℕ {F = F} m ≼ of_ℕ n
  of_mono m n h = o.lit_mono _ _ (omega arith)

  fmin_mono : (c a b : F) → a ≼ b → fmin c a ≼ fmin c b
  fmin_mono c a b h =
      le-fmin F o c b (fmin c a) (fmin-le_left F o c a) (o.le_trans _ a b (below c a) h)
    where
      below : (c a : F) → fmin c a ≼ a
      below c a = elim (Bool-cases (flt a c)) [
        | inl p ↦ rw p (o.le_refl a)
        | inr p ↦ rw p (not_lt→le F o a c p)
      ]

  completeness_mono :
      (a b : Evidence)
      → required a ≤ required b
      → optional a ≤ optional b
      → calculate_completeness {F = F} a ≼ calculate_completeness b
  unfolding calculate_completeness
  completeness_mono a b h k = o.round4_mono _ _ (
      fmin_mono (lit 10_000) _ _ (
        o.add_mono _ _ _ _ (o.div_mono _ _ 20_000 (omega arith) (of_mono _ _ h)) (
          o.mul_mono _ _ _ _
            (o.le_trans _ _ _ (o.div_zero 50_000 (omega arith))
              (o.div_mono _ _ 50_000 (omega arith) (o.lit_mono 0 _ (omega arith))))
            (o.div_mono _ _ 50_000 (omega arith) (of_mono _ _ k)) (o.lit_mono 0 3_000 (omega arith))
            (o.le_refl _))))

  by_completeness_mono :
      (m n : ℕ) (x y : F)
      → x ≼ y
      → strength (by_completeness m n x) ≤ strength (by_completeness m n y)
  by_completeness_mono m n x y h = elim (Bool-cases (fle (lit m) x)) [
    | inl p ↦ rw (p, o.le_trans _ x y p h) (omega arith)
    | inr p ↦ elim (Bool-cases (fle (lit n) x)) [
      | inl q ↦ rw (p, q, o.le_trans _ x y q h) (ground arith)
      | inr q ↦ rw (p, q) (omega arith)
    ]
  ]

  response_mono :
      (x y : F) (d e : Bool) (code : String)
      → x ≼ y
      → one d ≤ one e
      → strength (determine_response_type x d code) ≤ strength (determine_response_type y e code)
  unfolding determine_response_type
  response_mono x y d e code h k = elim (Bool-cases (is_fraud_code code)) [
    | inl p ↦ rw p (by_completeness_mono 8_000 5_000 x y h)
    | inr p ↦ elim (Bool-cases (is_service_code code)) [
      | inl q ↦ rw (p, q) (service d e k)
      | inr q ↦ rw (p, q) (by_completeness_mono 7_000 4_000 x y h)
    ]
  ]
    where
      service :
          (d e : Bool)
          → one d ≤ one e
          → strength (if d then reject else accept) ≤ strength (if e then reject else accept)
      service true true k = omega arith
      service true false k = absurd (omega arith)
      service false e k = omega arith

  -- More evidence never weakens the response: from ACCEPT over PARTIAL to REJECT, for one reason code.
  pub build_rebuttal_mono :
      (a b : Evidence) (network code : String) (deadline : Option F) (now : F)
      → IsWithin a b
      → strength (build_rebuttal a network code deadline now).response_type
        ≤ strength (build_rebuttal b network code deadline now).response_type
  unfolding build_rebuttal
  build_rebuttal_mono a b network code deadline now (t, d, v, g, n, r, i, p) =
      response_mono _ _ a.delivery_proof b.delivery_proof code
        (completeness_mono a b (omega arith) (omega arith)) p
