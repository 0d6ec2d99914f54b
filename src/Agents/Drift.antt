-- ===== src/Agents/Drift.antt =====
-- agents/profile_agent.py: the range of the drift.
use pay_shield.Prelude.{Bool-cases, inl, inr, List, ltb, leb, length, ◌&&◌, arith}
use pay_shield.Prelude.Float.{Float, IsOrdered, ◌≼◌, lit, fle}
use pay_shield.Prelude.Float.Order.{fmin-le_left}
use pay_shield.Agents.Profile.{Sighting, scores, older, take_last, drift, detect_drift}

module _ (F : Type 0) ⦃f : Float F⦄ (o : IsOrdered F) where
  drift-le : (recent old : F) → drift recent old ≼ lit 10_000
  drift-le recent old =
      o.le_trans _ _ _ (o.round4_mono _ _ (fmin-le_left F o (lit 10_000) _)) (o.round4_lit 10_000).0

  -- The drift is at most 1, whatever the mean gives.
  pub detect_drift-le :
      (mean : List F → F) (xs : List (Sighting F)) → detect_drift mean xs ≼ lit 10_000
  unfolding detect_drift
  detect_drift-le mean xs =
      let zero = o.lit_mono 0 10_000 (omega arith) in
      let recent = mean (scores (take_last 10 xs)) in
      let old = mean (scores (older xs)) in
      elim (Bool-cases (ltb (length xs) 10)) [
        | inl e ↦ rw e zero
        | inr e ↦ elim (Bool-cases (leb (length (older xs)) 0)) [
          | inl k ↦ rw (e, k) zero
          | inr k ↦ elim (Bool-cases (fle old (lit 0) && fle (lit 0) old)) [
            | inl n ↦ rw (e, k, n) zero
            | inr n ↦ rw (e, k, n) (drift-le recent old)
          ]
        ]
      ]
