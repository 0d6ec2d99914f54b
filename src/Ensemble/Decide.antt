-- ===== src/Ensemble/Decide.antt =====
-- engine/ensemble.py, `fuse`: what the final decision promises about the layers'.
use pay_shield.Prelude.{
  ◌≡◌, refl, sym, ap, ◌∙◌, Bool, ◌&&◌, not, true, false, Option, any, false≢true, if◌then◌else◌,
  ◌+◌, arith, length, length-append,
}
use pay_shield.Prelude.Float.{Float, fle}
use pay_shield.Layer1.Rules.{Decision, allow, review, block, escalate, is_block}
use pay_shield.Layer1.Gate.{Layer1Result, evaluate, results, Config, StatisticalFilter, Transaction}
use pay_shield.Layer1.Compose.{evaluate_strictest}
use pay_shield.Ensemble.{
  Layer2Result, Engine, decision_from_score, gating_score, logged, fuse_scores, fuse,
}

pub is_block→eq : (d : Decision) → is_block d ≡ true → d ≡ block
is_block→eq block h = refl
is_block→eq allow h = absurd (false≢true h)
is_block→eq review h = absurd (false≢true h)
is_block→eq escalate h = absurd (false≢true h)

abbrev pub is_escalate : Decision → Bool
is_escalate escalate = true
is_escalate _ = false

abbrev pub is_allow : Decision → Bool
is_allow allow = true
is_allow _ = false

module _ {F : Type 0} ⦃f : Float F⦄ where
  -- which decision a gating score stands for
  abbrev pub decided : Engine F → F → Decision → Decision
  decided e x block = block
  decided e x escalate = if fle e.fraud_threshold x then block else review
  decided e x _ =
      if fle e.fraud_threshold x
      then block
      else (if fle e.review_threshold x then review else allow)

  from_score :
      (e : Engine F) (x : F) (d : Decision)
      → is_block d ≡ false
      → (decision_from_score e x d).0 ≡ decided e x d
  unfolding decision_from_score
  from_score e x block n = absurd (false≢true (sym n))
  from_score e x allow n = ground arith
  from_score e x review n = ground arith
  from_score e x escalate n = ground arith

  -- a clear BLOCK of the first layer is final
  short_circuit :
      (e : Engine F) (l1 : Layer1Result F) (l2 : Option (Layer2Result F))
      → l1.decision ≡ block
      → ((fuse e l1 l2).0.decision ≡ block) × ((fuse e l1 l2).1 ≡ e)
  unfolding fuse
  short_circuit e l1 l2 h = rw h (refl, refl)

  -- The final decision is BLOCK if the first layer says BLOCK; BLOCK or REVIEW by the fraud threshold
  -- alone if it escalates; and otherwise BLOCK, REVIEW or ALLOW by the two thresholds on the gating
  -- score.
  pub fuse-decided :
      (e : Engine F) (l1 : Layer1Result F) (l2 : Option (Layer2Result F))
      → (fuse e l1 l2).0.decision ≡ decided e (gating_score e l1 l2) l1.decision
  unfolding fuse fuse_scores decision_from_score
  fuse-decided e l1 l2 = at l1.decision refl
    where
      at :
          (d : Decision)
          → l1.decision ≡ d
          → (fuse e l1 l2).0.decision ≡ decided e (gating_score e l1 l2) l1.decision
      at allow h =
          rw h (from_score e (gating_score e (record l1 { decision = allow }) l2) allow refl)
      at review h =
          rw h (from_score e (gating_score e (record l1 { decision = review }) l2) review refl)
      at block h = rw h refl
      at escalate h =
          rw h (from_score e (gating_score e (record l1 { decision = escalate }) l2) escalate refl)

  -- For every transaction, if any filter of the first layer says BLOCK then the final decision is
  -- BLOCK and no disagreement is logged, whatever the second layer and the calibrator say.
  pub fuse-evaluate :
      (e : Engine F) (c : Config F) (s : StatisticalFilter F) (t : Transaction F)
      (l2 : Option (Layer2Result F))
      → any (λ r. is_block r.action) (results c s t) ≡ true
      → let l1 = (evaluate c s t).0 in ((fuse e l1 l2).0.decision ≡ block) × ((fuse e l1 l2).1 ≡ e)
  fuse-evaluate e c s t l2 h =
      short_circuit e (evaluate c s t).0 l2
        (is_block→eq (evaluate c s t).0.decision ((evaluate_strictest c s t).1 ∙ h))

  logged-length :
      (l1 : Layer1Result F) (l2 : Option (Layer2Result F)) (d d' : Decision)
      → is_escalate d' ≡ false
      → length (logged l1 l2 d d') ≡ (if is_allow d && not (is_allow d') then 1 else 0)
  logged-length l1 l2 allow allow h = refl
  logged-length l1 l2 allow review h = refl
  logged-length l1 l2 allow block h = refl
  logged-length l1 l2 allow escalate h = absurd (false≢true (sym h))
  logged-length l1 l2 review d h = refl
  logged-length l1 l2 block d h = refl
  logged-length l1 l2 escalate d h = refl

  from_score-escalate :
      (e : Engine F) (x : F) (d : Decision) → is_escalate (decision_from_score e x d).0 ≡ false
  unfolding decision_from_score
  from_score-escalate e x allow = ground arith
  from_score-escalate e x review = ground arith
  from_score-escalate e x block = ground arith
  from_score-escalate e x escalate = ground arith

  scores-disagreements :
      (e : Engine F) (l1 : Layer1Result F) (l2 : Option (Layer2Result F))
      → let d = (fuse_scores e l1 l2).0.decision in
        (is_escalate d ≡ false)
        × (length (fuse_scores e l1 l2).1.disagreements
            ≡ length e.disagreements + (if is_allow l1.decision && not (is_allow d) then 1 else 0))
  unfolding fuse_scores
  scores-disagreements e l1 l2 =
      let x = gating_score e l1 l2 in
      let d = (decision_from_score e x l1.decision).0 in
      let h = from_score-escalate e x l1.decision in
      (
        h,
        length-append e.disagreements (logged l1 l2 l1.decision d)
            ∙ ap (λ n. length e.disagreements + n) (logged-length l1 l2 l1.decision d h),
      )

  -- The final decision is never ESCALATE, and the log of disagreements grows by one entry when the
  -- first layer says ALLOW and the final decision does not, and otherwise keeps its length.
  pub fuse-disagreements :
      (e : Engine F) (l1 : Layer1Result F) (l2 : Option (Layer2Result F))
      → let d = (fuse e l1 l2).0.decision in
        (is_escalate d ≡ false)
        × (length (fuse e l1 l2).1.disagreements
            ≡ length e.disagreements + (if is_allow l1.decision && not (is_allow d) then 1 else 0))
  unfolding fuse
  fuse-disagreements e l1 l2 = at l1.decision refl
    where
      at :
          (d : Decision)
          → l1.decision ≡ d
          → (is_escalate (fuse e l1 l2).0.decision ≡ false)
            × (length (fuse e l1 l2).1.disagreements
                ≡ length e.disagreements
                  + (if is_allow l1.decision && not (is_allow (fuse e l1 l2).0.decision)
                      then 1
                      else 0))
      at allow h = rw h (scores-disagreements e (record l1 { decision = allow }) l2)
      at review h = rw h (scores-disagreements e (record l1 { decision = review }) l2)
      at escalate h = rw h (scores-disagreements e (record l1 { decision = escalate }) l2)
      at block h = rw h (refl, omega arith)
