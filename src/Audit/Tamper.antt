-- ===== src/Audit/Tamper.antt =====
-- What a verified chain proves about its entries.
use mathlib.Core.List.{map-append}
use pay_shield.Prelude.{All, ℕ, ◌+◌, ◌≤◌, ◌≡◌, sym, ◌∙◌, ap₂, List, [], ◌∷◌, map, arith}
use pay_shield.Audit.Names.{Dir}
use pay_shield.Audit.{
  Body, Entry, Line, blank, corrupt, entry, genesis, going, scan, scan_files, read_lines, read_all,
}
use pay_shield.Audit.Daily.{continue_going, scan-append}

-- No entry of one list and entry of the other have the same hash and different contents.
abbrev pub IsCollisionFree : (Body → ℕ → ℕ) → List Entry → List Entry → Type 0
IsCollisionFree digest es fs =
    All
      (λ e.
        All
          (λ f.
            digest e.body e.prev_hash ≡ digest f.body f.prev_hash
            → (e.body ≡ f.body) × (e.prev_hash ≡ f.prev_hash))
          fs)
      es

rest_free :
    (digest : Body → ℕ → ℕ) (f : Entry) (es fs : List Entry)
    → IsCollisionFree digest es (f ∷ fs)
    → IsCollisionFree digest es fs
rest_free digest f [] fs h = tt
rest_free digest f (e ∷ es) fs ((_, h), hs) = (h, rest_free digest f es fs hs)

Entry_path : (e f : Entry) → e.body ≡ f.body → e.prev_hash ≡ f.prev_hash → e.hash ≡ f.hash → e ≡ f
Entry_path e f a b c = λ i. record { body = a i; prev_hash = b i; hash = c i }

module _ (digest : Body → ℕ → ℕ) where
  scan-read_lines :
      (h0 n0 h n : ℕ) (ls : List Line)
      → scan digest h0 n0 ls ≡ going h n
      → scan digest h0 n0 (map entry (read_lines ls)) ≡ going h n
  unfolding scan read_lines
  scan-read_lines h0 n0 h n [] e = e
  scan-read_lines h0 n0 h n (blank ∷ ls) e = scan-read_lines h0 n0 h n ls e
  scan-read_lines h0 n0 h n (corrupt ∷ ls) e = cc
  scan-read_lines h0 n0 h n (entry x ∷ ls) e =
      ground (arith, scan-read_lines x.hash (n0 + 1) h n ls)

  scan-read_all :
      (h0 n0 h n : ℕ) (dir : Dir Line)
      → scan_files digest h0 n0 dir ≡ going h n
      → scan digest h0 n0 (map entry (read_all dir)) ≡ going h n
  unfolding scan_files read_all
  scan-read_all h0 n0 h n [] e = unfold scan in e
  scan-read_all h0 n0 h n ((m, ls) ∷ rest) e =
      let (h', n', p, q) =
        continue_going (scan digest h0 n0 ls) (λ a b. scan_files digest a b rest) e in
      rw map-append (
        scan-append digest h0 n0 (map entry (read_lines ls)) (map entry (read_all rest))
        ∙ rw (scan-read_lines h0 n0 h' n' ls p) (scan-read_all h' n' h n rest q))

  -- what the scan has checked of its first entry
  scan-cons :
      (h0 n0 h n : ℕ) (e : Entry) (ls : List Line)
      → scan digest h0 n0 (entry e ∷ ls) ≡ going h n
      → (e.prev_hash ≡ h0)
        × (digest e.body e.prev_hash ≡ e.hash)
        × (scan digest e.hash (n0 + 1) ls ≡ going h n)
  unfolding scan
  scan-cons h0 n0 h n e ls p = ground arith

  le-scan :
      (h0 n0 h n : ℕ) (es : List Entry) → scan digest h0 n0 (map entry es) ≡ going h n → n0 ≤ n
  le-scan h0 n0 h n [] e = unfold scan in ground arith
  le-scan h0 n0 h n (x ∷ es) e =
      omega (arith, le-scan x.hash (n0 + 1) h n es (scan-cons h0 n0 h n x (map entry es) e).2)

  -- a chain with a first entry counts past where it began
  scan-nil_cons :
      (h0 k0 n0 h n : ℕ) (f : Entry) (fs : List Entry)
      → scan digest h0 n0 [] ≡ going h n
      → ¬ (scan digest k0 n0 (map entry (f ∷ fs)) ≡ going h n)
  unfolding scan
  scan-nil_cons h0 k0 n0 h n f fs p q =
      let later = scan-cons k0 n0 h n f (map entry fs) q in
      let bound : n0 + 1 ≤ n = le-scan f.hash (n0 + 1) h n fs later.2 in
      let same : n0 ≡ n = ground arith in absurd (omega arith)

  -- from the end back, two chains with one final hash and one count agree
  scan_unique :
      (h0 k0 n0 h n : ℕ) (es fs : List Entry)
      → IsCollisionFree digest es fs
      → scan digest h0 n0 (map entry es) ≡ going h n
      → scan digest k0 n0 (map entry fs) ≡ going h n
      → (h0 ≡ k0) × (es ≡ fs)
  scan_unique h0 k0 n0 h n [] [] free p q = unfold scan in ground arith
  scan_unique h0 k0 n0 h n [] (f ∷ fs) free p q = absurd (scan-nil_cons h0 k0 n0 h n f fs p q)
  scan_unique h0 k0 n0 h n (e ∷ es) [] free p q = absurd (scan-nil_cons k0 h0 n0 h n e es q p)
  scan_unique h0 k0 n0 h n (e ∷ es) (f ∷ fs) ((here, _), free) p q =
      let (pe, de, re) = scan-cons h0 n0 h n e (map entry es) p in
      let (pf, df, rf) = scan-cons k0 n0 h n f (map entry fs) q in
      let (hh, tails) =
        scan_unique e.hash f.hash (n0 + 1) h n es fs (rest_free digest f es fs free) re rf in
      let (bodies, prevs) = here (de ∙ hh ∙ sym df) in
      (sym pe ∙ prevs ∙ pf, ap₂ (λ x xs. x ∷ xs) (Entry_path e f bodies prevs hh) tails)

  -- Two logs that both verify with n entries and end in one hash hold the same entries in the same
  -- order, if no entry of one and entry of the other have the same hash and different contents: no
  -- entry can be changed, dropped, added or moved while the count and the last hash stay.
  pub verify_chain_unique :
      (h n : ℕ) (dir dir' : Dir Line)
      → IsCollisionFree digest (read_all dir) (read_all dir')
      → scan_files digest genesis 0 dir ≡ going h n
      → scan_files digest genesis 0 dir' ≡ going h n
      → read_all dir ≡ read_all dir'
  verify_chain_unique h n dir dir' free p q =
      (scan_unique genesis genesis 0 h n (read_all dir) (read_all dir') free
        (scan-read_all genesis 0 h n dir p) (scan-read_all genesis 0 h n dir' q)).1
