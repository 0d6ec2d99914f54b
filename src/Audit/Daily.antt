-- ===== src/Audit/Daily.antt =====
-- Logs of one file a day, none rotated: where a line goes, and how such a log is scanned.
use pay_shield.Prelude.{
  ℕ, suc, ◌+◌, ◌≤◌, ◌<◌, ◌≡◌, refl, sym, ◌∙◌, ap, true, false, none, List, [], ◌∷◌, ◌++◌, arith,
  Bool, dec_lt, fun_ext, subst,
}
use pay_shield.Audit.Names.{FileName, Dir, write_line}
use pay_shield.Audit.{
  Body, Entry, Line, blank, corrupt, entry, genesis, hash_after, last_hash, Scan, going, broken,
  crashed, continue, scan, scan_files,
}

-- whether a file has a line that is not blank
abbrev pub has_entry : List Line → Bool
has_entry [] = false
has_entry (blank ∷ ls) = has_entry ls
has_entry (corrupt ∷ ls) = true
has_entry (entry e ∷ ls) = true

-- Files of increasing days from `lo` to `hi`, none of them rotated, none of them empty.
abbrev pub IsDaily : ℕ → ℕ → Dir Line → Type 0
IsDaily lo hi [] = Unit
IsDaily lo hi ((n, ls) ∷ rest) =
    (n.time ≡ none)
    × (lo ≤ n.day)
    × (n.day ≤ hi)
    × (has_entry ls ≡ true)
    × IsDaily (suc n.day) hi rest

pub IsDaily-mono :
    (lo hi hi' : ℕ) (dir : Dir Line) → hi ≤ hi' → IsDaily lo hi dir → IsDaily lo hi' dir
IsDaily-mono lo hi hi' [] h d = tt
IsDaily-mono lo hi hi' ((n, ls) ∷ rest) h (t, a, b, e, d) =
    (t, a, omega arith, e, IsDaily-mono (suc n.day) hi hi' rest h d)

pub has_entry-append : (ls : List Line) (e : Entry) → has_entry (ls ++ entry e ∷ []) ≡ true
has_entry-append [] e = refl
has_entry-append (blank ∷ ls) e = has_entry-append ls e
has_entry-append (corrupt ∷ ls) e = refl
has_entry-append (entry _ ∷ ls) e = refl

abbrev pub daily : ℕ → FileName
daily d = record { day = d; time = none }

-- where `write_line` puts a line for the last day
pub write_here :
    (n : FileName) (ls : List Line) (rest : Dir Line) (hi : ℕ) (l : Line)
    → n.time ≡ none
    → n.day ≡ hi
    → write_line ((n, ls) ∷ rest) (daily hi) l ≡ (n, ls ++ l ∷ []) ∷ rest
unfolding write_line
write_here n ls rest hi l t d = ground arith

pub write_later :
    (n : FileName) (ls : List Line) (rest : Dir Line) (hi : ℕ) (l : Line)
    → n.time ≡ none
    → n.day < hi
    → write_line ((n, ls) ∷ rest) (daily hi) l ≡ (n, ls) ∷ write_line rest (daily hi) l
unfolding write_line
write_later n ls rest hi l t d = ground arith

pub write-IsDaily :
    (lo hi : ℕ) (dir : Dir Line) (e : Entry)
    → lo ≤ hi
    → IsDaily lo hi dir
    → IsDaily lo hi (write_line dir (daily hi) (entry e))
write-IsDaily lo hi [] e h d = unfold write_line in (refl, h, omega arith, refl, tt)
write-IsDaily lo hi ((n, ls) ∷ rest) e h (t, a, b, x, d) = elim (dec_lt n.day hi) [
  | yes p ↦
      rw (write_later n ls rest hi (entry e) t p)
        (t, a, b, x, write-IsDaily (suc n.day) hi rest e p d)
  | no p ↦
      rw (write_here n ls rest hi (entry e) t (omega arith)) (t, a, b, has_entry-append ls e, d)
]

pub IsDaily-empty : (hi : ℕ) (dir : Dir Line) → IsDaily (suc hi) hi dir → dir ≡ []
IsDaily-empty hi [] d = refl
IsDaily-empty hi ((n, ls) ∷ rest) (t, a, b, x, d) = absurd (omega arith)

pub continue_going :
    (s : Scan) (k : ℕ → ℕ → Scan) {h n : ℕ}
    → continue s k ≡ going h n
    → (h' : ℕ) × (n' : ℕ) × (s ≡ going h' n') × (k h' n' ≡ going h n)
continue_going (going h' n') k e = (h', n', refl, e)
continue_going (broken c) k e = absurd (cc e)
continue_going crashed k e = absurd (cc e)

pub continue-going : (s : Scan) → continue s going ≡ s
continue-going (going h n) = refl
continue-going (broken n) = refl
continue-going crashed = refl

pub continue_assoc :
    (s : Scan) (f g : ℕ → ℕ → Scan)
    → continue (continue s f) g ≡ continue s (λ h n. continue (f h n) g)
continue_assoc (going h n) f g = refl
continue_assoc (broken n) f g = refl
continue_assoc crashed f g = refl

module _ (digest : Body → ℕ → ℕ) where
  pub scan-append :
      (h n : ℕ) (xs ys : List Line)
      → scan digest h n (xs ++ ys) ≡ continue (scan digest h n xs) (λ h' n'. scan digest h' n' ys)
  unfolding scan
  scan-append h n [] ys = refl
  scan-append h n (blank ∷ xs) ys = scan-append h n xs ys
  scan-append h n (corrupt ∷ xs) ys = refl
  scan-append h n (entry e ∷ xs) ys = ground (arith, scan-append e.hash (n + 1) xs ys)

  -- a scan that goes through ends at the hash of the last entry
  pub hash_after-scan :
      (h0 n0 h n : ℕ) (ls : List Line) → scan digest h0 n0 ls ≡ going h n → hash_after h0 ls ≡ h
  unfolding scan hash_after
  hash_after-scan h0 n0 h n [] e = ground arith
  hash_after-scan h0 n0 h n (blank ∷ ls) e = hash_after-scan h0 n0 h n ls e
  hash_after-scan h0 n0 h n (corrupt ∷ ls) e = cc
  hash_after-scan h0 n0 h n (entry x ∷ ls) e =
      ground (arith, hash_after-scan x.hash (n0 + 1) h n ls)

  hash_after_any :
      (h0 n0 h1 h n : ℕ) (ls : List Line)
      → has_entry ls ≡ true
      → scan digest h0 n0 ls ≡ going h n
      → hash_after h1 ls ≡ h
  unfolding scan hash_after
  hash_after_any h0 n0 h1 h n [] x e = cc
  hash_after_any h0 n0 h1 h n (blank ∷ ls) x e = hash_after_any h0 n0 h1 h n ls x e
  hash_after_any h0 n0 h1 h n (corrupt ∷ ls) x e = cc
  hash_after_any h0 n0 h1 h n (entry y ∷ ls) x e =
      ground (arith, hash_after-scan y.hash (n0 + 1) h n ls)

  last_hash-cons :
      (h0 n0 lo hi : ℕ) (f : FileName × List Line) (rest : Dir Line) {h n : ℕ}
      → IsDaily lo hi (f ∷ rest)
      → scan_files digest h0 n0 (f ∷ rest) ≡ going h n
      → last_hash (f ∷ rest) ≡ h
  unfolding last_hash scan_files
  last_hash-cons h0 n0 lo hi (m, ls) [] (t, a, b, x, d) e =
      let (h', n', p, q) = continue_going (scan digest h0 n0 ls) going e in
      hash_after_any h0 n0 genesis _ _ ls x (p ∙ q)
  last_hash-cons h0 n0 lo hi (m, ls) (g ∷ rest) (t, a, b, x, d) e =
      let (h', n', p, q) =
        continue_going (scan digest h0 n0 ls) (λ h n. scan_files digest h n (g ∷ rest)) e in
      last_hash-cons h' n' (suc m.day) hi g rest d q

  -- In a log of daily files that verifies, the writer reads the hash at which the scan ends.
  pub last_hash-scan :
      (lo hi : ℕ) (dir : Dir Line) {h n : ℕ}
      → IsDaily lo hi dir
      → scan_files digest genesis 0 dir ≡ going h n
      → last_hash dir ≡ h
  last_hash-scan lo hi [] d e = unfold scan_files last_hash in ground arith
  last_hash-scan lo hi (f ∷ rest) d e = last_hash-cons genesis 0 lo hi f rest d e

  -- a line for the last day is scanned after all the others
  pub scan_files-write :
      (h0 n0 lo hi : ℕ) (dir : Dir Line) (l : Line)
      → IsDaily lo hi dir
      → scan_files digest h0 n0 (write_line dir (daily hi) l)
        ≡ continue (scan_files digest h0 n0 dir) (λ h n. scan digest h n (l ∷ []))
  unfolding scan_files
  scan_files-write h0 n0 lo hi [] l d = unfold write_line in continue-going _
  scan_files-write h0 n0 lo hi ((m, ls) ∷ rest) l (t, a, b, x, d) = elim (dec_lt m.day hi) [
    | yes p ↦ rw (write_later m ls rest hi l t p) (
        ap (continue (scan digest h0 n0 ls))
          (fun_ext λ h'. fun_ext λ n'. scan_files-write h' n' (suc m.day) hi rest l d)
        ∙ sym (continue_assoc (scan digest h0 n0 ls) _ _))
    | no p ↦ rw (write_here m ls rest hi l t (omega arith)) (here (omega arith))
  ]
    where
      here :
          m.day ≡ hi
          → continue (scan digest h0 n0 (ls ++ l ∷ [])) (λ h n. scan_files digest h n rest)
            ≡ continue
                (continue (scan digest h0 n0 ls) (λ h n. scan_files digest h n rest))
                (λ h n. scan digest h n (l ∷ []))
      here q = rw (IsDaily-empty hi rest (subst (λ k. IsDaily (suc k) hi rest) q d)) (
          continue-going _
          ∙ scan-append h0 n0 ls (l ∷ [])
          ∙ ap (λ s. continue s (λ h n. scan digest h n (l ∷ [])))
              (sym (continue-going (scan digest h0 n0 ls))))
