-- ===== src/Audit/Verify.antt =====
-- A log that only the writer has touched verifies, as long as no file is rotated.
use native.Mathlib.Nat.{add-zero}
use pay_shield.Prelude.{
  ℕ, ◌+◌, ◌≤◌, ◌<◌, ◌≡◌, refl, ◌∙◌, ap, true, some, List, [], ◌∷◌, arith, length,
}
use pay_shield.Audit.Names.{Dir}
use pay_shield.Audit.Masker.{Regex}
use pay_shield.Audit.{
  Body, Line, entry, genesis, last_hash, Scan, going, broken, crashed, scan, scan_files, verdict,
  verify_chain, Writer, fresh, Request, today_file, target, make_entry, append, append_all,
}
use pay_shield.Audit.Daily.{IsDaily, IsDaily-mono, write-IsDaily, scan_files-write, last_hash-scan}

-- with room in the file there is no rotation
pub target_today :
    (w : Writer) (r : Request)
    → w.entry_count < w.max_entries_per_file
    → ((target w r).0 ≡ today_file r) × ((target w r).1 ≤ w.entry_count)
unfolding target
target_today w r h = ground arith

-- The dates of the requests never go back before `day`.
abbrev pub IsInOrder : ℕ → List Request → Type 0
IsInOrder day [] = Unit
IsInOrder day (r ∷ rs) = (day ≤ r.day) × IsInOrder r.day rs

pub verdict-true : (s : Scan) (n : ℕ) → verdict s ≡ some (true, n) → (h : ℕ) × (s ≡ going h n)
verdict-true (going h m) n e = (h, ground arith)
verdict-true (broken m) n e = absurd (ground arith)
verdict-true crashed n e = absurd (cc e)

module _ (re : Regex) (digest : Body → ℕ → ℕ) where
  pub scan-make_entry :
      (dir : Dir Line) (r : Request) (h n : ℕ)
      → last_hash dir ≡ h
      → scan digest h n (entry (make_entry re digest dir r) ∷ [])
        ≡ going (make_entry re digest dir r).hash (n + 1)
  unfolding scan
  scan-make_entry dir r h n e = ground arith

  append_step :
      (w : Writer) (hi : ℕ) (dir : Dir Line) (r : Request) (h n : ℕ)
      → hi ≤ r.day
      → w.entry_count < w.max_entries_per_file
      → IsDaily 0 hi dir
      → scan_files digest genesis 0 dir ≡ going h n
      → let (w', dir') = append re digest w dir r in
        IsDaily 0 r.day dir'
        × (scan_files digest genesis 0 dir' ≡ going (make_entry re digest dir r).hash (n + 1))
        × (w'.entry_count ≤ w.entry_count + 1)
        × (w'.max_entries_per_file ≡ w.max_entries_per_file)
  unfolding append
  append_step w hi dir r h n b room d e =
      let (file, count) = target_today w r room in
      let d' = IsDaily-mono 0 hi r.day dir b d in
      (
        rw file (write-IsDaily 0 r.day dir (make_entry re digest dir r) (omega arith) d'),
        rw file (
            scan_files-write digest genesis 0 0 r.day dir _ d'
            ∙ rw e (scan-make_entry dir r h n (last_hash-scan digest 0 hi dir d e))),
        omega arith,
        refl,
      )

  scan_files-append_all :
      (w : Writer) (hi : ℕ) (dir : Dir Line) (rs : List Request) (h n : ℕ)
      → IsInOrder hi rs
      → w.entry_count + length rs ≤ w.max_entries_per_file
      → IsDaily 0 hi dir
      → scan_files digest genesis 0 dir ≡ going h n
      → (h' : ℕ) × (scan_files digest genesis 0 (append_all re digest w dir rs).1
          ≡ going h' (n + length rs))
  unfolding append_all
  scan_files-append_all w hi dir [] h n o room d e = (h, rw (e, add-zero))
  scan_files-append_all w hi dir (r ∷ rs) h n (a, o) room d e =
      let (w', dir') = append re digest w dir r in
      let (d', e', c, m) = append_step w hi dir r h n a (omega arith) d e in
      let (h', p) =
        scan_files-append_all w' r.day dir' rs (make_entry re digest dir r).hash (n + 1) o
          (omega arith) d' e' in
      (h', p ∙ ap (going h') (omega arith))

  pub verify_chain-true :
      (dir : Dir Line) (n : ℕ)
      → verify_chain digest dir ≡ some (true, n)
      → (h : ℕ) × (scan_files digest genesis 0 dir ≡ going h n)
  unfolding verify_chain
  verify_chain-true dir n e = verdict-true _ n e

  -- A writer that starts on a log of daily files that verifies with n entries, and makes appends
  -- whose dates never go back, no more of them than a file may hold, leaves a log that verifies
  -- with all the entries, the old and the new.
  pub verify_chain-append_all :
      (max hi n : ℕ) (dir : Dir Line) (rs : List Request)
      → IsDaily 0 hi dir
      → verify_chain digest dir ≡ some (true, n)
      → IsInOrder hi rs
      → length rs ≤ max
      → verify_chain digest (append_all re digest (fresh max) dir rs).1 ≡ some (true, n + length rs)
  verify_chain-append_all max hi n dir rs d v o room =
      let (h, e) = verify_chain-true dir n v in
      let (h', p) = scan_files-append_all (fresh max) hi dir rs h n o (omega arith) d e in
      unfold verify_chain in rw p
