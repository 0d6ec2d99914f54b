-- ===== src/Audit/Rotation.antt =====
-- A file that is full: `append` opens a second file for the day, and goes back to the first one.
use pay_shield.Prelude.{
  ℕ, suc, ◌≤◌, ◌<◌, ◌≡◌, ◌≢◌, refl, sym, ◌∙◌, ap, ap₂, true, false, some, List, [], ◌∷◌, ◌++◌,
  arith,
}
use pay_shield.Audit.Names.{FileName, Dir, write_line}
use pay_shield.Audit.Masker.{Regex}
use pay_shield.Audit.{
  Body, Entry, Line, entry, genesis, hash_after, last_hash, Scan, going, broken, continue, scan,
  scan_files, verify_chain, Writer, Request, target, today_file, rotated_file, make_entry, append,
  append_all,
}
use pay_shield.Audit.Daily.{
  IsDaily, daily, write_here, write_later, continue_going, scan-append, last_hash-scan,
}
use pay_shield.Audit.Verify.{verify_chain-true}

-- The last file of the directory is that of `day`.
abbrev pub EndsAt : ℕ → Dir Line → Type 0
EndsAt day [] = ⊥
EndsAt day ((n, ls) ∷ []) = n.day ≡ day
EndsAt day (f ∷ g ∷ rest) = EndsAt day (g ∷ rest)

abbrev rotated : ℕ → ℕ → FileName
rotated d t = record { day = d; time = some t }

write_rotated :
    (lo hi t : ℕ) (dir : Dir Line) (l : Line)
    → IsDaily lo hi dir
    → write_line dir (rotated hi t) l ≡ dir ++ (rotated hi t, l ∷ []) ∷ []
unfolding write_line
write_rotated lo hi t [] l d = refl
write_rotated lo hi t ((n, ls) ∷ rest) l (u, a, b, x, d) =
    ground (arith, write_rotated (suc n.day) hi t rest l d)

module _ (digest : Body → ℕ → ℕ) where
  -- an entry that does not carry the hash of the file it lands in, with anything behind it
  broken_tail :
      (h0 n0 h n : ℕ) (ls : List Line) (e : Entry) (k : ℕ → ℕ → Scan)
      → scan digest h0 n0 ls ≡ going h n
      → e.prev_hash ≢ h
      → continue (scan digest h0 n0 (ls ++ entry e ∷ [])) k ≡ broken n
  broken_tail h0 n0 h n ls e k p ne =
      rw (scan-append digest h0 n0 ls (entry e ∷ []), p) (unfold scan in ground arith)

  scan_files_broken :
      (h0 n0 lo hi t h n : ℕ) (dir : Dir Line) (l : Line) (e : Entry)
      → IsDaily lo hi dir
      → EndsAt hi dir
      → scan_files digest h0 n0 dir ≡ going h n
      → e.prev_hash ≢ h
      → scan_files digest h0 n0
          (write_line (dir ++ (rotated hi t, l ∷ []) ∷ []) (daily hi) (entry e))
        ≡ broken n
  unfolding scan_files
  scan_files_broken h0 n0 lo hi t h n [] l e d s p ne = absurd s
  scan_files_broken h0 n0 lo hi t h n ((m, ls) ∷ []) l e (u, a, b, x, d) s p ne =
      let (h', n', q, q') = continue_going (scan digest h0 n0 ls) going p in
      rw (write_here m ls ((rotated hi t, l ∷ []) ∷ []) hi (entry e) u s)
        (broken_tail h0 n0 h n ls e _ (q ∙ q') ne)
  scan_files_broken h0 n0 lo hi t h n ((m, ls) ∷ (g, gs) ∷ rest) l e (u, a, b, x, d) s p ne =
      let (h', n', q, q') =
        continue_going (scan digest h0 n0 ls) (λ i j. scan_files digest i j ((g, gs) ∷ rest)) p in
      rw
        (write_later m ls ((g, gs) ∷ rest ++ (rotated hi t, l ∷ []) ∷ []) hi (entry e) u
          (omega arith))
        (rw q (scan_files_broken h' n' (suc m.day) hi t h n ((g, gs) ∷ rest) l e d s q' ne))

-- a full file, and then a day's first file with room
target_full :
    (w : Writer) (r : Request)
    → w.current_file ≡ some (today_file r)
    → w.max_entries_per_file ≤ w.entry_count
    → (target w r).0 ≡ rotated_file r
unfolding target
target_full w r c full = ground arith

target_back :
    (w : Writer) (r : Request) (d t : ℕ)
    → w.current_file ≡ some (rotated d t)
    → 0 < w.max_entries_per_file
    → (target w r).0 ≡ today_file r
unfolding target
target_back w r d t c room = ground arith

last_hash-snoc :
    (dir : Dir Line) (n : FileName) (ls : List Line)
    → last_hash (dir ++ (n, ls) ∷ []) ≡ hash_after genesis ls
unfolding last_hash
last_hash-snoc [] n ls = refl
last_hash-snoc (f ∷ []) n ls = refl
last_hash-snoc (f ∷ g ∷ rest) n ls = last_hash-snoc (g ∷ rest) n ls

module _ (re : Regex) (digest : Body → ℕ → ℕ) where
  -- the two appends: the first opens a second file, the second goes to the first file again
  append_rotated :
      (w : Writer) (dir : Dir Line) (r s : Request)
      → IsDaily 0 r.day dir
      → s.day ≡ r.day
      → w.current_file ≡ some (today_file r)
      → 0 < w.max_entries_per_file
      → w.max_entries_per_file ≤ w.entry_count
      → (e : Entry) × (e.prev_hash ≡ (make_entry re digest dir r).hash)
        × ((append_all re digest w dir (r ∷ s ∷ [])).1
            ≡ write_line
                (dir ++ (rotated r.day r.time, entry (make_entry re digest dir r) ∷ []) ∷ [])
                (daily r.day)
                (entry e))
  unfolding append_all append hash_after
  append_rotated w dir r s d sd c room full =
      let (w', middle) = append re digest w dir r in
      let first : Line = entry (make_entry re digest dir r) in
      let file = target_full w r c full in
      let grown : middle ≡ dir ++ (rotated r.day r.time, first ∷ []) ∷ [] =
        rw file (write_rotated 0 r.day r.time dir first d) in
      let back = target_back w' s r.day r.time (ap some file) room in
      (
        make_entry re digest middle s,
        rw grown (last_hash-snoc dir (rotated r.day r.time) (first ∷ [])),
        ap₂ (λ x f. write_line x f (entry (make_entry re digest middle s))) grown
            (back ∙ ap daily sd),
      )

  -- Let the writer's present file be that of today, the last of a log of daily files that verifies
  -- with n entries, and let it be full. Then after two more appends today the log does not verify:
  -- the first entry opens a second file, the second one goes back to the first file, where it does
  -- not carry the hash of the entry above it. (The two hashes are taken to differ.)
  pub verify_chain_after_rotation :
      (w : Writer) (n : ℕ) (dir : Dir Line) (r s : Request)
      → IsDaily 0 r.day dir
      → EndsAt r.day dir
      → verify_chain digest dir ≡ some (true, n)
      → s.day ≡ r.day
      → w.current_file ≡ some (today_file r)
      → 0 < w.max_entries_per_file
      → w.max_entries_per_file ≤ w.entry_count
      → (make_entry re digest dir r).hash ≢ last_hash dir
      → verify_chain digest (append_all re digest w dir (r ∷ s ∷ [])).1 ≡ some (false, n)
  verify_chain_after_rotation w n dir r s d ends v day c room full ne =
      let (h, p) = verify_chain-true re digest dir n v in
      let (e, carried, same) = append_rotated w dir r s d day c room full in
      let last = last_hash-scan digest 0 r.day dir d p in
      rw same (
        unfold verify_chain in
        rw (
          scan_files_broken digest genesis 0 0 r.day r.time h n dir _ e d ends p
            (λ x. ne (sym carried ∙ x ∙ sym last))))
