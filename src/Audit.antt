-- ===== src/Audit.antt =====
-- store/audit_log.py, `AuditLogWriter`: the hash-chained log as a directory of files of lines.
-- A hex digest is the number that it spells, so "0" * 64 is 0; the name `audit_{day}.jsonl` is
-- `(day, none)` and `audit_{day}_{time}.jsonl` is `(day, some time)`, which sort as the names do
-- ("." comes before "_", and the parts have fixed widths). `digest` stands for SHA-256 of the
-- canonical JSON of the masked fields and the previous hash. An isoformat timestamp is a number
-- that orders as the text does.
pub mod Names
pub mod Masker
mod Daily
pub mod Verify
pub mod Tamper
pub mod Rotation
pub mod Reader
pub mod Queue
mod Tests
use pay_shield.Prelude.{
  ℕ, ◌+◌, String, Bool, true, false, Option, none, some, List, [], ◌∷◌, ◌++◌, leb, ◌==◌, not,
  if◌then◌else◌,
}
use Names.{FileName, name_eq, Dir, write_line}
use Masker.{Fields, Regex, mask, mask_dict}

-- the keys of an entry that are hashed beside `prev_hash`
pub record Body : Type 0 where
  pub timestamp : ℕ
  pub event_type : String
  pub actor : String
  pub decision : String
  pub payload : Fields

pub record Entry : Type 0 where
  pub body : Body
  pub prev_hash : ℕ
  pub hash : ℕ

-- a line of a file: blank, not JSON, or an entry
pub data Line : Type 0 where
  blank corrupt : Line
  entry : Entry → Line

abbrev pub genesis : ℕ
genesis = 0

-- the hash of the last line that is not blank; an unreadable one counts as the start of a chain
unfoldable pub hash_after : ℕ → List Line → ℕ
hash_after h [] = h
hash_after h (blank ∷ ls) = hash_after h ls
hash_after h (corrupt ∷ ls) = hash_after genesis ls
hash_after h (entry e ∷ ls) = hash_after e.hash ls

-- `_last_hash`, with `_latest_file`: only the last file is read
unfoldable pub last_hash : Dir Line → ℕ
unfolding hash_after
last_hash [] = genesis
last_hash ((n, ls) ∷ []) = hash_after genesis ls
last_hash ((n, ls) ∷ f ∷ rest) = last_hash (f ∷ rest)

-- what `verify_chain` has found so far; `crashed` is the exception of `json.loads`
pub data Scan : Type 0 where
  going : ℕ → ℕ → Scan
  broken : ℕ → Scan
  crashed : Scan

abbrev pub continue : Scan → (ℕ → ℕ → Scan) → Scan
continue (going h n) k = k h n
continue (broken n) k = broken n
continue crashed k = crashed

-- the results of `verify_chain`; `none` is an exception
abbrev pub verdict : Scan → Option (Bool × ℕ)
verdict (going h n) = some (true, n)
verdict (broken n) = some (false, n)
verdict crashed = none

module _ (digest : Body → ℕ → ℕ) where
  -- the inner loop of `verify_chain`, over the lines of one file
  unfoldable pub scan : ℕ → ℕ → List Line → Scan
  scan h n [] = going h n
  scan h n (blank ∷ ls) = scan h n ls
  scan h n (corrupt ∷ ls) = crashed
  scan h n (entry e ∷ ls) =
      let rest = scan e.hash (n + 1) ls in
      if not (e.prev_hash == h)
      then broken n
      else if not (digest e.body e.prev_hash == e.hash)
      then broken n
      else rest

  unfoldable pub scan_files : ℕ → ℕ → Dir Line → Scan
  scan_files h n [] = going h n
  scan_files h n ((_, ls) ∷ rest) = continue (scan h n ls) (λ h' n'. scan_files h' n' rest)

  unfoldable pub verify_chain : Dir Line → Option (Bool × ℕ)
  verify_chain dir = verdict (scan_files genesis 0 dir)

pub record Writer : Type 0 where
  pub max_entries_per_file : ℕ
  pub current_file : Option FileName
  pub entry_count : ℕ

abbrev pub fresh : ℕ → Writer
fresh n = record { max_entries_per_file = n; current_file = none; entry_count = 0 }

-- one call of `append`, with the clock that it reads: the date, the time of day, the timestamp
pub record Request : Type 0 where
  pub day : ℕ
  pub time : ℕ
  pub stamp : ℕ
  pub event_type : String
  pub actor : String
  pub decision : String
  pub payload : Fields

abbrev pub today_file : Request → FileName
today_file r = record { day = r.day; time = none }

abbrev pub rotated_file : Request → FileName
rotated_file r = record { day = r.day; time = some r.time }

abbrev is_current : Option FileName → FileName → Bool
is_current none n = false
is_current (some m) n = name_eq m n

-- the two tests on `_current_file` and `_entry_count`: the file to write, and its count so far
unfoldable pub target : Writer → Request → FileName × ℕ
target w r =
    let file = today_file r in
    if is_current w.current_file file
    then (if leb w.max_entries_per_file w.entry_count
        then (rotated_file r, 0)
        else (file, w.entry_count))
    else (if leb w.max_entries_per_file 0 then (rotated_file r, 0) else (file, 0))

abbrev pub masked_body : Regex → Request → Body
masked_body re r = record {
  timestamp = r.stamp;
  event_type = r.event_type;
  actor = mask re r.actor;
  decision = r.decision;
  payload = mask_dict re r.payload;
}

module _ (re : Regex) (digest : Body → ℕ → ℕ) where
  abbrev pub make_entry : Dir Line → Request → Entry
  make_entry dir r =
      let prev = last_hash dir in
      let body = masked_body re r in
      record { body = body; prev_hash = prev; hash = digest body prev }

  unfoldable pub append : Writer → Dir Line → Request → Writer × Dir Line
  unfolding target
  append w dir r =
      let (file, count) = target w r in
      (
        record w { current_file = some file; entry_count = count + 1 },
        write_line dir file (entry (make_entry dir r)),
      )

  unfoldable pub append_all : Writer → Dir Line → List Request → Writer × Dir Line
  append_all w dir [] = (w, dir)
  append_all w dir (r ∷ rs) = let (w', dir') = append w dir r in append_all w' dir' rs

-- `AuditLogReader.read_all`: a line that is not JSON is passed over
unfoldable pub read_lines : List Line → List Entry
read_lines [] = []
read_lines (blank ∷ ls) = read_lines ls
read_lines (corrupt ∷ ls) = read_lines ls
read_lines (entry e ∷ ls) = e ∷ read_lines ls

unfoldable pub read_all : Dir Line → List Entry
unfolding read_lines
read_all [] = []
read_all ((_, ls) ∷ rest) = read_lines ls ++ read_all rest
