-- ===== src/Audit/Names.antt =====
-- store/audit_log.py: file names and the log directory, kept in the order of `sorted(os.listdir())`.
use pay_shield.Prelude.{
  ℕ, Bool, true, false, Option, none, some, List, [], ◌∷◌, ◌++◌, ◌&&◌, ◌||◌, ltb, ◌==◌,
  if◌then◌else◌,
}

-- `audit_{day}.jsonl`, or `audit_{day}_{time}.jsonl` for a file that a rotation opened
pub record FileName : Type 0 where
  pub day : ℕ
  pub time : Option ℕ

abbrev time_eq : Option ℕ → Option ℕ → Bool
time_eq none none = true
time_eq (some a) (some b) = a == b
time_eq _ _ = false

-- "." sorts before "_"
abbrev time_before : Option ℕ → Option ℕ → Bool
time_before none (some b) = true
time_before (some a) (some b) = ltb a b
time_before _ none = false

abbrev pub name_eq : FileName → FileName → Bool
name_eq a b = a.day == b.day && time_eq a.time b.time

abbrev pub name_before : FileName → FileName → Bool
name_before a b = ltb a.day b.day || (a.day == b.day && time_before a.time b.time)

abbrev pub Dir : Type 0 → Type 0
Dir L = List (FileName × List L)

-- `open(path, "a")` and one `write`: the file is created if it is not there
unfoldable pub write_line : {L : Type 0} → Dir L → FileName → L → Dir L
write_line [] n l = (n, l ∷ []) ∷ []
write_line ((m, ls) ∷ rest) n l =
    let later = write_line rest n l in
    if name_eq m n
    then (m, ls ++ l ∷ []) ∷ rest
    else if name_before n m
    then (n, l ∷ []) ∷ (m, ls) ∷ rest
    else (m, ls) ∷ later
