-- ===== src/Audit/Tests.antt =====
-- Runs of the audit log on small inputs.
use pay_shield.Prelude.{
  ℕ, ◌+◌, ◌*◌, ◌≡◌, refl, String, true, false, some, [], ◌∷◌, arith, str_eq, if◌then◌else◌,
}
use pay_shield.Audit.Names.{Dir}
use pay_shield.Audit.Masker.{
  text, num, list, Fields, end, field, Regex, Pattern, pan_16, mask, mask_dict, is_sensitive,
}
use pay_shield.Audit.Masker.Clean.{IsCleanDict, keys, texts, mask_dict-IsCleanDict}
use pay_shield.Audit.{
  Body, Entry, Line, blank, entry, scan, scan_files, verify_chain, Writer, fresh, Request,
  make_entry, append, append_all, read_all, hash_after, last_hash, today_file,
}
use pay_shield.Audit.Verify.{verify_chain-append_all}
use pay_shield.Audit.Tamper.{verify_chain_unique}
use pay_shield.Audit.Rotation.{verify_chain_after_rotation}
use pay_shield.Audit.Reader.{
  get_field, get_transaction, get_transaction-append, is_candidate, stamp,
}
use pay_shield.Audit.Queue.{Item, Moment, AsyncWriter, flush, worker_rounds, flush-worker_rounds}

abbrev digest : Body → ℕ → ℕ
digest b p = b.timestamp * 1_000 + p + 1

-- a masker that knows one card number
abbrev hide : Pattern → String → String
hide pan_16 s = if str_eq s "4111111111111111" then "***" else s
hide _ s = s

abbrev re : Regex
re = record { substitute = hide; lower = λ s. s }

abbrev scored : ℕ → ℕ → String → Request
scored day stamp id = record {
  day = day;
  time = stamp;
  stamp = stamp;
  event_type = "SCORE_DECISION";
  actor = "system";
  decision = "ALLOW";
  payload = field "txn_id" (text id) (field "pan" (text "4111111111111111") end);
}

abbrev first : Request
first = scored 1 10 "t1"

abbrev second : Request
second = scored 1 20 "t2"

abbrev third : Request
third = scored 2 30 "t1"

abbrev e1 : Entry
e1 = make_entry re digest [] first

abbrev log1 : Dir Line
log1 = (today_file first, entry e1 ∷ []) ∷ []

log1_verifies : verify_chain digest log1 ≡ some (true, 1)
unfolding verify_chain scan_files scan last_hash mask_dict is_sensitive mask
log1_verifies = refl

verify_chain-append_all_example :
    verify_chain digest (append_all re digest (fresh 10) log1 (second ∷ third ∷ [])).1
    ≡ some (true, 1 + 2)
verify_chain-append_all_example =
    verify_chain-append_all re digest 10 1 1 log1 (second ∷ third ∷ [])
      (refl, omega arith, omega arith, refl, tt) log1_verifies (omega arith, (omega arith, tt))
      (omega arith)

-- the same entries with a blank line between them
abbrev e2 : Entry
e2 = make_entry re digest log1 third

abbrev two_files : Dir Line
two_files = (today_file first, entry e1 ∷ []) ∷ (today_file third, entry e2 ∷ []) ∷ []

abbrev one_file : Dir Line
one_file = (today_file first, entry e1 ∷ blank ∷ entry e2 ∷ []) ∷ []

verify_chain_unique_example : read_all two_files ≡ read_all one_file
unfolding read_all scan_files scan last_hash hash_after mask_dict is_sensitive mask
verify_chain_unique_example =
    verify_chain_unique digest 40_002 2 two_files one_file
      (
        ((λ _. (refl, refl)), ((λ h. absurd (omega (arith, h))), tt)),
        (((λ h. absurd (omega (arith, h))), ((λ _. (refl, refl)), tt)), tt),
      )
      refl refl

abbrev full : Writer
full = record { max_entries_per_file = 1; current_file = some (today_file first); entry_count = 1 }

verify_chain_after_rotation_example :
    verify_chain digest (append_all re digest full log1 (second ∷ second ∷ [])).1 ≡ some (false, 1)
unfolding last_hash hash_after
verify_chain_after_rotation_example =
    verify_chain_after_rotation re digest full 1 log1 second second
      (refl, omega arith, omega arith, refl, tt) refl log1_verifies refl refl (omega arith)
      (omega arith) (λ h. absurd (omega (arith, h)))

abbrev payload : Fields
payload = field "pan" (num "4111111111111111") (field "tags" (list (texts ("a" ∷ []))) end)

mask_dict-IsCleanDict_example :
    (keys (mask_dict re payload) ≡ keys payload) × IsCleanDict re (mask_dict re payload)
mask_dict-IsCleanDict_example = mask_dict-IsCleanDict re payload

get_transaction-append_example :
    get_transaction (append re digest (fresh 10) log1 third).1 "t1" ≡ some e2
unfolding read_all is_candidate get_field mask_dict is_sensitive mask
get_transaction-append_example =
    get_transaction-append re digest (fresh 10) 1 log1 third "t1"
      (refl, omega arith, omega arith, refl, tt) (omega arith) (omega arith) refl refl refl
      (omega arith, tt)

abbrev item : Item
item = record { event_type = "GRAPH"; actor = "system"; decision = "ALLOW"; payload = end }

abbrev clock : ℕ → Moment
clock i = record { day = 1; time = i; stamp = i }

abbrev waiting : AsyncWriter
waiting = record { max_queue = 3; queue = item ∷ item ∷ []; taken = 0; writer = fresh 10; dir = [] }

flush-worker_rounds_example :
    flush re digest clock (worker_rounds re digest clock waiting (1 ∷ []))
    ≡ flush re digest clock waiting
flush-worker_rounds_example = flush-worker_rounds re digest clock waiting (1 ∷ [])
