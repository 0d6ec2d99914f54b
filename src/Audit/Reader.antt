-- ===== src/Audit/Reader.antt =====
-- store/audit_log.py, `AuditLogReader`: finding the entry of a transaction, and finding what was
-- appended.
use mathlib.Core.List.{append_assoc, append-nil}
use mathlib.Core.Option.{some-injective}
use native.Mathlib.Nat.{le_trans}
use package.text.Mathlib.TextPositions.{eq_refl}
use pay_shield.Prelude.{
  ℕ, suc, ◌≤◌, ◌<◌, String, ◌≡◌, refl, sym, subst, ap, Bool, true, false, ◌&&◌, Option, none, some,
  List, [], ◌∷◌, ◌++◌, arith, ltb, str_eq, eq_iff, dec_lt, filter, All, filter-append,
  if◌then◌else◌, Bool-cases, inl, inr, ◌⊎◌,
}
use pay_shield.Audit.Names.{Dir, write_line}
use pay_shield.Audit.Masker.{
  Value, text, Fields, end, field, Regex, mask_nested, mask_dict, is_sensitive,
}
use pay_shield.Audit.{
  Body, Entry, Line, blank, corrupt, entry, Writer, Request, make_entry, append, read_lines,
  read_all,
}
use pay_shield.Audit.Daily.{IsDaily, IsDaily-mono, IsDaily-empty, daily, write_here, write_later}
use pay_shield.Audit.Verify.{target_today}

-- `payload.get(key)`
unfoldable pub get_field : String → Fields → Option Value
get_field k end = none
get_field k (field j v rest) = if str_eq j k then some v else get_field k rest

abbrev is_text : String → Option Value → Bool
is_text s (some (text t)) = str_eq t s
is_text s _ = false

unfoldable pub get_entries : String → Dir Line → List Entry
get_entries kind dir = filter (λ e. str_eq e.body.event_type kind) (read_all dir)

unfoldable pub is_candidate : String → Entry → Bool
is_candidate id e =
    str_eq e.body.event_type "SCORE_DECISION" && is_text id (get_field "txn_id" e.body.payload)

abbrev pub stamp : Entry → ℕ
stamp e = e.body.timestamp

unfoldable pub newer : Entry → Entry → Entry
newer best e = if ltb (stamp best) (stamp e) then e else best

-- `max(candidates, key=timestamp)`: the first of the greatest
unfoldable pub latest : Entry → List Entry → Entry
latest best [] = best
latest best (e ∷ es) = latest (newer best e) es

abbrev latest? : List Entry → Option Entry
latest? [] = none
latest? (e ∷ es) = some (latest e es)

unfoldable pub get_transaction : Dir Line → String → Option Entry
unfolding is_candidate get_field latest newer
get_transaction dir id = latest? (filter (is_candidate id) (read_all dir))

newer_bounds :
    (best e : Entry) → (stamp best ≤ stamp (newer best e)) × (stamp e ≤ stamp (newer best e))
unfolding newer
newer_bounds best e = ground arith

abbrev IsUpTo : ℕ → List Entry → Type 0
IsUpTo n = All (λ e. stamp e ≤ n)

stamp-latest :
    (best : Entry) (es : List Entry)
    → (stamp best ≤ stamp (latest best es)) × IsUpTo (stamp (latest best es)) es
unfolding latest
stamp-latest best [] = (omega arith, tt)
stamp-latest best (e ∷ es) =
    let (up, rest) = stamp-latest (newer best e) es in
    let (old, new) = newer_bounds best e in (le_trans old up, (le_trans new up, rest))

-- the result is one of the entries that were compared
latest_among :
    (P : Entry → Type 0) (best : Entry) (es : List Entry) → P best → All P es → P (latest best es)
unfolding latest
latest_among P best [] h hs = h
latest_among P best (e ∷ es) h (c, hs) =
    latest_among P (newer best e) es (chosen (Bool-cases (ltb (stamp best) (stamp e)))) hs
  where
    chosen :
        (ltb (stamp best) (stamp e) ≡ true) ⊎ (ltb (stamp best) (stamp e) ≡ false)
        → P (newer best e)
    chosen (inl x) = unfold newer in rw x c
    chosen (inr x) = unfold newer in rw x h

-- The entries of the log that are scoring decisions of the transaction.
abbrev pub candidates : Dir Line → String → List Entry
candidates dir id = filter (is_candidate id) (read_all dir)

All-filter : (p : Entry → Bool) (es : List Entry) → All (λ e. p e ≡ true) (filter p es)
All-filter p [] = tt
All-filter p (e ∷ es) = elim (Bool-cases (p e)) [
  | inl x ↦ rw x (x, All-filter p es)
  | inr x ↦ rw x (All-filter p es)
]

latest?_lem :
    (P : Entry → Type 0) (es : List Entry) (e : Entry)
    → latest? es ≡ some e
    → All P es
    → P e × IsUpTo (stamp e) es
latest?_lem P [] e h hs = absurd (cc h)
latest?_lem P (x ∷ es) e h (p, ps) =
    let q = some-injective _ _ h in
    let (up, rest) = stamp-latest x es in
    subst (λ y. P y × IsUpTo (stamp y) (x ∷ es)) q (latest_among P x es p ps, (up, rest))

-- The entry that is found for a transaction is a scoring decision of it, and no scoring decision of
-- it in the log is later.
pub get_transaction_latest :
    (dir : Dir Line) (id : String) (e : Entry)
    → get_transaction dir id ≡ some e
    → (is_candidate id e ≡ true) × All (λ x. stamp x ≤ stamp e) (candidates dir id)
get_transaction_latest dir id e h =
    latest?_lem (λ x. is_candidate id x ≡ true) (candidates dir id) e (unfold get_transaction in h)
      (All-filter (is_candidate id) (read_all dir))

nested_text :
    (re : Regex) (t : String) (v : Value)
    → some v ≡ some (text t)
    → some (mask_nested re v) ≡ some (text t)
unfolding mask_nested
nested_text re t v h = rw (some-injective _ _ h)

-- a key that is not sensitive keeps its text
get_field-mask_dict :
    (re : Regex) (k t : String) (fs : Fields)
    → is_sensitive re k ≡ false
    → get_field k fs ≡ some (text t)
    → get_field k (mask_dict re fs) ≡ some (text t)
unfolding get_field mask_dict
get_field-mask_dict re k t end s h = h
get_field-mask_dict re k t (field j v rest) s h = elim (Bool-cases (str_eq j k)) [
  | inl x ↦
      let s' = subst (λ z. is_sensitive re z ≡ false) (sym ((eq_iff j k).0 x)) s in
      rw x (rw s' (nested_text re t v (rw x at h)))
  | inr x ↦ rw x (get_field-mask_dict re k t rest s (rw x at h))
]

read_lines-snoc :
    (ls : List Line) (e : Entry) → read_lines (ls ++ entry e ∷ []) ≡ read_lines ls ++ e ∷ []
unfolding read_lines
read_lines-snoc [] e = refl
read_lines-snoc (blank ∷ ls) e = read_lines-snoc ls e
read_lines-snoc (corrupt ∷ ls) e = read_lines-snoc ls e
read_lines-snoc (entry x ∷ ls) e = ap (λ es. x ∷ es) (read_lines-snoc ls e)

read_all-write :
    (lo hi : ℕ) (dir : Dir Line) (e : Entry)
    → IsDaily lo hi dir
    → read_all (write_line dir (daily hi) (entry e)) ≡ read_all dir ++ e ∷ []
unfolding read_all
read_all-write lo hi [] e d = unfold write_line in refl
read_all-write lo hi ((n, ls) ∷ rest) e (t, a, b, x, d) = elim (dec_lt n.day hi) [
  | yes p ↦ rw (write_later n ls rest hi (entry e) t p) (
      rw (read_all-write (suc n.day) hi rest e d)
        (sym (append_assoc (read_lines ls) (read_all rest) _)))
  | no p ↦ rw (write_here n ls rest hi (entry e) t (omega arith)) (here (omega arith))
]
  where
    here :
        n.day ≡ hi
        → read_lines (ls ++ entry e ∷ []) ++ read_all rest
          ≡ (read_lines ls ++ read_all rest) ++ e ∷ []
    here q =
        rw (IsDaily-empty hi rest (subst (λ k. IsDaily (suc k) hi rest) q d)) simp
          (append-nil, read_lines-snoc)

-- entries that are all earlier than the last one
latest-snoc :
    (best e : Entry) (es : List Entry)
    → stamp best < stamp e
    → All (λ x. stamp x < stamp e) es
    → latest best (es ++ e ∷ []) ≡ e
unfolding latest newer
latest-snoc best e [] h hs = ground arith
latest-snoc best e (x ∷ es) h (p, hs) = latest-snoc (newer best x) e es (ground arith) hs

latest?-snoc :
    (e : Entry) (es : List Entry)
    → All (λ x. stamp x < stamp e) es
    → latest? (es ++ e ∷ []) ≡ some e
latest?-snoc e [] hs = unfold latest in refl
latest?-snoc e (x ∷ es) (p, hs) = ap some (latest-snoc x e es p hs)

candidate_kept :
    (re : Regex) (digest : Body → ℕ → ℕ) (dir : Dir Line) (r : Request) (id : String)
    → is_sensitive re "txn_id" ≡ false
    → r.event_type ≡ "SCORE_DECISION"
    → get_field "txn_id" r.payload ≡ some (text id)
    → is_candidate id (make_entry re digest dir r) ≡ true
unfolding is_candidate
candidate_kept re digest dir r id plain kind named =
    rw (kind, get_field-mask_dict re "txn_id" id r.payload plain named) (eq_refl id)

-- After a scoring decision of a transaction has been appended, with room in the file and later than
-- every entry of that transaction, looking the transaction up gives the new entry, with the masked
-- fields. (The masker must not take "txn_id" for a sensitive key.)
pub get_transaction-append :
    (re : Regex) (digest : Body → ℕ → ℕ) (w : Writer) (hi : ℕ) (dir : Dir Line) (r : Request)
    (id : String)
    → IsDaily 0 hi dir
    → hi ≤ r.day
    → w.entry_count < w.max_entries_per_file
    → is_sensitive re "txn_id" ≡ false
    → r.event_type ≡ "SCORE_DECISION"
    → get_field "txn_id" r.payload ≡ some (text id)
    → All (λ e. stamp e < r.stamp) (candidates dir id)
    → get_transaction (append re digest w dir r).1 id ≡ some (make_entry re digest dir r)
unfolding get_transaction append
get_transaction-append re digest w hi dir r id d day room plain kind named earlier =
    let (file, _) = target_today w r room in
    let d' = IsDaily-mono 0 hi r.day dir day d in
    let e = make_entry re digest dir r in
    let found = candidate_kept re digest dir r id plain kind named in
    rw
      (
        file,
        read_all-write 0 r.day dir e d',
        filter-append (is_candidate id) (read_all dir) (e ∷ []),
      )
      (rw found (latest?-snoc e (candidates dir id) earlier))
