-- ===== src/Score/Record.antt =====
-- api/routes/score.py, `_record_and_build_features`: what the lists of Redis hold, and that a payment
-- is recorded once.
use pay_shield.Prelude.{
  ℕ, ◌≤◌, String, ◌≡◌, refl, sym, ap, ap₂, ◌∙◌, subst, Bool, true, false, false≢true, Option, none,
  some, List, [], ◌∷◌, All, Bool-cases, inl, inr, ◌⊎◌, str_eq, if◌then◌else◌, length, take, zero,
  suc, length-take-le, not, ◌&&◌, arith,
}
use pay_shield.Prelude.Float.{Float}
use pay_shield.Score.Answers.{put_same}
use pay_shield.Score.History.{
  ScoreRequest, Place, HistoryEntry, HistoryItem, unreadable, keyless, recorded, History, Maths,
  Faults, RouteFeatures, put, device_of, pushed, history_entry, record_txn, parse_entries,
  derive_features, write_location, read_list, features_of, record_and_build_features, or_record,
}

abbrev is_keyed : {F : Type 0} → HistoryItem F → Bool
is_keyed keyless = false
is_keyed _ = true

-- at most 1000 items, none of which lacks a key
abbrev IsList : {F : Type 0} → List (HistoryItem F) → Type 0
IsList xs = (length xs ≤ 1_000) × All (λ r. is_keyed r ≡ true) xs

abbrev pub IsSound : {F : Type 0} → History F → Type 0
IsSound h = ((u : String) → IsList (h.user_txns u)) × ((d : String) → IsList (h.dev_txns d))

All-take : {A : Type 0} (P : A → Type 0) (n : ℕ) (xs : List A) → All P xs → All P (take n xs)
All-take P zero xs h = tt
All-take P (suc n) [] h = tt
All-take P (suc n) (x ∷ xs) (p, h) = (p, All-take P n xs h)

module _ {F : Type 0} where
  pushed-IsList :
      (t : ScoreRequest F) (xs : List (HistoryItem F))
      → IsList xs
      → IsList (pushed (history_entry t) xs)
  pushed-IsList t xs (h, k) = (
    length-take-le 1_000 (history_entry t ∷ xs),
    All-take (λ r. is_keyed r ≡ true) 1_000 (history_entry t ∷ xs) (refl, k),
  )

  put-IsList :
      (m : String → List (HistoryItem F)) (k : String) (xs : List (HistoryItem F))
      → ((u : String) → IsList (m u))
      → IsList xs
      → (u : String) → IsList (put m k xs u)
  put-IsList m k xs h p u = elim (Bool-cases (str_eq k u)) [ inl e ↦ rw e p | inr e ↦ rw e (h u) ]

  record_txn-IsSound :
      (fl : Faults) (h : History F) (t : ScoreRequest F) → IsSound h → IsSound (record_txn fl h t)
  unfolding record_txn
  record_txn-IsSound fl h t (p, q) = elim (Bool-cases fl.pipeline) [
    | inl e ↦ rw e (p, q)
    | inr e ↦ rw e (
      put-IsList h.user_txns t.user_id _ p (pushed-IsList t _ (p t.user_id)),
      put-IsList h.dev_txns (device_of t) _ q (pushed-IsList t _ (q (device_of t))),
    )
  ]

  parse_entries_keyed :
      (xs : List (HistoryItem F))
      → All (λ r. is_keyed r ≡ true) xs
      → (es : List (HistoryEntry F)) × (parse_entries xs ≡ some es)
  unfolding parse_entries
  parse_entries_keyed [] h = ([], refl)
  parse_entries_keyed (unreadable ∷ xs) (p, h) = parse_entries_keyed xs h
  parse_entries_keyed (keyless ∷ xs) (p, h) = absurd (false≢true p)
  parse_entries_keyed (recorded e ∷ xs) (p, h) =
      let (es, q) = parse_entries_keyed xs h in (e ∷ es, rw q refl)

  -- the lists and the marks of two histories agree
  abbrev pub IsSame : History F → History F → Type 0
  IsSame h h' = (h'.user_txns ≡ h.user_txns) × ((h'.dev_txns ≡ h.dev_txns) × (h'.seen ≡ h.seen))

  write_location-IsSame :
      (fl : Faults) (t : ScoreRequest F) (p : Option (Place F)) (h : History F)
      → IsSame h (write_location fl t p h)
  write_location-IsSame fl t none h = (refl, (refl, refl))
  write_location-IsSame fl t (some p) h = elim (Bool-cases fl.location_write) [
    | inl e ↦ rw e (refl, (refl, refl))
    | inr e ↦ rw e (refl, (refl, refl))
  ]

  IsSame-IsSound : (h h' : History F) → IsSame h h' → IsSound h → IsSound h'
  IsSame-IsSound h h' (a, (b, c)) (p, q) =
      (λ u. subst (λ m. IsList (m u)) (sym a) (p u), λ d. subst (λ m. IsList (m d)) (sym b) (q d))

  record_txn-seen :
      (fl : Faults) (h : History F) (t : ScoreRequest F)
      → fl.pipeline ≡ false
      → (record_txn fl h t).seen t.txn_id ≡ true
  unfolding record_txn
  record_txn-seen fl h t n = rw n (put_same h.seen t.txn_id true)

module _ {F : Type 0} ⦃f : Float F⦄ where
  derive-IsSame :
      (m : Maths F) (fl : Faults) (h : History F) (t : ScoreRequest F)
      → IsSame h (derive_features m fl h t).1
  unfolding derive_features
  derive-IsSame m fl h t = write_location-IsSame fl t t.location h

  -- a list that is read, whether or not the read fails, can be parsed
  read_parses :
      (failed : Bool) (xs : List (HistoryItem F))
      → IsList xs
      → (es : List (HistoryEntry F)) × (parse_entries (read_list failed xs) ≡ some es)
  read_parses true xs h = parse_entries_keyed [] tt
  read_parses false xs h = parse_entries_keyed xs h.1

  derive-some :
      (m : Maths F) (fl : Faults) (h : History F) (t : ScoreRequest F)
      → IsSound h
      → (x : RouteFeatures F) × ((derive_features m fl h t).0 ≡ some x)
  unfolding derive_features
  derive-some m fl h t (p, q) =
      let (us, a) = read_parses fl.user_read (h.user_txns t.user_id) (p t.user_id) in
      let (ds, b) = read_parses fl.device_read (h.dev_txns (device_of t)) (q (device_of t)) in
      (_, ap₂ (features_of m t (if fl.location_read then none else h.locations t.user_id)) a b)

  or_record-some :
      (m : Maths F) (fl : Faults) (t : ScoreRequest F) (out : Option (RouteFeatures F) × History F)
      (x : RouteFeatures F)
      → out.0 ≡ some x
      → or_record m fl t out ≡ out
  or_record-some m fl t (some y, h) x e = refl
  or_record-some m fl t (none, h) x e = absurd (cc e)

  build-cases :
      (m : Maths F) (fl : Faults) (h : History F) (t : ScoreRequest F)
      → IsSound h
      → ((h.seen t.txn_id ≡ true) × (record_and_build_features m fl h t ≡ derive_features m fl h t))
        ⊎ ((not fl.dedupe_check && h.seen t.txn_id ≡ false)
            × (record_and_build_features m fl h t ≡ derive_features m fl (record_txn fl h t) t))
  unfolding record_and_build_features
  build-cases m fl h t s = elim (Bool-cases (not fl.dedupe_check && h.seen t.txn_id)) [
    | inl e ↦
        let (x, d) = derive-some m fl h t s in
        inl (ground arith, rw e (or_record-some m fl t (derive_features m fl h t) x d))
    | inr e ↦ inr (e, rw e refl)
  ]

  pub build-IsSound :
      (m : Maths F) (fl : Faults) (h : History F) (t : ScoreRequest F)
      → IsSound h
      → IsSound (record_and_build_features m fl h t).1
  build-IsSound m fl h t s = elim (build-cases m fl h t s) [
    | inl (e, b) ↦ rw b (IsSame-IsSound h (derive_features m fl h t).1 (derive-IsSame m fl h t) s)
    | inr (e, b) ↦
        let h' = record_txn fl h t in
        rw b (
          IsSame-IsSound h' (derive_features m fl h' t).1 (derive-IsSame m fl h' t)
            (record_txn-IsSound fl h t s))
  ]

  -- once recorded, a payment is marked
  pub build-seen :
      (m : Maths F) (fl : Faults) (h : History F) (t : ScoreRequest F)
      → IsSound h
      → fl.pipeline ≡ false
      → (record_and_build_features m fl h t).1.seen t.txn_id ≡ true
  build-seen m fl h t s n = elim (build-cases m fl h t s) [
    | inl (e, b) ↦ rw b (ap (λ k. k t.txn_id) (derive-IsSame m fl h t).1.1 ∙ e)
    | inr (e, b) ↦ rw b (
        ap (λ k. k t.txn_id) (derive-IsSame m fl (record_txn fl h t) t).1.1
        ∙ record_txn-seen fl h t n)
  ]

  -- a payment that is marked is not recorded again
  pub build-again :
      (m : Maths F) (fl : Faults) (h : History F) (t : ScoreRequest F)
      → IsSound h
      → fl.dedupe_check ≡ false
      → h.seen t.txn_id ≡ true
      → IsSame h (record_and_build_features m fl h t).1
  build-again m fl h t s n k = elim (build-cases m fl h t s) [
    | inl (e, b) ↦ rw b (derive-IsSame m fl h t)
    | inr (e, b) ↦ absurd (ground arith)
  ]
