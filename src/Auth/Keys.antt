-- ===== src/Auth/Keys.antt =====
-- api/auth.py, `verify_api_key`: who is let in by an API key.
use Prim.Native.String.{slice}
use pay_shield.Prelude.{
  ◌≡◌, ◌≢◌, ap, refl, String, Bool, true, none, some, List, [], ◌∷◌, ◌||◌, any, str_eq, eq_iff,
  starts_with, Bool-cases, Option-cases, inl, inr, false≢true, sym, ◌∙◌,
}
use pay_shield.Auth.{KeyInfo, AuthManager, get, set, by_prefix, verify_api_key, register_api_key}

get-set : (h : String) (i : KeyInfo) (ks : List (String × KeyInfo)) → get (set h i ks) h ≡ some i
get-set h i [] = rw ((eq_iff h h).1 refl) refl
get-set h i ((k, j) ∷ ks) = elim (Bool-cases (str_eq k h)) [
  | inl e ↦ rw (e, e) refl
  | inr e ↦ rw (e, e) (get-set h i ks)
]

-- the header has the prefix of some key
abbrev pub has_prefix : String → List (String × KeyInfo) → Bool
has_prefix header = any (λ k. starts_with header k.1.key_prefix)

by_prefix-found :
    (header : String) (ks : List (String × KeyInfo))
    → has_prefix header ks ≡ true
    → (i : KeyInfo) × (by_prefix header ks ≡ some i)
by_prefix-found header [] h = absurd (false≢true h)
by_prefix-found header ((k, i) ∷ ks) h = elim (Bool-cases (starts_with header i.key_prefix)) [
  | inl e ↦ (i, rw e refl)
  | inr e ↦
      let (j, g) = by_prefix-found header ks (sym (ap (λ b. b || has_prefix header ks) e) ∙ h) in
      (j, rw e g)
]

-- A key that has been registered is accepted afterwards, with the id, role and name it was
-- registered with.
pub verify_api_key-register_api_key :
    (sha256 : String → String) (id key_raw role name : String) (m : AuthManager)
    → verify_api_key sha256 (register_api_key sha256 id key_raw role name m) key_raw
      ≡ some (record { key_id = id; role = role; name = name })
unfolding verify_api_key register_api_key
verify_api_key-register_api_key sha256 id key_raw role name m =
    rw
      (get-set (sha256 key_raw)
        (record { key_id = id; key_prefix = slice key_raw 0 8; role = role; name = name })
        m.api_keys)
      refl

-- Any header that begins with the prefix of some registered key is accepted, whatever follows the
-- prefix and whatever the hash is.
pub verify_api_key_prefix :
    (sha256 : String → String) (m : AuthManager) (header : String)
    → has_prefix header m.api_keys ≡ true
    → verify_api_key sha256 m header ≢ none
unfolding verify_api_key
verify_api_key_prefix sha256 m header h = elim (Option-cases (get m.api_keys (sha256 header))) [
  | inl e ↦ let (i, g) = by_prefix-found header m.api_keys h in rw (e, g) (λ x. cc x)
  | inr (i, e) ↦ rw e (λ x. cc x)
]
