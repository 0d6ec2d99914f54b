-- ===== src/Auth.antt =====
-- api/auth.py, `AuthManager`: API keys and tokens. SHA-256, the ids of new keys, and PyJWT's `decode`
-- with its check of signature and expiry are parameters; `none` from `decode` is its exception. Keys
-- are ASCII text. The fallback without PyJWT and one-time passwords are left out.
pub mod Keys
pub mod Tokens
pub mod Access
mod Tests
use Prim.Native.String.{slice}
use pay_shield.Prelude.{
  ℕ, String, Bool, true, false, Option, none, some, List, [], ◌∷◌, ◌++◌, any, str_eq, starts_with,
  if◌then◌else◌,
}

pub record KeyInfo : Type 0 where
  pub key_id : String
  pub key_prefix : String
  pub role : String
  pub name : String

pub record ServicePrincipal : Type 0 where
  pub key_id : String
  pub role : String
  pub name : String

pub record UserPrincipal : Type 0 where
  pub user_id : String
  pub role : String

-- the claims of a token that the manager reads, with its defaults for missing ones
pub record Payload : Type 0 where
  pub sub : String
  pub role : String
  pub jti : String

-- `_api_keys`, by the hash of the key, and `_revoked_tokens`
pub record AuthManager : Type 0 where
  pub api_keys : List (String × KeyInfo)
  pub revoked_tokens : List String

abbrev pub get : List (String × KeyInfo) → String → Option KeyInfo
get [] h = none
get ((k, i) ∷ ks) h = let rest = get ks h in if str_eq k h then some i else rest

-- `_api_keys[key_hash] = info`
abbrev pub set : String → KeyInfo → List (String × KeyInfo) → List (String × KeyInfo)
set h i [] = (h, i) ∷ []
set h i ((k, j) ∷ ks) = let rest = set h i ks in if str_eq k h then (k, i) ∷ ks else (k, j) ∷ rest

-- the first entry whose prefix the header has
abbrev pub by_prefix : String → List (String × KeyInfo) → Option KeyInfo
by_prefix header [] = none
by_prefix header ((k, i) ∷ ks) =
    let rest = by_prefix header ks in if starts_with header i.key_prefix then some i else rest

abbrev pub or_else : Option KeyInfo → Option KeyInfo → Option KeyInfo
or_else none x = x
or_else (some i) x = some i

abbrev pub principal : Option KeyInfo → Option ServicePrincipal
principal none = none
principal (some i) = some (record { key_id = i.key_id; role = i.role; name = i.name })

abbrev pub mentions : List String → String → Bool
mentions xs s = any (λ x. str_eq x s) xs

module _ (sha256 : String → String) where
  unfoldable pub verify_api_key : AuthManager → String → Option ServicePrincipal
  verify_api_key m header =
      principal (or_else (get m.api_keys (sha256 header)) (by_prefix header m.api_keys))

  unfoldable pub register_api_key : String → String → String → String → AuthManager → AuthManager
  register_api_key id key_raw role name m = record m {
    api_keys =
        set (sha256 key_raw)
          (record { key_id = id; key_prefix = slice key_raw 0 8; role = role; name = name })
          m.api_keys;
  }

module _ (decode : String → Option Payload) where
  abbrev pub admit : AuthManager → Option Payload → Option UserPrincipal
  admit m none = none
  admit m (some p) =
      if mentions m.revoked_tokens p.jti
      then none
      else some (record { user_id = p.sub; role = p.role })

  unfoldable pub verify_access_token : AuthManager → String → Option UserPrincipal
  verify_access_token m token = admit m (decode token)

  -- the claims for the two new tokens, and the manager afterwards
  abbrev pub renew : AuthManager → Option Payload → Option UserPrincipal × AuthManager
  renew m none = (none, m)
  renew m (some p) = if mentions m.revoked_tokens p.jti then (none, m) else (
    some (record { user_id = p.sub; role = p.role }),
    record m { revoked_tokens = p.jti ∷ m.revoked_tokens },
  )

  unfoldable pub refresh_access_token : AuthManager → String → Option UserPrincipal × AuthManager
  refresh_access_token m token = renew m (decode token)

unfoldable pub revoke_token : AuthManager → String → AuthManager
revoke_token m token = record m { revoked_tokens = token ∷ m.revoked_tokens }
