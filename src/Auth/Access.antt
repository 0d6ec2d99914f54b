-- ===== src/Auth/Access.antt =====
-- api/rbac.py, `get_current_user`: who a request comes from, by its bearer text and its API key header.
-- `none` is the answer 401; the authentication module is taken to be there.
use pay_shield.Prelude.{◌≡◌, refl, String, Option, none, some}
use pay_shield.Auth.{
  Payload, UserPrincipal, ServicePrincipal, AuthManager, verify_api_key, verify_access_token,
}

pub data Principal : Type 0 where
  user : UserPrincipal → Principal
  service : ServicePrincipal → Principal

abbrev as_service : Option ServicePrincipal → Option Principal
as_service none = none
as_service (some p) = some (service p)

abbrev or_service : Option UserPrincipal → Option ServicePrincipal → Option Principal
or_service none s = as_service s
or_service (some u) s = some (user u)

module _ (sha256 : String → String) (decode : String → Option Payload) where
  unfoldable pub get_current_user : AuthManager → Option String → Option String → Option Principal
  get_current_user m none none = none
  get_current_user m none (some key) = as_service (verify_api_key sha256 m key)
  get_current_user m (some bearer) key =
      or_service (verify_access_token decode m bearer) (verify_api_key sha256 m bearer)

  -- A request whose bearer text is neither an accepted token nor an accepted key is refused, though
  -- its API key header may hold a key that is accepted on its own.
  pub get_current_user_refused :
      (m : AuthManager) (bearer key : String) (p : ServicePrincipal)
      → verify_access_token decode m bearer ≡ none
      → verify_api_key sha256 m bearer ≡ none
      → verify_api_key sha256 m key ≡ some p
      → (get_current_user m (some bearer) (some key) ≡ none)
        × (get_current_user m none (some key) ≡ some (service p))
  unfolding get_current_user
  get_current_user_refused m bearer key p t b k = (rw (t, b) refl, rw k refl)
