-- ===== src/Auth/Tests.antt =====
-- Runs of the manager on small inputs.
use pay_shield.Prelude.{◌≡◌, ◌≢◌, refl, String, Option, none, some, [], ◌∷◌, str_eq, if◌then◌else◌}
use pay_shield.Auth.{
  Payload, AuthManager, verify_api_key, verify_access_token, refresh_access_token, revoke_token,
}
use pay_shield.Auth.Keys.{verify_api_key_prefix}
use pay_shield.Auth.Tokens.{refresh_access_token_once, revoke_token_ignored}

abbrev sha256 : String → String
sha256 s = s

abbrev manager : AuthManager
manager = record {
  api_keys =
      ("hash", record { key_id = "1"; key_prefix = "psk"; role = "system"; name = "dev-key" }) ∷ [];
  revoked_tokens = [];
}

abbrev claims : Payload
claims = record { sub = "u1"; role = "analyst"; jti = "id1" }

abbrev decode : String → Option Payload
decode s = if str_eq s "token" then some claims else none

verify_api_key_prefix_example : verify_api_key sha256 manager "psk-guess" ≢ none
verify_api_key_prefix_example = verify_api_key_prefix sha256 manager "psk-guess" refl

refresh_access_token_once_example :
    let m' = (refresh_access_token decode manager "token").1 in
    (refresh_access_token decode m' "token" ≡ (none, m'))
    × (verify_access_token decode m' "token" ≡ none)
refresh_access_token_once_example =
    refresh_access_token_once decode manager "token" claims refl refl

revoke_token_ignored_example :
    verify_access_token decode (revoke_token manager "token") "token"
    ≡ verify_access_token decode manager "token"
revoke_token_ignored_example = revoke_token_ignored decode manager "token" "token" claims refl refl
