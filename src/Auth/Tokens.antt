-- ===== src/Auth/Tokens.antt =====
-- api/auth.py: refresh and revocation of tokens.
use pay_shield.Prelude.{◌≡◌, refl, String, false, Option, none, some, str_eq, eq_iff}
use pay_shield.Auth.{
  Payload, AuthManager, mentions, verify_access_token, refresh_access_token, revoke_token,
}

module _ (decode : String → Option Payload) where
  -- A refresh that succeeds uses the token up: neither a second refresh nor an access check accepts
  -- it, and the second refresh changes nothing.
  pub refresh_access_token_once :
      (m : AuthManager) (token : String) (p : Payload)
      → decode token ≡ some p
      → mentions m.revoked_tokens p.jti ≡ false
      → let m' = (refresh_access_token decode m token).1 in
        (refresh_access_token decode m' token ≡ (none, m'))
        × (verify_access_token decode m' token ≡ none)
  unfolding refresh_access_token verify_access_token
  refresh_access_token_once m token p d n =
      let same = (eq_iff p.jti p.jti).1 refl in (rw (d, n, same) refl, rw (d, n, same) refl)

  -- Revoking a token leaves every check as it was, its own too, unless the text of the token is the
  -- id in the checked token.
  pub revoke_token_ignored :
      (m : AuthManager) (token other : String) (p : Payload)
      → decode other ≡ some p
      → str_eq token p.jti ≡ false
      → verify_access_token decode (revoke_token m token) other ≡ verify_access_token decode m other
  unfolding verify_access_token revoke_token
  revoke_token_ignored m token other p d n = rw (d, n) refl
