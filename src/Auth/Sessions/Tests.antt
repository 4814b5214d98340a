-- ===== src/Auth/Sessions/Tests.antt =====
-- Signing out user 7, who has a session with two tokens, while Redis is down.
use mytrackr_backend.Prelude.{◌≡◌, refl, true, false, none, some, [], ◌∷◌}
use mytrackr_backend.Auth.Sessions.{
  RevokedToken, SessionStore, find_token, is_token_revoked, revoke_and_blacklist_all_for_user,
}
use mytrackr_backend.Auth.Sessions.Revoked.{revoke_and_blacklist_all_for_user-is_token_revoked}

abbrev access_token : RevokedToken
access_token = record { jti = "access"; user = 7; session = some 1; revoked_at = none }

abbrev refresh_row : RevokedToken
refresh_row = record { jti = "refresh"; user = 7; session = some 1; revoked_at = none }

abbrev signed_in : SessionStore
signed_in = record {
  sessions = record { id = 1; user = 7; last_active_at = 5; revoked_at = none } ∷ [];
  tokens = access_token ∷ refresh_row ∷ [];
  blacklisted = [];
  next_id = 2;
}

access_found : find_token "access" signed_in.tokens ≡ some access_token
unfolding find_token
access_found = refl

revoke_and_blacklist_all_for_user-is_token_revoked_example :
    is_token_revoked true 90 "access" (revoke_and_blacklist_all_for_user false 10 7 signed_in)
    ≡ true
revoke_and_blacklist_all_for_user-is_token_revoked_example =
    revoke_and_blacklist_all_for_user-is_token_revoked false 10 7 signed_in "access" access_token
      true 90 access_found refl
