-- ===== src/Auth.antt =====
-- ponos/pkg/auth: challenge tokens (tokenManager.go) and the check of a signed one (verifier.go).
-- Times are numbers; the hash of a new UUID is an argument, and so are the signer and the hash.
pub mod Tokens
use hourglass_monorepo.Prelude.{
  ℕ, ◌+◌, Bool, true, false, not, Option, none, some, List, [], ◌∷◌, ltb, if◌then◌else◌, Result, ok,
  err, ◌>>=◌, ◌>>◌, guard, or_fail,
}
use hourglass_monorepo.Text.{Bytes, bytes_beq, to_lower, equal_fold}
use hourglass_monorepo.Dict.{Dict, get, put, remove, bytes_eq}

-- `ChallengeTokenEntry`
pub record ChallengeTokenEntry : Type 0 where
  pub token : Bytes
  pub created_at : ℕ
  pub expires_at : ℕ
  pub used : Bool

-- `ChallengeTokenManager`
pub record ChallengeTokenManager : Type 0 where
  pub tokens : Dict Bytes ChallengeTokenEntry
  pub authorized_entity : Bytes
  pub expiration : ℕ

-- The errors of both files.
pub data AuthError : Type 0 where
  entity_mismatch token_not_found token_already_used token_expired : AuthError
  missing_authentication signing_failed invalid_signature : AuthError

-- `NewChallengeTokenManager`
unfoldable pub new_challenge_token_manager : Bytes → ℕ → ChallengeTokenManager
new_challenge_token_manager authorized_entity expiration = record {
  tokens = [];
  authorized_entity = to_lower authorized_entity;
  expiration = expiration;
}

-- `ChallengeTokenManager.GenerateChallengeToken`
unfoldable pub generate_challenge_token :
    ChallengeTokenManager
    → Bytes
    → Bytes
    → ℕ
    → Result AuthError (ChallengeTokenManager × ChallengeTokenEntry)
generate_challenge_token ctm entity token now = do
  guard (equal_fold entity ctm.authorized_entity) entity_mismatch
  let entry : ChallengeTokenEntry = record {
    token = token;
    created_at = now;
    expires_at = now + ctm.expiration;
    used = false;
  }
  ok (record ctm { tokens = put token entry ctm.tokens }, entry)

-- `UseChallengeToken`
unfoldable pub use_challenge_token :
    ChallengeTokenManager → Bytes → ℕ → Result AuthError ChallengeTokenManager
use_challenge_token ctm token now = do
  entry ← or_fail (get token ctm.tokens) token_not_found
  guard (not entry.used) token_already_used
  guard (not (ltb entry.expires_at now)) token_expired
  ok (record ctm { tokens = put token (record entry { used = true }) ctm.tokens })

-- The loop of `cleanupExpiredTokens` at one tick: over the entries, deleting from the map.
unfoldable pub drop_expired :
    ℕ
    → Dict Bytes ChallengeTokenEntry
    → Dict Bytes ChallengeTokenEntry
    → Dict Bytes ChallengeTokenEntry
drop_expired now [] tokens = tokens
drop_expired now ((token, entry) ∷ entries) tokens =
    drop_expired now entries (if ltb entry.expires_at now then remove token tokens else tokens)

-- One tick of `cleanupExpiredTokens`
abbrev pub cleanup_expired_tokens : ChallengeTokenManager → ℕ → ChallengeTokenManager
cleanup_expired_tokens ctm now = record ctm { tokens = drop_expired now ctm.tokens ctm.tokens }

-- `AuthSignature`
pub record AuthSignature : Type 0 where
  pub challenge_token : Bytes
  pub signature : Bytes

module _ (keccak256 : Bytes → Bytes) (sign_message : Bytes → Option Bytes) where
  -- The signature that `VerifyAuthentication` expects; `none` where signing fails.
  abbrev pub expected_signature : Bytes → Option Bytes
  expected_signature token = sign_message (keccak256 token)

  abbrev check_signature : Bytes → Option Bytes → Option AuthError
  check_signature signature none = some signing_failed
  check_signature signature (some expected) =
      if bytes_beq signature expected then none else some invalid_signature

  -- `VerifyAuthentication`: the manager afterwards, and the error if there is one. The token is
  -- spent before the signature is looked at.
  unfoldable pub verify_authentication :
      ChallengeTokenManager → Option AuthSignature → ℕ → ChallengeTokenManager × Option AuthError
  verify_authentication ctm none now = (ctm, some missing_authentication)
  verify_authentication ctm (some auth) now =
      elim (use_challenge_token ctm auth.challenge_token now) [
        | err e ↦ (ctm, some e)
        | ok ctm' ↦ (ctm', check_signature auth.signature (expected_signature auth.challenge_token))
      ]
