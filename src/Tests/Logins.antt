-- ===== src/Tests/Logins.antt =====
-- A challenge token that is generated, used, cleaned up and sent again.
use hourglass_monorepo.Prelude.{◌≢◌, refl, false, Option, none, some, [], ◌∷◌}
use hourglass_monorepo.Text.{Bytes, codes}
use hourglass_monorepo.Dict.{get, put, bytes_eq}
use hourglass_monorepo.Auth.{
  ChallengeTokenEntry, ChallengeTokenManager, AuthSignature, use_challenge_token,
  verify_authentication,
}
use hourglass_monorepo.Auth.Tokens.{verifies, cleans_up, auth_run, verify_authentication_once}

abbrev hash : Bytes → Bytes
hash b = b

abbrev sign : Bytes → Option Bytes
sign message = some (1 ∷ message)

abbrev empty : ChallengeTokenManager
empty = record { tokens = []; authorized_entity = codes "0xa"; expiration = 5 }

abbrev entry : ChallengeTokenEntry
entry = record { token = 7 ∷ []; created_at = 10; expires_at = 15; used = false }

abbrev issued : ChallengeTokenManager
issued = record empty { tokens = (7 ∷ [], entry) ∷ [] }

abbrev auth : AuthSignature
auth = record { challenge_token = 7 ∷ []; signature = 1 ∷ 7 ∷ [] }

verify_authentication_once_example :
    (verify_authentication hash sign
      (auth_run hash sign
        (verify_authentication hash sign issued (some auth) 12).0
        (verifies (some auth) 13 ∷ cleans_up 14 ∷ []))
      (some auth)
      15).1
    ≢ none
verify_authentication_once_example =
    verify_authentication_once hash sign issued auth auth 12 15
      (verifies (some auth) 13 ∷ cleans_up 14 ∷ [])
      (unfold verify_authentication use_challenge_token get put in refl) (tt, (tt, tt)) refl
