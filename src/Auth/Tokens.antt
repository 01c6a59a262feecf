-- ===== src/Auth/Tokens.antt =====
-- A challenge token lets its entity in once.
use hourglass_monorepo.Prelude.{
  ℕ, ◌+◌, ◌≤◌, ◌≡◌, ◌≢◌, true, false, Option, none, some, List, [], ◌∷◌, arith, ltb, if◌then◌else◌,
  Result, ok, err, inl, inr, Option-cases, All,
}
use hourglass_monorepo.Text.{Bytes, bytes_beq_iff}
use hourglass_monorepo.Dict.{Dict, get, bytes_eq, get-put, get-put_self, remove, get-remove}
use hourglass_monorepo.Auth.{
  ChallengeTokenEntry, ChallengeTokenManager, AuthError, AuthSignature, generate_challenge_token,
  use_challenge_token, drop_expired, cleanup_expired_tokens, expected_signature,
  verify_authentication,
}

-- The token cannot be used: it is unknown, or marked as used.
abbrev pub IsSpent : Bytes → ChallengeTokenManager → Type 0
IsSpent token ctm =
    (entry : ChallengeTokenEntry) → get token ctm.tokens ≡ some entry → entry.used ≡ true

-- What may happen to the manager.
pub data AuthEvent : Type 0 where
  generates : Bytes → Bytes → ℕ → AuthEvent
  verifies : Option AuthSignature → ℕ → AuthEvent
  cleans_up : ℕ → AuthEvent

-- The event does not generate this token.
abbrev pub IsOther : Bytes → AuthEvent → Type 0
IsOther token (generates entity new now) = new ≢ token
IsOther token (verifies auth now) = Unit
IsOther token (cleans_up now) = Unit

-- What is left after a tick was there before it.
get-drop_expired :
    (now : ℕ) (entries tokens : Dict Bytes ChallengeTokenEntry) (token : Bytes)
    (entry : ChallengeTokenEntry)
    → get token (drop_expired now entries tokens) ≡ some entry
    → get token tokens ≡ some entry
unfolding drop_expired
get-drop_expired now [] tokens token entry h = h
get-drop_expired now ((t, e) ∷ entries) tokens token entry h = ground (
  arith,
  get-remove t token tokens,
  get-drop_expired now entries (if ltb e.expires_at now then remove t tokens else tokens) token
      entry h,
)

module _ (keccak256 : Bytes → Bytes) (sign_message : Bytes → Option Bytes) where
  abbrev pub verify :
      ChallengeTokenManager → Option AuthSignature → ℕ → ChallengeTokenManager × Option AuthError
  verify = verify_authentication keccak256 sign_message

  abbrev pub generated :
      ChallengeTokenManager
      → Result AuthError (ChallengeTokenManager × ChallengeTokenEntry)
      → ChallengeTokenManager
  generated ctm (ok made) = made.0
  generated ctm (err e) = ctm

  -- The manager after an event, and after a sequence of them.
  abbrev pub auth_step : ChallengeTokenManager → AuthEvent → ChallengeTokenManager
  auth_step ctm (generates entity token now) =
      generated ctm (generate_challenge_token ctm entity token now)
  auth_step ctm (verifies auth now) = (verify ctm auth now).0
  auth_step ctm (cleans_up now) = cleanup_expired_tokens ctm now

  abbrev pub auth_run : ChallengeTokenManager → List AuthEvent → ChallengeTokenManager
  auth_run ctm [] = ctm
  auth_run ctm (e ∷ es) = auth_run (auth_step ctm e) es

  pub auth_step-IsSpent :
      (token : Bytes) (ctm : ChallengeTokenManager) (e : AuthEvent)
      → IsOther token e
      → IsSpent token ctm
      → IsSpent token (auth_step ctm e)
  unfolding generate_challenge_token verify_authentication use_challenge_token
  auth_step-IsSpent token ctm (generates entity new now) other spent x h = ground (
    arith,
    get-put new token
        (record { token = new; created_at = now; expires_at = now + ctm.expiration; used = false })
        ctm.tokens,
    bytes_beq_iff new token,
    spent x,
  )
  auth_step-IsSpent token ctm (verifies none now) other spent x h = spent x h
  auth_step-IsSpent token ctm (verifies (some auth) now) other spent x h =
      elim (Option-cases (get auth.challenge_token ctm.tokens)) [
        | inl e ↦ ground (arith, spent x)
        | inr (entry, e) ↦ ground (
          arith,
          get-put auth.challenge_token token (record entry { used = true }) ctm.tokens,
          spent x,
        )
      ]
  auth_step-IsSpent token ctm (cleans_up now) other spent x h =
      spent x (get-drop_expired now ctm.tokens ctm.tokens token x h)

  auth_run-IsSpent :
      (token : Bytes) (ctm : ChallengeTokenManager) (es : List AuthEvent)
      → All (IsOther token) es
      → IsSpent token ctm
      → IsSpent token (auth_run ctm es)
  auth_run-IsSpent token ctm [] others spent = spent
  auth_run-IsSpent token ctm (e ∷ es) others spent =
      auth_run-IsSpent token (auth_step ctm e) es others.1
        (auth_step-IsSpent token ctm e others.0 spent)

  pub verify-IsSpent :
      (ctm : ChallengeTokenManager) (auth : AuthSignature) (now : ℕ)
      → (verify ctm (some auth) now).1 ≡ none
      → IsSpent auth.challenge_token (verify ctm (some auth) now).0
  unfolding verify_authentication use_challenge_token
  verify-IsSpent ctm auth now passed x h =
      elim (Option-cases (get auth.challenge_token ctm.tokens)) [
        | inl e ↦ absurd (ground (arith, e, passed))
        | inr (entry, e) ↦ ground (
          arith,
          e,
          passed,
          h,
          get-put_self auth.challenge_token (record entry { used = true }) ctm.tokens,
        )
      ]

  -- A token that authenticated a request authenticates no later one, whatever happens in between,
  -- unless the same token is generated again.
  pub verify_authentication_once :
      (ctm : ChallengeTokenManager) (auth again : AuthSignature) (now later : ℕ)
      (es : List AuthEvent)
      → (verify ctm (some auth) now).1 ≡ none
      → All (IsOther auth.challenge_token) es
      → again.challenge_token ≡ auth.challenge_token
      → (verify (auth_run (verify ctm (some auth) now).0 es) (some again) later).1 ≢ none
  unfolding verify_authentication use_challenge_token
  verify_authentication_once ctm auth again now later es passed others same twice =
      let after = auth_run (verify ctm (some auth) now).0 es in
      let spent =
        auth_run-IsSpent auth.challenge_token (verify ctm (some auth) now).0 es others
          (verify-IsSpent ctm auth now passed) in
      elim (Option-cases (get again.challenge_token after.tokens)) [
        | inl e ↦ ground (arith, e, twice)
        | inr (entry, e) ↦ ground (arith, e, twice, spent entry, same)
      ]

  -- A new token lets in whoever sends it with the expected signature until it expires.
  pub generate_challenge_token_admits :
      (ctm ctm' : ChallengeTokenManager) (entity token signature : Bytes) (made now : ℕ)
      (entry : ChallengeTokenEntry)
      → generate_challenge_token ctm entity token made ≡ ok (ctm', entry)
      → expected_signature keccak256 sign_message token ≡ some signature
      → now ≤ made + ctm.expiration
      → (verify ctm' (some (record { challenge_token = token; signature = signature })) now).1
        ≡ none
  unfolding generate_challenge_token verify_authentication use_challenge_token
  generate_challenge_token_admits ctm ctm' entity token signature made now entry h signs soon =
      ground (
        arith,
        signs,
        bytes_beq_iff signature signature,
        get-put_self token
            (record {
              token = token;
              created_at = made;
              expires_at = made + ctm.expiration;
              used = false;
            })
            ctm.tokens,
      )
