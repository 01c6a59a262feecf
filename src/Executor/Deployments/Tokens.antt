-- ===== src/Executor/Deployments/Tokens.antt =====
-- executor/handlers.go with auth: a challenge token serves one request of the management.
use hourglass_monorepo.Prelude.{
  ℕ, ◌≡◌, ◌≢◌, refl, ◌∙◌, Option, none, some, List, [], ◌∷◌, arith, inl, inr, Result, ok, err,
  Option-cases, Bool-cases, Result-cases, not_empty, All, subst,
}
use hourglass_monorepo.Text.{Bytes, equal_fold}
use hourglass_monorepo.Dict.{get, bytes_eq}
use hourglass_monorepo.Auth.{
  ChallengeTokenManager, AuthSignature, AuthError, token_already_used, token_not_found,
  use_challenge_token, verify_authentication, generate_challenge_token, cleanup_expired_tokens,
}
use hourglass_monorepo.Auth.Tokens.{
  IsSpent, generates, verifies, cleans_up, generated, auth_step-IsSpent, verify-IsSpent,
}
use hourglass_monorepo.Executor.Deployments.{
  DeployRequest, ManagementError, auth_failed, AvsPerformers, PerformerStates, ExecutorState,
  verify_auth, with_auth, signature_of, get_challenge_token, deploy_artifact,
  deploy_artifact_authenticated, list_performers, list_authenticated, remove_performer,
  remove_authenticated,
}

-- What happens to the management of an executor: its requests, and the cleanup of expired tokens.
pub data ManagementEvent : Type 0 where
  deploys : ℕ → ℕ → DeployRequest → ManagementEvent
  lists : Option AuthSignature → ℕ → Bytes → ManagementEvent
  removes : Option AuthSignature → ℕ → Bytes → ManagementEvent
  -- An address, the token that is drawn, and the time
  asks : Bytes → Bytes → ℕ → ManagementEvent
  cleans : ℕ → ManagementEvent

-- The event does not draw this token.
abbrev pub DrawsOther : Bytes → ManagementEvent → Type 0
DrawsOther token (deploys started ended req) = Unit
DrawsOther token (lists auth now x) = Unit
DrawsOther token (removes auth now x) = Unit
DrawsOther token (asks address new now) = new ≢ token
DrawsOther token (cleans now) = Unit

module _ (keccak256 : Bytes → Bytes) (sign_message : Bytes → Option Bytes) {P S : Type 0} where
  -- A manager in which the token cannot be used.
  record Refuses (token : Bytes) (e : ExecutorState P S) : Type 0 where
    ctm : ChallengeTokenManager
    verifier : e.auth_verifier ≡ some ctm
    spent : IsSpent token ctm

  spent_refused :
      (a : AuthSignature) (now : ℕ) (e : ExecutorState P S)
      → Refuses a.challenge_token e
      → (problem : AuthError) × (verify_auth keccak256 sign_message (some a) now e
          ≡ (e, some (auth_failed problem)))
  unfolding verify_auth verify_authentication use_challenge_token
  spent_refused a now e r = elim (Option-cases (get a.challenge_token r.ctm.tokens)) [
    | inl missing ↦ (token_not_found, ground (arith, r.verifier, missing))
    | inr (entry, there) ↦
        (token_already_used, ground (arith, r.verifier, there, r.spent entry there))
  ]

  accepted-Refuses :
      (a : AuthSignature) (now : ℕ) (ctm : ChallengeTokenManager) (e e' : ExecutorState P S)
      → e.auth_verifier ≡ some ctm
      → verify_auth keccak256 sign_message (some a) now e ≡ (e', none)
      → Refuses a.challenge_token e'
  unfolding verify_auth
  accepted-Refuses a now ctm e e' had h =
      let v = verify_authentication keccak256 sign_message ctm (some a) now in
      elim (Option-cases v.1) [
        | inr (problem, bad) ↦ absurd (ground (arith, had, bad, h))
        | inl passed ↦ record {
          ctm = v.0;
          verifier = ground (arith, had, passed, h);
          spent = verify-IsSpent keccak256 sign_message ctm a now passed;
        }
      ]

  moved-Refuses :
      (token : Bytes) (e e' : ExecutorState P S)
      → e'.auth_verifier ≡ e.auth_verifier
      → Refuses token e
      → Refuses token e'
  moved-Refuses token e e' same r = record {
    ctm = r.ctm;
    verifier = same ∙ r.verifier;
    spent = r.spent;
  }

  verify_auth-Refuses :
      (token : Bytes) (auth : Option AuthSignature) (now : ℕ) (e : ExecutorState P S)
      → Refuses token e
      → Refuses token (verify_auth keccak256 sign_message auth now e).0
  unfolding verify_auth
  verify_auth-Refuses token auth now e r =
      let v = verify_authentication keccak256 sign_message r.ctm (some (signature_of auth)) now in
      record {
        ctm = v.0;
        verifier = ground (arith, r.verifier);
        spent =
            auth_step-IsSpent keccak256 sign_message token r.ctm
              (verifies (some (signature_of auth)) now) tt r.spent;
      }

  get_challenge_token-Refuses :
      (token own_address address new : Bytes) (now : ℕ) (e : ExecutorState P S)
      → new ≢ token
      → Refuses token e
      → Refuses token (get_challenge_token keccak256 sign_message own_address address new now e).0
  unfolding get_challenge_token
  get_challenge_token-Refuses token own_address address new now e other r =
      elim (Bool-cases (not_empty address)) [
        | inr blank ↦ rw blank r
        | inl named ↦ elim (Bool-cases (equal_fold address own_address)) [
          | inr foreign ↦ rw (named, foreign) r
          | inl own ↦
              let kept =
                auth_step-IsSpent keccak256 sign_message token r.ctm (generates address new now)
                  other r.spent in
              elim (Result-cases (generate_challenge_token r.ctm address new now)) [
                | inr (problem, g) ↦ rw (named, own, r.verifier, g) r
                | inl (made, g) ↦
                    rw (named, own, r.verifier, g)
                      (record {
                        ctm = made.0;
                        verifier = refl;
                        spent =
                            subst (λ x. IsSpent token (generated keccak256 sign_message r.ctm x)) g
                              kept;
                      })
              ]
        ]
      ]

  -- The cleanup of the executor's tokens
  abbrev pub clean_tokens : ℕ → ExecutorState P S → ExecutorState P S
  clean_tokens now e = elim e.auth_verifier [
    | none ↦ e
    | some ctm ↦ record e { auth_verifier = some (cleanup_expired_tokens ctm now) }
  ]

  clean_tokens-Refuses :
      (token : Bytes) (now : ℕ) (e : ExecutorState P S)
      → Refuses token e
      → Refuses token (clean_tokens now e)
  clean_tokens-Refuses token now e r = record {
    ctm = cleanup_expired_tokens r.ctm now;
    verifier = ground (arith, r.verifier);
    spent = auth_step-IsSpent keccak256 sign_message token r.ctm (cleans_up now) tt r.spent;
  }

  module _ (ops : AvsPerformers P) (st : PerformerStates S) (network own_address : Bytes) where
    -- The executor after an event of its management, and after a sequence of them.
    abbrev pub management_step : ManagementEvent → ExecutorState P S → ExecutorState P S
    management_step (deploys started ended req) e =
        (deploy_artifact keccak256 sign_message ops st network started ended req e).0
    management_step (lists auth now x) e =
        (list_performers keccak256 sign_message ops st auth now x e).0
    management_step (removes auth now x) e =
        (remove_performer keccak256 sign_message ops st auth now x e).0
    management_step (asks address new now) e =
        (get_challenge_token keccak256 sign_message own_address address new now e).0
    management_step (cleans now) e = clean_tokens now e

    abbrev pub management_run : List ManagementEvent → ExecutorState P S → ExecutorState P S
    management_run [] e = e
    management_run (m ∷ ms) e = management_run ms (management_step m e)

    deployment_keeps_auth :
        (started ended : ℕ) (req : DeployRequest) (e : ExecutorState P S)
        → (deploy_artifact_authenticated keccak256 sign_message ops st network started ended req
            e).0.auth_verifier
          ≡ e.auth_verifier
    unfolding deploy_artifact_authenticated
    deployment_keeps_auth started ended req e = ground arith

    removal_keeps_auth :
        (id : Bytes) (e : ExecutorState P S)
        → (remove_authenticated keccak256 sign_message ops st id e).0.auth_verifier
          ≡ e.auth_verifier
    unfolding remove_authenticated
    removal_keeps_auth id e = ground arith

    -- What goes on behind the authentication leaves the tokens.
    with_auth-Refuses :
        {A : Type 0} (token : Bytes) (auth : Option AuthSignature) (now : ℕ)
        (go : ExecutorState P S → ExecutorState P S × Result ManagementError A)
        (e : ExecutorState P S)
        → ((x : ExecutorState P S) → (go x).0.auth_verifier ≡ x.auth_verifier)
        → Refuses token e
        → Refuses token (with_auth keccak256 sign_message auth now go e).0
    with_auth-Refuses token auth now go e keeps r =
        let v = verify_auth keccak256 sign_message auth now e in
        let r' = verify_auth-Refuses token auth now e r in
        elim (Option-cases v.1) [
          | inl fine ↦ rw (fine, with_auth) (moved-Refuses token v.0 (go v.0).0 (keeps v.0) r')
          | inr (problem, bad) ↦ rw (bad, with_auth) r'
        ]

    step-Refuses :
        (token : Bytes) (m : ManagementEvent) (e : ExecutorState P S)
        → DrawsOther token m
        → Refuses token e
        → Refuses token (management_step m e)
    unfolding deploy_artifact list_performers remove_performer
    step-Refuses token (deploys started ended req) e other r =
        with_auth-Refuses token req.auth started
          (deploy_artifact_authenticated keccak256 sign_message ops st network started ended req) e
          (deployment_keeps_auth started ended req) r
    step-Refuses token (lists auth now x) e other r =
        with_auth-Refuses token auth now
          (λ y. (y, ok (list_authenticated keccak256 sign_message ops st x y))) e (λ y. refl) r
    step-Refuses token (removes auth now x) e other r =
        with_auth-Refuses token auth now (remove_authenticated keccak256 sign_message ops st x) e
          (removal_keeps_auth x) r
    step-Refuses token (asks address new now) e other r =
        get_challenge_token-Refuses token own_address address new now e other r
    step-Refuses token (cleans now) e other r = clean_tokens-Refuses token now e r

    run-Refuses :
        (token : Bytes) (ms : List ManagementEvent) (e : ExecutorState P S)
        → All (DrawsOther token) ms
        → Refuses token e
        → Refuses token (management_run ms e)
    run-Refuses token [] e others r = r
    run-Refuses token (m ∷ ms) e others r =
        run-Refuses token ms (management_step m e) others.1 (step-Refuses token m e others.0 r)

    deployment_spends :
        (started ended : ℕ) (req : DeployRequest) (a : AuthSignature) (ctm : ChallengeTokenManager)
        (e e' : ExecutorState P S) (deployment_id : Bytes)
        → e.auth_verifier ≡ some ctm
        → req.auth ≡ some a
        → deploy_artifact keccak256 sign_message ops st network started ended req e
          ≡ (e', ok deployment_id)
        → Refuses a.challenge_token e'
    unfolding deploy_artifact
    deployment_spends started ended req a ctm e e' deployment_id on given done =
        let v : ExecutorState P S × Option ManagementError =
          verify_auth keccak256 sign_message (some a) started e in
        elim (Option-cases v.1) [
          | inr (problem, bad) ↦ absurd (ground (arith, given, bad, done))
          | inl fine ↦
              let kept = deployment_keeps_auth started ended req v.0 in
              moved-Refuses a.challenge_token v.0 e' (ground (arith, given, fine, done, kept))
                (accepted-Refuses a started ctm e v.0 on (ground (arith, fine)))
        ]

    -- What a request with a token that is refused gives.
    abbrev pub AllRefused :
        AuthError → AuthSignature → ℕ → ℕ → DeployRequest → Bytes → ExecutorState P S → Type 0
    AllRefused problem b now ended' again x later =
        (deploy_artifact keccak256 sign_message ops st network now ended' again later
          ≡ (later, err (auth_failed problem)))
        × (list_performers keccak256 sign_message ops st (some b) now x later
            ≡ (later, err (auth_failed problem)))
        × (remove_performer keccak256 sign_message ops st (some b) now x later
            ≡ (later, err (auth_failed problem)))

    all_refused :
        (problem : AuthError) (b : AuthSignature) (now ended' : ℕ) (again : DeployRequest)
        (x : Bytes) (later : ExecutorState P S)
        → again.auth ≡ some b
        → verify_auth keccak256 sign_message (some b) now later
          ≡ (later, some (auth_failed problem))
        → AllRefused problem b now ended' again x later
    unfolding deploy_artifact list_performers remove_performer
    all_refused problem b now ended' again x later given refused =
        (ground (arith, given, refused), ground (arith, refused), ground (arith, refused))

    -- Once a deployment with a challenge token succeeded, where authentication is on, every deployment,
    -- listing and removal with that token fails its authentication and changes nothing, after whatever
    -- requests and cleanups came in between, unless the same token was drawn again.
    pub management_token_once :
        (started ended : ℕ) (req : DeployRequest) (a : AuthSignature) (ctm : ChallengeTokenManager)
        (e e' : ExecutorState P S) (deployment_id : Bytes) (ms : List ManagementEvent)
        → e.auth_verifier ≡ some ctm
        → req.auth ≡ some a
        → deploy_artifact keccak256 sign_message ops st network started ended req e
          ≡ (e', ok deployment_id)
        → All (DrawsOther a.challenge_token) ms
        → (b : AuthSignature) (now ended' : ℕ) (again : DeployRequest) (x : Bytes)
        → b.challenge_token ≡ a.challenge_token
        → again.auth ≡ some b
        → (problem : AuthError) × AllRefused problem b now ended' again x (management_run ms e')
    management_token_once started ended req a ctm e e' deployment_id ms on given done others b now
          ended' again x same given' =
        let later : ExecutorState P S = management_run ms e' in
        let r : Refuses b.challenge_token later = rw same (
          run-Refuses a.challenge_token ms e' others
            (deployment_spends started ended req a ctm e e' deployment_id on given done)) in
        let (problem, refused) = spent_refused b now later r in
        (problem, all_refused problem b now ended' again x later given' refused)
