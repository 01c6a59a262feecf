-- ===== src/Executor/Deployments/Replaced.antt =====
-- executor/handlers.go: what a deployment leaves in the store of the performer that it replaces.
use mathlib.Core.List.{Memᴰ}
use hourglass_monorepo.Prelude.{
  ℕ, ◌≡◌, ◌≢◌, true, Option, some, List, arith, ok, All, subst, sym, [], ◌∷◌,
}
use hourglass_monorepo.Text.{Bytes, to_lower}
use hourglass_monorepo.Dict.{put, bytes_eq}
use hourglass_monorepo.Executor.Stores.{PerformerState}
use hourglass_monorepo.Performer.Deploy.{DeploymentResult}
use hourglass_monorepo.Executor.Deployments.{
  DeployRequest, AvsPerformers, PerformerStates, ExecutorState, passes_filter, has_listed,
  list_authenticated, deploy_artifact_authenticated, deployed_state, requested_image,
  get_or_create_avs_performer, is_deployable,
}
use hourglass_monorepo.Executor.Deployments.Backings.{KeepsStates}
use hourglass_monorepo.Executor.Deployments.Listed.{stored_listed}

All-Memᴰ : {A : Type 0} (Q : A → Type 0) (x : A) (xs : List A) → All Q xs → Memᴰ x xs → Q x
All-Memᴰ Q x [] h m = elim m [ ]
All-Memᴰ Q x (y ∷ ys) h (Memᴰ.head e) = subst Q (sym e) h.0
All-Memᴰ Q x (y ∷ ys) h (Memᴰ.tail m) = All-Memᴰ Q x ys h.1 m

module _ (keccak256 : Bytes → Bytes) (sign_message : Bytes → Option Bytes) {P S : Type 0}
    (ops : AvsPerformers P) (st : PerformerStates S)
    (Holds : S → Bytes → PerformerState → Type 0) where
  -- Over a store that keeps states, a performer that is stored stays listed after a further deployment
  -- that gives another id, whichever AVS it is for and whatever became of the performer that it
  -- replaces.
  pub replaced_stays_listed :
      KeepsStates st Holds
      → (network : Bytes) (started ended : ℕ) (req : DeployRequest) (avs_address : Bytes) (p p' : P)
        (result : DeploymentResult) (id : Bytes) (state : PerformerState) (e : ExecutorState P S)
      → Holds e.states id state
      → passes_filter (to_lower avs_address) state.avs_address ≡ true
      → is_deployable req ≡ true
      → get_or_create_avs_performer keccak256 sign_message ops st (to_lower req.avs_address) e
        ≡ some p
      → ops.deploy_image p (requested_image req) ≡ (p', ok result)
      → result.deployed_performer ≢ id
      → has_listed state.performer_id (
          list_authenticated keccak256 sign_message ops st avs_address
            (deploy_artifact_authenticated keccak256 sign_message ops st network started ended req
              e).0)
        ≡ true
  unfolding deploy_artifact_authenticated
  replaced_stays_listed keeps network started ended req avs_address p p' result id state e stored
        passes valid found deployed differs =
      let new = deployed_state network started ended req result in
      let states' : S = st.save_state e.states result.deployed_performer new in
      let e' : ExecutorState P S = record e {
        avs_performers = put (to_lower req.avs_address) p' e.avs_performers;
        states = states';
      } in
      let after : (deploy_artifact_authenticated keccak256 sign_message ops st network started ended
            req e).0
          ≡ e' =
        ground (arith, valid, found, deployed) in
      let l =
        keeps.lists states' id state
          (keeps.leaves e.states id result.deployed_performer state new differs stored) in
      rw after (
        All-Memᴰ _ state l.0 (stored_listed keccak256 sign_message ops st avs_address (e') l.0 l.1)
          l.2 passes)
