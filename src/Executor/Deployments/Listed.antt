-- ===== src/Executor/Deployments/Listed.antt =====
-- executor/handlers.go, over any store: which performers a listing has.
use hourglass_monorepo.Prelude.{
  ◌≡◌, refl, true, false, Option, some, List, [], ◌∷◌, ◌++◌, arith, if◌then◌else◌, All, ◌||◌,
}
use hourglass_monorepo.Text.{Bytes, bytes_beq_iff, to_lower}
use hourglass_monorepo.Executor.Stores.{PerformerState}
use hourglass_monorepo.Executor.Deployments.{
  AvsPerformers, PerformerStates, ExecutorState, ListedPerformer, passes_filter, has_listed,
  state_to_proto, add_states, live_performers, list_authenticated,
}

-- No id comes twice.
abbrev pub AllDistinct : List ListedPerformer → Type 0
AllDistinct [] = Unit
AllDistinct (x ∷ xs) = (has_listed x.listed_id xs ≡ false) × AllDistinct xs

has_listed-append :
    (id : Bytes) (xs ys : List ListedPerformer)
    → has_listed id (xs ++ ys) ≡ (has_listed id xs || has_listed id ys)
has_listed-append id [] ys = refl
has_listed-append id (x ∷ xs) ys = ground (arith, has_listed-append id xs ys)

-- One stored state, in the loop of the listing.
abbrev add_state : Bytes → PerformerState → List ListedPerformer → List ListedPerformer
add_state filter state all =
    if passes_filter filter state.avs_address
    then (if has_listed state.performer_id all then all else all ++ (state_to_proto state ∷ []))
    else all

add_state_keeps :
    (filter : Bytes) (state : PerformerState) (all : List ListedPerformer) (id : Bytes)
    → has_listed id all ≡ true
    → has_listed id (add_state filter state all) ≡ true
add_state_keeps filter state all id h =
    ground (arith, h, has_listed-append id all (state_to_proto state ∷ []))

add_state_covers :
    (filter : Bytes) (state : PerformerState) (all : List ListedPerformer)
    → passes_filter filter state.avs_address ≡ true
    → has_listed state.performer_id (add_state filter state all) ≡ true
add_state_covers filter state all h = ground (
  arith,
  h,
  has_listed-append state.performer_id all (state_to_proto state ∷ []),
  bytes_beq_iff state.performer_id state.performer_id,
)

add_states_keeps :
    (filter : Bytes) (states : List PerformerState) (all : List ListedPerformer) (id : Bytes)
    → has_listed id all ≡ true
    → has_listed id (add_states filter states all) ≡ true
unfolding add_states
add_states_keeps filter [] all id h = h
add_states_keeps filter (state ∷ states) all id h =
    add_states_keeps filter states (add_state filter state all) id
      (add_state_keeps filter state all id h)

-- What a listing has of a stored state.
abbrev pub IsCovered : Bytes → List ListedPerformer → PerformerState → Type 0
IsCovered filter all state =
    passes_filter filter state.avs_address ≡ true → has_listed state.performer_id all ≡ true

add_states_covers :
    (filter : Bytes) (states : List PerformerState) (all : List ListedPerformer)
    → All (IsCovered filter (add_states filter states all)) states
unfolding add_states
add_states_covers filter [] all = tt
add_states_covers filter (state ∷ states) all = (
  λ h.
      add_states_keeps filter states (add_state filter state all) state.performer_id
        (add_state_covers filter state all h),
  add_states_covers filter states (add_state filter state all),
)

module _ (keccak256 : Bytes → Bytes) (sign_message : Bytes → Option Bytes) {P S : Type 0}
    (ops : AvsPerformers P) (st : PerformerStates S) where
  -- Every stored state that passes the filter is listed, where the store can be read.
  pub stored_listed :
      (avs_address : Bytes) (e : ExecutorState P S) (states : List PerformerState)
      → st.list_states e.states ≡ some states
      → All
          (IsCovered
            (to_lower avs_address)
            (list_authenticated keccak256 sign_message ops st avs_address e))
          states
  unfolding list_authenticated
  stored_listed avs_address e states stored =
      let filter : Bytes = to_lower avs_address in
      rw (stored, list_authenticated)
        (add_states_covers filter states
          (live_performers keccak256 sign_message ops st filter e.avs_performers))
