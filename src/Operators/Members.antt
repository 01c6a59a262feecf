-- ===== src/Operators/Members.antt =====
-- The operators of operatorManager.go as a task session takes them.
use hourglass_monorepo.Prelude.{
  ℕ, ◌≡◌, refl, ◌∙◌, Bool, true, ◌&&◌, Option, none, some, List, [], ◌∷◌, arith, length, nat_beq,
  if◌then◌else◌, Bool-cases, inl, inr, All, ok, Result-cases,
}
use hourglass_monorepo.Text.{Bytes, bytes_beq}
use hourglass_monorepo.Dict.{Dict, get, put, bytes_eq, get-put}
use hourglass_monorepo.Util.{filter}
use hourglass_monorepo.Types.{Task}
use hourglass_monorepo.Peering.{
  CurveType, OperatorSet, OperatorPeerInfo, find_operator_set, any_operator_set, get_operator_set,
  includes_operator_set_id,
}
use hourglass_monorepo.Aggregation.{Operator}
use hourglass_monorepo.Operators.{
  OperatorManager, PeerWeight, has_weights, filter_operators_for_set,
  get_executor_peers_and_weights_for_task, build_operator_weights, add_operator_weights,
  list_executor_operators, fetch_operator_table_data,
}
use hourglass_monorepo.Chain.{OperatorTableData}
use hourglass_monorepo.Session.Setup.{session_operators, weights_of}

any-find :
    (id : ℕ) (sets : List OperatorSet)
    → any_operator_set id sets ≡ true
    → (os : OperatorSet) × (find_operator_set id sets ≡ some os)
unfolding any_operator_set find_operator_set
any-find id [] h = absurd (ground arith)
any-find id (os ∷ sets) h = elim (Bool-cases (nat_beq os.operator_set_id id)) [
  | inl e ↦ (os, rw e refl)
  | inr e ↦ let (os', found) = any-find id sets (ground (arith, e, h)) in (os', rw e found)
]

-- A member of a session: its address folds like one of the operator table, and its stakes are those
-- under its own spelling of it.
pub record IsSeated (weights : Dict Bytes (List ℕ)) (o : Operator) : Type 0 where
  pub listed : has_weights weights o.address ≡ true
  pub stakes : o.weights ≡ weights_of weights o.address

abbrev keeps : Dict Bytes (List ℕ) → ℕ → OperatorPeerInfo → Bool
keeps weights id op = has_weights weights op.operator_address && includes_operator_set_id op id

module _ (key : OperatorSet → Bytes) (weights : Dict Bytes (List ℕ)) (id : ℕ) where
  member :
      (p : OperatorPeerInfo)
      → keeps weights id p ≡ true
      → any_operator_set id p.operator_sets ≡ true
  unfolding includes_operator_set_id
  member p h = ground arith

  known :
      (p : OperatorPeerInfo)
      → keeps weights id p ≡ true
      → has_weights weights p.operator_address ≡ true
  known p h = ground arith

  filtered_sessions :
      (peers : List OperatorPeerInfo)
      → (operators : List Operator) × (session_operators key weights id
            (filter peers (keeps weights id))
          ≡ ok operators)
        × (length operators ≡ length (filter peers (keeps weights id)))
        × All (IsSeated weights) operators
  unfolding session_operators filter get_operator_set
  filtered_sessions [] = ([], refl, refl, tt)
  filtered_sessions (p ∷ peers) = elim (Bool-cases (keeps weights id p)) [
    | inr out ↦ rw out (filtered_sessions peers)
    | inl stays ↦
        let (operators, found, count, seated) = filtered_sessions peers in
        let (os, mine) = any-find id p.operator_sets (member p stays) in
        let o : Operator = record {
          address = p.operator_address;
          public_key = key os;
          operator_index = os.operator_index;
          weights = weights_of weights p.operator_address;
        } in
        rw stays (
          o ∷ operators,
          rw (mine, found) refl,
          omega (arith, count),
          (record { listed = known p stays; stakes = refl }, seated),
        )
  ]

module _ (address_string : Bytes → Bytes) where
  abbrev or_later : Option (List ℕ) → Option (List ℕ) → Option (List ℕ)
  or_later none earlier = earlier
  or_later (some w) earlier = some w

  -- The last entry of the table whose operator is printed as the address.
  abbrev pub last_entry : Bytes → List (Bytes × List ℕ) → Option (List ℕ)
  last_entry address [] = none
  last_entry address ((operator, w) ∷ rest) =
      or_later (last_entry address rest)
        (if bytes_beq (address_string operator) address then some w else none)

  get-add_operator_weights :
      (address : Bytes) (entries : List (Bytes × List ℕ)) (weights : Dict Bytes (List ℕ))
      → get address (add_operator_weights address_string weights entries)
        ≡ or_later (last_entry address entries) (get address weights)
  unfolding add_operator_weights
  get-add_operator_weights address [] weights = refl
  get-add_operator_weights address ((operator, w) ∷ rest) weights =
      get-add_operator_weights address rest (put (address_string operator) w weights)
      ∙ ground (arith, get-put (address_string operator) address w weights)

  -- The stakes that the table has for an address.
  abbrev pub table_stakes : OperatorTableData → Bytes → List ℕ
  table_stakes table address = elim (last_entry address table.operators) [ none ↦ [] | some w ↦ w ]

  get-build_operator_weights :
      (table : OperatorTableData) (address : Bytes)
      → weights_of (build_operator_weights address_string table) address
        ≡ table_stakes table address
  unfolding build_operator_weights get
  get-build_operator_weights table address =
      ground (arith, get-add_operator_weights address table.operators [])

  -- A member of a session with the stakes that the table has for its spelling of the address.
  pub record IsStaked (table : OperatorTableData) (o : Operator) : Type 0 where
    pub listed : has_weights (build_operator_weights address_string table) o.address ≡ true
    pub stakes : o.weights ≡ table_stakes table o.address

  seated-IsStaked :
      (table : OperatorTableData) (operators : List Operator)
      → All (IsSeated (build_operator_weights address_string table)) operators
      → All (IsStaked table) operators
  seated-IsStaked table [] h = tt
  seated-IsStaked table (o ∷ operators) (h, hs) = (
    record { listed = h.listed; stakes = h.stakes ∙ get-build_operator_weights table o.address },
    seated-IsStaked table operators hs,
  )

  -- What an answer of `GetExecutorPeersAndWeightsForTask` was made from.
  record MadeFrom (hex_to_address : Bytes → Bytes) (om : OperatorManager) (task : Task)
      (curve_type : CurveType) (pw : PeerWeight) : Type 0 where
    table : OperatorTableData
    peers : List OperatorPeerInfo
    fetched :
        fetch_operator_table_data hex_to_address om
          (hex_to_address task.avs_address)
          task.operator_set_id
          task.chain_id
          curve_type
          task.l1_reference_block_number
          task.source_block_number
        ≡ ok table
    weights_are : pw.weights ≡ build_operator_weights address_string table
    operators_are :
        pw.operators
        ≡ filter peers (keeps (build_operator_weights address_string table) task.operator_set_id)

  executor_peers-MadeFrom :
      (hex_to_address : Bytes → Bytes) (om : OperatorManager) (task : Task) (curve_type : CurveType)
      (pw : PeerWeight)
      → get_executor_peers_and_weights_for_task hex_to_address address_string om task curve_type
        ≡ ok pw
      → MadeFrom hex_to_address om task curve_type pw
  unfolding get_executor_peers_and_weights_for_task filter_operators_for_set
  executor_peers-MadeFrom hex_to_address om task curve_type pw h =
      elim (Result-cases (
        fetch_operator_table_data hex_to_address om (hex_to_address task.avs_address)
          task.operator_set_id task.chain_id curve_type task.l1_reference_block_number
          task.source_block_number)) [
            | inr (e, f) ↦ absurd (ground (arith, f, h))
            | inl (table, f) ↦
                elim (Result-cases (
                  list_executor_operators om.fetcher om.avs_address
                    task.l1_reference_block_number)) [
                      | inr (e, l) ↦ absurd (ground (arith, f, l, h))
                      | inl (peers, l) ↦ record {
                        table = table;
                        peers = peers;
                        fetched = f;
                        weights_are = ground (arith, f, l, h);
                        operators_are = ground (arith, f, l, h);
                      }
                    ]
          ]

  -- The operators that `GetExecutorPeersAndWeightsForTask` finds all become members of the task's
  -- session, with the stakes of the chain's operator table under their spelling of the address, which
  -- folds like an address there.
  pub session_operators-IsStaked :
      (hex_to_address : Bytes → Bytes) (om : OperatorManager) (task : Task) (curve_type : CurveType)
      (key : OperatorSet → Bytes) (pw : PeerWeight)
      → get_executor_peers_and_weights_for_task hex_to_address address_string om task curve_type
        ≡ ok pw
      → (table : OperatorTableData) × (operators : List Operator) × (fetch_operator_table_data
            hex_to_address om
            (hex_to_address task.avs_address)
            task.operator_set_id
            task.chain_id
            curve_type
            task.l1_reference_block_number
            task.source_block_number
          ≡ ok table)
        × (session_operators key pw.weights task.operator_set_id pw.operators ≡ ok operators)
        × (length operators ≡ length pw.operators)
        × All (IsStaked table) operators
  session_operators-IsStaked hex_to_address om task curve_type key pw h =
      let made = executor_peers-MadeFrom hex_to_address om task curve_type pw h in
      let (operators, found, count, seated) =
        filtered_sessions key (build_operator_weights address_string made.table)
          task.operator_set_id made.peers in
      (
        made.table,
        operators,
        made.fetched,
        rw (made.weights_are, made.operators_are) found,
        rw (made.operators_are) count,
        seated-IsStaked made.table operators seated,
      )
