-- ===== src/Peering.antt =====
-- ponos/pkg/peering/peering.go: where an operator of a set is reached, and with which key.
use hourglass_monorepo.Prelude.{
  ℕ, Bool, true, false, Option, none, some, List, [], ◌∷◌, nat_beq, if◌then◌else◌,
}
use hourglass_monorepo.Text.{Bytes}

-- `CurveType`, which holds one of its three constants.
pub data CurveType : Type 0 where
  unknown_curve ecdsa bn254 : CurveType

-- `==` on curve types.
abbrev pub curve_beq : CurveType → CurveType → Bool
curve_beq unknown_curve unknown_curve = true
curve_beq ecdsa ecdsa = true
curve_beq bn254 bn254 = true
curve_beq _ _ = false

-- `OperatorSet`, with its `WrappedPublicKey`.
pub record OperatorSet : Type 0 where
  pub operator_set_id : ℕ
  pub operator_index : ℕ
  pub public_key : Bytes
  pub ecdsa_address : Bytes
  pub network_address : Bytes
  pub curve_type : CurveType

-- `OperatorPeerInfo`
pub record OperatorPeerInfo : Type 0 where
  pub operator_address : Bytes
  pub operator_sets : List OperatorSet

-- The loop of `GetOperatorSet`
unfoldable pub find_operator_set : ℕ → List OperatorSet → Option OperatorSet
find_operator_set id [] = none
find_operator_set id (os ∷ rest) =
    if nat_beq os.operator_set_id id then some os else find_operator_set id rest

-- `GetOperatorSet`; `none` is an error.
unfoldable pub get_operator_set : OperatorPeerInfo → ℕ → Option OperatorSet
get_operator_set opi id = find_operator_set id opi.operator_sets

-- `GetSocketForOperatorSet`
unfoldable pub get_socket_for_operator_set : OperatorPeerInfo → ℕ → Option Bytes
get_socket_for_operator_set opi id = elim (get_operator_set opi id) [
  | none ↦ none
  | some os ↦ some os.network_address
]

-- The loop of `IncludesOperatorSetId`
unfoldable pub any_operator_set : ℕ → List OperatorSet → Bool
any_operator_set id [] = false
any_operator_set id (os ∷ rest) =
    if nat_beq os.operator_set_id id then true else any_operator_set id rest

-- `IncludesOperatorSetId`
unfoldable pub includes_operator_set_id : OperatorPeerInfo → ℕ → Bool
includes_operator_set_id opi id = any_operator_set id opi.operator_sets
