-- ===== src/Signers.antt =====
-- ponos/pkg/signer: the signers of messages, in memory and remote, over the keys of crypto-libs and
-- the client of Web3Signer.
use hourglass_monorepo.Prelude.{
  Bool, true, false, Option, none, some, List, [], ◌∷◌, nat_beq, length, if◌then◌else◌, not_empty,
  Result, ok, ◌>>=◌, ◌>>◌, guard, or_fail,
}
use hourglass_monorepo.Text.{Bytes, codes, bytes_beq, drop, has_prefix, to_lower}
use hourglass_monorepo.Eth.{EthLib}
use hourglass_monorepo.Peering.{CurveType, unknown_curve, ecdsa, bn254}
use hourglass_monorepo.Executor.{Signer}

-- A private key of crypto-libs: `Sign` of each curve, and `SignSolidityCompatible`, with the bytes of
-- the signature.
pub record SigningKey : Type 0 where
  pub sign_bn254 : Bytes → Option Bytes
  pub sign_bn254_solidity : Bytes → Option Bytes
  pub sign_ecdsa : Bytes → Option Bytes

-- The hash that `SignMessageForSolidity` signs: data of 32 bytes is its own hash.
unfoldable pub solidity_hash : EthLib → Bytes → Bytes
solidity_hash eth message = if nat_beq (length message) 32 then message else eth.keccak256 message

-- `InMemorySigner.SignMessage`
abbrev pub in_memory_sign_message : EthLib → SigningKey → CurveType → Bytes → Option Bytes
in_memory_sign_message eth key bn254 message = key.sign_bn254 (eth.keccak256 message)
in_memory_sign_message eth key ecdsa message = key.sign_ecdsa (eth.keccak256 message)
in_memory_sign_message eth key unknown_curve message = none

-- `InMemorySigner.SignMessageForSolidity`
abbrev pub in_memory_sign_message_for_solidity :
    EthLib → SigningKey → CurveType → Bytes → Option Bytes
in_memory_sign_message_for_solidity eth key bn254 message =
    key.sign_bn254_solidity (solidity_hash eth message)
in_memory_sign_message_for_solidity eth key ecdsa message =
    key.sign_ecdsa (solidity_hash eth message)
in_memory_sign_message_for_solidity eth key unknown_curve message = none

-- `NewInMemorySigner`
abbrev pub in_memory_signer : EthLib → SigningKey → CurveType → Signer
in_memory_signer eth key curve_type = record {
  sign_message = in_memory_sign_message eth key curve_type;
  sign_message_for_solidity = in_memory_sign_message_for_solidity eth key curve_type;
}

-- What the client of Web3Signer does: `SignRaw` with a public key, which hashes the message, and
-- `EthAccounts`.
pub record Web3SignerClient : Type 0 where
  pub sign_raw : Bytes → Bytes → Option Bytes
  pub eth_accounts : Option (List Bytes)

pub record Web3Signer : Type 0 where
  pub client : Web3SignerClient
  pub from_address : Bytes
  pub public_key : Bytes
  pub curve_type : CurveType

pub data SignerError : Type 0 where
  curve_not_ecdsa no_client no_public_key accounts_failed address_not_found : SignerError

abbrev is_ecdsa : CurveType → Bool
is_ecdsa ecdsa = true
is_ecdsa bn254 = false
is_ecdsa unknown_curve = false

-- `strings.TrimPrefix` of "0x"
abbrev trim_0x : Bytes → Bytes
trim_0x text = if has_prefix (codes "0x") text then drop 2 text else text

-- `NewWeb3Signer`, with a logger
unfoldable pub new_web3_signer :
    Option Web3SignerClient → Bytes → Bytes → CurveType → Result SignerError Web3Signer
new_web3_signer client from_address public_key curve_type = do
  guard (is_ecdsa curve_type) curve_not_ecdsa
  c ← or_fail client no_client
  guard (not_empty public_key) no_public_key
  ok (record {
    client = c;
    from_address = from_address;
    public_key = trim_0x public_key;
    curve_type = curve_type;
  })

-- `Web3Signer.SignMessage`
abbrev pub web3_sign_message : EthLib → Web3Signer → Bytes → Option Bytes
web3_sign_message eth w message =
    if is_ecdsa w.curve_type
    then elim (w.client.sign_raw w.public_key message) [
      | none ↦ none
      | some sig_hex ↦ eth.hex_decode sig_hex
    ]
    else none

-- `Web3Signer.SignMessageForSolidity`
abbrev pub web3_sign_message_for_solidity : EthLib → Web3Signer → Bytes → Option Bytes
web3_sign_message_for_solidity eth w message =
    if is_ecdsa w.curve_type then web3_sign_message eth w message else none

abbrev pub web3_signer : EthLib → Web3Signer → Signer
web3_signer eth w = record {
  sign_message = web3_sign_message eth w;
  sign_message_for_solidity = web3_sign_message_for_solidity eth w;
}

abbrev has_account : Bytes → List Bytes → Bool
has_account address [] = false
has_account address (account ∷ accounts) =
    if bytes_beq (to_lower account) address then true else has_account address accounts

-- `Web3Signer.Validate`, with `fromAddress.Hex()`
unfoldable pub validate_web3_signer : Bytes → Web3Signer → Result SignerError (Unit {0})
validate_web3_signer from_hex w = do
  accounts ← or_fail w.client.eth_accounts accounts_failed
  guard (has_account (to_lower from_hex) accounts) address_not_found
