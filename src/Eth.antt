-- ===== src/Eth.antt =====
-- What the program calls of go-ethereum: hex parsing, padding and hashing. None of it is in the
-- repository, so each function is a parameter.
use hourglass_monorepo.Prelude.{ℕ, Option}
use hourglass_monorepo.Text.{Bytes}

pub record EthLib : Type 0 where
  -- `common.HexToHash(s).Bytes()`
  pub hex_to_hash : Bytes → Bytes
  -- `common.HexToAddress(s).Bytes()`
  pub hex_to_address : Bytes → Bytes
  -- `common.LeftPadBytes(b, n)`
  pub left_pad_bytes : Bytes → ℕ → Bytes
  -- `hexutil.Decode(s)`
  pub hex_decode : Bytes → Option Bytes
  -- `crypto.Keccak256(b)`
  pub keccak256 : Bytes → Bytes
