-- ===== src/Messages.antt =====
-- ponos/pkg/util: the messages that aggregators and executors sign (signatures.go,
-- taskMessageVersion.go) and the number encodings of utils.go.
pub mod Layout
pub mod Numbers
use hourglass_monorepo.Prelude.{
  ℕ, zero, suc, ◌+◌, ◌*◌, ◌/◌, ◌%◌, Option, none, some, List, [], ◌∷◌, ◌++◌, reverse, replicate,
  ltb, leb, nat_beq, length, if◌then◌else◌, Result, ok, err, ◌>>=◌, ◌>>◌, guard,
}
use hourglass_monorepo.Text.{Bytes, codes, drop}
use hourglass_monorepo.Eth.{EthLib}
use hourglass_monorepo.Types.{be_uint32}

pub data MessageError : Type 0 where
  unsupported_version encoded_too_short : MessageError

-- `TaskSubmissionSignatureData`
pub record TaskSubmissionSignatureData : Type 0 where
  pub task_id : Bytes
  pub avs_address : Bytes
  pub executor_address : Bytes
  pub operator_set_id : ℕ
  pub block_number : ℕ
  pub payload_digest : Bytes
  pub timestamp : ℕ

-- `TaskResultSignatureData`
pub record TaskResultSignatureData : Type 0 where
  pub task_id : Bytes
  pub avs_address : Bytes
  pub operator_address : Bytes
  pub operator_set_id : ℕ
  pub output_digest : Bytes

-- `binary.BigEndian.PutUint64`, for a number below 2 ^ 64.
unfoldable pub be_uint64 : ℕ → Bytes
be_uint64 n = be_uint32 (n / 4294967296) ++ be_uint32 n

-- `binary.BigEndian.PutUint16`, for a number below 2 ^ 16.
unfoldable pub be_uint16 : ℕ → Bytes
be_uint16 n = (n / 256 % 256) ∷ (n % 256) ∷ []

-- `AbiEncodeUint32`
unfoldable pub abi_encode_uint32 : ℕ → Bytes
abi_encode_uint32 value = replicate 28 0 ++ be_uint32 value

-- `AbiEncodeUint16`
unfoldable pub abi_encode_uint16 : ℕ → Bytes
abi_encode_uint16 value = replicate 30 0 ++ be_uint16 value

-- `binary.BigEndian.Uint16`, of two bytes at least.
abbrev pub uint16_of : Bytes → ℕ
uint16_of (x ∷ y ∷ rest) = x * 256 + y
uint16_of _ = 0

-- `AbiDecodeUint16`
unfoldable pub abi_decode_uint16 : Bytes → Result MessageError ℕ
abi_decode_uint16 encoded =
    if ltb (length encoded) 32 then err encoded_too_short else ok (uint16_of (drop 30 encoded))

-- `strconv`'s digit of a number below 16.
abbrev pub hex_digit : ℕ → ℕ
hex_digit d = if ltb d 10 then 48 + d else 87 + d

-- The hexadecimal digits of a number, the last digit first; `fuel` bounds their count.
hex_back : ℕ → ℕ → Bytes
hex_back zero n = []
hex_back (suc fuel) n =
    let rest = hex_back fuel (n / 16) in hex_digit (n % 16) ∷ (if ltb n 16 then [] else rest)

-- `i.Text(16)` of a non-negative number.
unfoldable pub hex_text : ℕ → Bytes
unfolding hex_back
hex_text n = reverse (hex_back (suc n) n)

-- `BigIntToHex`; a nil number is `none`.
unfoldable pub big_int_to_hex : Option ℕ → Bytes
big_int_to_hex none = []
big_int_to_hex (some n) =
    codes "0x"
    ++ (if nat_beq (length (hex_text n) % 2) 0 then hex_text n else codes "0" ++ hex_text n)

module _ (eth : EthLib) where
  -- `AbiEncodeAddress`
  unfoldable pub abi_encode_address : Bytes → Bytes
  abi_encode_address addr = eth.left_pad_bytes (eth.hex_to_address addr) 32

  -- `AbiEncodeBytes32`
  unfoldable pub abi_encode_bytes32 : Bytes → Bytes
  abi_encode_bytes32 value = eth.hex_to_hash value

  -- `TaskSubmissionSignatureData.ToSigningBytes`
  unfoldable pub submission_signing_bytes : TaskSubmissionSignatureData → Bytes
  submission_signing_bytes tsd =
      eth.hex_to_hash tsd.task_id
      ++ (eth.left_pad_bytes (eth.hex_to_address tsd.avs_address) 32
          ++ (eth.left_pad_bytes (eth.hex_to_address tsd.executor_address) 32
              ++ ((replicate 28 0 ++ be_uint32 tsd.operator_set_id)
                  ++ ((replicate 28 0 ++ be_uint32 tsd.timestamp)
                      ++ ((replicate 24 0 ++ be_uint64 tsd.block_number) ++ tsd.payload_digest)))))

  -- `TaskResultSignatureData.ToSigningBytes`
  unfoldable pub result_signing_bytes : TaskResultSignatureData → Bytes
  result_signing_bytes trd =
      eth.hex_to_hash trd.task_id
      ++ (eth.left_pad_bytes (eth.hex_to_address trd.avs_address) 32
          ++ (eth.left_pad_bytes (eth.hex_to_address trd.operator_address) 32
              ++ ((replicate 28 0 ++ be_uint32 trd.operator_set_id) ++ trd.output_digest)))

  -- `encodeTaskSubmissionMessage`
  unfoldable pub encode_task_submission_message : Bytes → Bytes → Bytes → ℕ → ℕ → ℕ → Bytes → Bytes
  encode_task_submission_message task_id avs_address executor_address reference_timestamp
        block_number operator_set_id payload =
      submission_signing_bytes (record {
        task_id = task_id;
        avs_address = avs_address;
        executor_address = executor_address;
        operator_set_id = operator_set_id;
        block_number = block_number;
        timestamp = reference_timestamp;
        payload_digest = eth.keccak256 payload;
      })

  -- `encodeTaskResultMessage`
  unfoldable pub encode_task_result_message : Bytes → Bytes → Bytes → ℕ → Bytes → Bytes
  encode_task_result_message task_id avs_address operator_address operator_set_id output =
      result_signing_bytes (record {
        task_id = task_id;
        avs_address = avs_address;
        operator_address = operator_address;
        operator_set_id = operator_set_id;
        output_digest = eth.keccak256 output;
      })

  -- `EncodeTaskSubmissionMessageVersioned`
  unfoldable pub encode_task_submission_message_versioned :
      Bytes → Bytes → Bytes → ℕ → ℕ → ℕ → Bytes → ℕ → Result MessageError Bytes
  encode_task_submission_message_versioned task_id avs_address executor_address reference_timestamp
        block_number operator_set_id payload version =
      do
        guard (nat_beq version 1) unsupported_version
        ok (
            encode_task_submission_message task_id avs_address executor_address reference_timestamp
              block_number operator_set_id payload)

  -- `EncodeTaskResultMessageVersioned`
  unfoldable pub encode_task_result_message_versioned :
      Bytes → Bytes → Bytes → ℕ → Bytes → ℕ → Result MessageError Bytes
  encode_task_result_message_versioned task_id avs_address operator_address operator_set_id output
        version =
      do
        guard (nat_beq version 1) unsupported_version
        ok (encode_task_result_message task_id avs_address operator_address operator_set_id output)
