-- ===== src/Types.antt =====
-- ponos/pkg/types/task.go: task results and the message that an operator's auth signature covers.
use hourglass_monorepo.Prelude.{
  ℕ, ◌/◌, ◌%◌, ◌^◌, ◌-◌, List, [], ◌∷◌, ◌++◌, replicate, Option, none, some, leb, Result, ok, ◌>>=◌,
  ◌>>◌, guard, or_fail,
}
use hourglass_monorepo.Text.{Bytes, to_lower}
use hourglass_monorepo.Eth.{EthLib}

-- `TaskResult`
pub record TaskResult : Type 0 where
  pub task_id : Bytes
  pub avs_address : Bytes
  pub operator_set_id : ℕ
  pub output : Bytes
  pub operator_address : Bytes
  pub result_signature : Bytes
  pub auth_signature : Bytes

-- `AuthSignatureData`
pub record AuthSignatureData : Type 0 where
  pub task_id : Bytes
  pub avs_address : Bytes
  pub operator_address : Bytes
  pub operator_set_id : ℕ
  pub result_sig_digest : Bytes

-- `binary.BigEndian.PutUint32`, for a number below 2 ^ 32.
unfoldable pub be_uint32 : ℕ → Bytes
be_uint32 n = (n / 16777216 % 256) ∷ (n / 65536 % 256) ∷ (n / 256 % 256) ∷ (n % 256) ∷ []

-- `AuthSignatureData.ToSigningBytes`
unfoldable pub to_signing_bytes : EthLib → AuthSignatureData → Bytes
unfolding be_uint32
to_signing_bytes eth asd =
    eth.hex_to_hash asd.task_id
    ++ (eth.left_pad_bytes (eth.hex_to_address asd.avs_address) 32
        ++ (eth.left_pad_bytes (eth.hex_to_address asd.operator_address) 32
            ++ ((replicate 28 0 ++ be_uint32 asd.operator_set_id) ++ asd.result_sig_digest)))

-- `Task`, less the context that it runs under. The deadline is in Unix seconds.
pub record Task : Type 0 where
  pub task_id : Bytes
  pub avs_address : Bytes
  pub operator_set_id : ℕ
  pub callback_addr : Bytes
  pub deadline : ℕ
  pub threshold_bips : ℕ
  pub payload : Bytes
  pub chain_id : ℕ
  pub source_block_number : ℕ
  pub l1_reference_block_number : ℕ
  pub reference_timestamp : ℕ
  pub block_hash : Bytes
  pub version : ℕ

-- `ethereum.EthereumBlock`, less what the program does not read.
pub record EthereumBlock : Type 0 where
  pub number : ℕ
  pub hash : Bytes
  pub parent_hash : Bytes
  pub timestamp : ℕ
  pub chain_id : ℕ

-- The dynamic type of a `log.Argument`'s value.
pub data ArgumentValue : Type 0 where
  text address : Bytes → ArgumentValue
  other_value : ArgumentValue

-- What `json.Unmarshal` reads into `outputDataType`; the deadline is a non-negative `*big.Int`.
pub record OutputData : Type 0 where
  pub executor_operator_set_id : ℕ
  pub operator_table_reference_timestamp : ℕ
  pub task_deadline : ℕ
  pub payload : Bytes

-- `log.DecodedLog`. `output_data` is `none` where its JSON does not fit `outputDataType`.
pub record DecodedLog : Type 0 where
  pub address : Bytes
  pub event_name : Bytes
  pub arguments : List ArgumentValue
  pub output_data : Option OutputData

-- The errors of `NewTaskFromLog`.
pub data TaskError : Type 0 where
  too_few_arguments bad_task_id bad_event_address bad_output_data deadline_too_large : TaskError

-- `math.MaxInt64`
abbrev pub max_int64 : ℕ
max_int64 = 2 ^ 63 - 1

abbrev as_text : ArgumentValue → Option Bytes
as_text (text s) = some s
as_text (address a) = none
as_text other_value = none

abbrev as_address : ArgumentValue → Option Bytes
as_address (address a) = some a
as_address (text s) = none
as_address other_value = none

-- `log.Arguments[1]` and `[2]`, behind the test of the length.
abbrev second_third : List ArgumentValue → Option (ArgumentValue × ArgumentValue)
second_third (x ∷ y ∷ z ∷ rest) = some (y, z)
second_third _ = none

-- `NewTaskFromLog`. `address_string` is `common.Address.String`, of go-ethereum.
unfoldable pub new_task_from_log :
    (Bytes → Bytes) → DecodedLog → EthereumBlock → Bytes → Result TaskError Task
new_task_from_log address_string log block inbox_address = do
  (id, avs) ← or_fail (second_third log.arguments) too_few_arguments
  task_id ← or_fail (as_text id) bad_task_id
  avs_address ← or_fail (as_address avs) bad_event_address
  od ← or_fail log.output_data bad_output_data
  guard (leb od.task_deadline max_int64) deadline_too_large
  ok (record {
    task_id = task_id;
    avs_address = to_lower (address_string avs_address);
    operator_set_id = od.executor_operator_set_id;
    callback_addr = inbox_address;
    deadline = od.task_deadline;
    threshold_bips = 0;
    payload = od.payload;
    chain_id = block.chain_id;
    source_block_number = block.number;
    l1_reference_block_number = 0;
    reference_timestamp = od.operator_table_reference_timestamp;
    block_hash = block.hash;
    version = 1;
  })
