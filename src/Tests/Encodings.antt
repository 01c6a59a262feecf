-- ===== src/Tests/Encodings.antt =====
-- Messages and numbers in their encodings.
use hourglass_monorepo.Prelude.{
  ℕ, zero, suc, ◌-◌, ◌%◌, ◌≡◌, ◌≢◌, ◌⊎◌, refl, some, [], ◌∷◌, ◌++◌, arith, length, replicate, ok,
  err,
}
use hourglass_monorepo.Text.{Bytes, codes}
use hourglass_monorepo.Eth.{EthLib}
use hourglass_monorepo.Messages.{
  be_uint16, abi_encode_uint16, big_int_to_hex, hex_text, TaskSubmissionSignatureData,
  encode_task_submission_message_versioned, unsupported_version,
}
use hourglass_monorepo.Messages.Numbers.{hex_value, hex_value-big_int_to_hex}
use hourglass_monorepo.Messages.Layout.{
  EthWidths, SameSubmission, submission_signing_bytes_injective,
  encode_task_submission_message_versioned_width,
}

-- The first bytes, filled up with zeros.
abbrev fit : ℕ → Bytes → Bytes
fit zero s = []
fit (suc n) [] = 0 ∷ fit n []
fit (suc n) (x ∷ s) = x ∷ fit n s

length-fit : (n : ℕ) (s : Bytes) → length (fit n s) ≡ n
length-fit zero s = refl
length-fit (suc n) [] = omega (arith, length-fit n [])
length-fit (suc n) (x ∷ s) = omega (arith, length-fit n s)

abbrev eth : EthLib
eth = record {
  hex_to_hash = fit 32;
  hex_to_address = fit 20;
  left_pad_bytes = λ b n. replicate (n - length b) 0 ++ b;
  hex_decode = λ s. some s;
  keccak256 = fit 32;
}

eth-EthWidths : EthWidths eth
eth-EthWidths = record {
  hash_width = length-fit 32;
  address_width = length-fit 20;
  padding = λ b n h. refl;
  digest_width = length-fit 32;
}

six_thousand : abi_encode_uint16 6700 ≡ replicate 30 0 ++ (26 ∷ 44 ∷ [])
unfolding abi_encode_uint16 be_uint16
six_thousand = refl

abbrev short : Bytes
short = 9 ∷ 9 ∷ []

hex_value-big_int_to_hex_example :
    (hex_value (big_int_to_hex (some 4095)) ≡ 4095) × (length (big_int_to_hex (some 4095)) % 2 ≡ 0)
hex_value-big_int_to_hex_example = hex_value-big_int_to_hex 4095

odd_digits : big_int_to_hex (some 4095) ≡ codes "0x0fff"
unfolding big_int_to_hex hex_text
odd_digits = refl

abbrev submission : TaskSubmissionSignatureData
submission = record {
  task_id = codes "t";
  avs_address = codes "c";
  executor_address = codes "e";
  operator_set_id = 7;
  block_number = 4;
  payload_digest = replicate 32 1;
  timestamp = 5;
}

submission_signing_bytes_injective_example : SameSubmission eth submission submission
submission_signing_bytes_injective_example =
    submission_signing_bytes_injective eth eth-EthWidths submission submission
      (record { operator_set = omega arith; timestamp = omega arith; block = omega arith })
      (record { operator_set = omega arith; timestamp = omega arith; block = omega arith }) refl

abbrev version_2 : ℕ
version_2 = 2

encode_task_submission_message_versioned_width_example :
    ((version_2 ≡ 1)
      × ((message : Bytes) × (encode_task_submission_message_versioned eth
              (codes "t")
              (codes "c")
              (codes "e")
              5
              4
              7
              (codes "x")
              version_2
            ≡ ok message)
          × (length message ≡ 224)))
    ⊎ ((version_2 ≢ 1)
        × (encode_task_submission_message_versioned eth
              (codes "t")
              (codes "c")
              (codes "e")
              5
              4
              7
              (codes "x")
              version_2
            ≡ err unsupported_version))
encode_task_submission_message_versioned_width_example =
    encode_task_submission_message_versioned_width eth eth-EthWidths (codes "t") (codes "c")
      (codes "e") 5 4 7 (codes "x") version_2
