-- ===== src/Messages/Layout.antt =====
-- The layout of the signed messages of signatures.go: fields of fixed widths, so that the bytes
-- determine what was signed.
use hourglass_monorepo.Prelude.{
  ℕ, ◌+◌, ◌-◌, ◌/◌, ◌%◌, ◌≤◌, ◌<◌, ◌≡◌, ◌≢◌, refl, sym, ap, ◌∙◌, [], ◌∷◌, ◌++◌, arith, length,
  length-append, replicate, ok, Result, err, Bool-cases, inl, inr, ◌⊎◌, nat_beq,
}
use hourglass_monorepo.Text.{Bytes, append_cancel}
use hourglass_monorepo.Eth.{EthLib}
use hourglass_monorepo.Types.{be_uint32}
use hourglass_monorepo.Messages.{
  be_uint64, TaskSubmissionSignatureData, TaskResultSignatureData, submission_signing_bytes,
  result_signing_bytes, encode_task_submission_message_versioned, encode_task_submission_message,
  encode_task_result_message_versioned, encode_task_result_message, unsupported_version,
  MessageError,
}

-- The documented widths of go-ethereum's hashes and addresses, and its padding with zeros.
pub record EthWidths (eth : EthLib) : Type 0 where
  pub hash_width : (s : Bytes) → length (eth.hex_to_hash s) ≡ 32
  pub address_width : (s : Bytes) → length (eth.hex_to_address s) ≡ 20
  pub padding :
      (b : Bytes) (n : ℕ) → length b ≤ n → eth.left_pad_bytes b n ≡ replicate (n - length b) 0 ++ b
  pub digest_width : (b : Bytes) → length (eth.keccak256 b) ≡ 32

width-append : (a b : Bytes) {m n : ℕ} → length a ≡ m → length b ≡ n → length (a ++ b) ≡ m + n
width-append a b ha hb = omega (arith, length-append a b)

same_value : (a b : Bytes) → ◌≡◌ {A = Result MessageError Bytes} (ok a) (ok b) → a ≡ b
same_value a b e = ground (arith, e)

-- Two strings with parts of one width agree in each part.
append_split :
    (a a' : Bytes) {b b' : Bytes} → length a ≡ length a' → a ++ b ≡ a' ++ b' → (a ≡ a') × (b ≡ b')
append_split [] [] l e = (refl, e)
append_split [] (x ∷ a') l e = absurd (omega arith)
append_split (x ∷ a) [] l e = absurd (omega arith)
append_split (x ∷ a) (y ∷ a') l e =
    let ih = append_split a a' (omega arith) (ground arith) in (ground (arith, ih.0), ih.1)

be_uint32-width : (m n : ℕ) → length (be_uint32 m) ≡ length (be_uint32 n)
unfolding be_uint32
be_uint32-width m n = refl

be_uint32_low : (m n : ℕ) → be_uint32 m ≡ be_uint32 n → m % 4294967296 ≡ n % 4294967296
unfolding be_uint32
be_uint32_low m n e = ground arith

be_uint32_injective :
    (m n : ℕ) → m < 4294967296 → n < 4294967296 → be_uint32 m ≡ be_uint32 n → m ≡ n
be_uint32_injective m n hm hn e = omega (arith, be_uint32_low m n e)

be_uint64_injective :
    (m n : ℕ)
    → m < 18446744073709551616
    → n < 18446744073709551616
    → be_uint64 m ≡ be_uint64 n
    → m ≡ n
unfolding be_uint64
be_uint64_injective m n hm hn e =
    let parts =
      append_split (be_uint32 (m / 4294967296)) (be_uint32 (n / 4294967296))
        (be_uint32-width (m / 4294967296) (n / 4294967296)) e in
    omega
      (arith, be_uint32_low (m / 4294967296) (n / 4294967296) parts.0, be_uint32_low m n parts.1)

module _ (eth : EthLib) where
  -- What the bytes of a submission stand for.
  pub record SameSubmission (a b : TaskSubmissionSignatureData) : Type 0 where
    pub task : eth.hex_to_hash a.task_id ≡ eth.hex_to_hash b.task_id
    pub avs : eth.hex_to_address a.avs_address ≡ eth.hex_to_address b.avs_address
    pub executor : eth.hex_to_address a.executor_address ≡ eth.hex_to_address b.executor_address
    pub operator_set : a.operator_set_id ≡ b.operator_set_id
    pub timestamp : a.timestamp ≡ b.timestamp
    pub block : a.block_number ≡ b.block_number
    pub digest : a.payload_digest ≡ b.payload_digest

-- The widths of the machine integers.
pub record Fits (a : TaskSubmissionSignatureData) : Type 0 where
  pub operator_set : a.operator_set_id < 4294967296
  pub timestamp : a.timestamp < 4294967296
  pub block : a.block_number < 18446744073709551616

module _ (eth : EthLib) (widths : EthWidths eth) where
  padded :
      (s : Bytes)
      → eth.left_pad_bytes (eth.hex_to_address s) 32 ≡ replicate 12 0 ++ eth.hex_to_address s
  padded s =
      widths.padding (eth.hex_to_address s) 32 (omega (arith, widths.address_width s))
      ∙ rw (widths.address_width s) refl

  padded_width : (s : Bytes) → length (eth.left_pad_bytes (eth.hex_to_address s) 32) ≡ 32
  padded_width s = rw (padded s) (omega (arith, widths.address_width s))

  number_width : (n : ℕ) → length (replicate 28 0 ++ be_uint32 n) ≡ 32
  unfolding be_uint32
  number_width n = refl

  block_width : (n : ℕ) → length (replicate 24 0 ++ be_uint64 n) ≡ 32
  unfolding be_uint64 be_uint32
  block_width n = refl

  same_address :
      (s t : Bytes)
      → eth.left_pad_bytes (eth.hex_to_address s) 32 ≡ eth.left_pad_bytes (eth.hex_to_address t) 32
      → eth.hex_to_address s ≡ eth.hex_to_address t
  same_address s t e =
      let padded_e : replicate 12 0 ++ eth.hex_to_address s
          ≡ replicate 12 0 ++ eth.hex_to_address t =
        sym (padded s) ∙ e ∙ padded t in
      append_cancel (replicate 12 0) padded_e

  -- Equal signed bytes of two submissions stand for the same task, AVS, executor, operator set,
  -- time, block and payload digest, where their numbers fit the machine integers.
  pub submission_signing_bytes_injective :
      (a b : TaskSubmissionSignatureData)
      → Fits a
      → Fits b
      → submission_signing_bytes eth a ≡ submission_signing_bytes eth b
      → SameSubmission eth a b
  unfolding submission_signing_bytes
  submission_signing_bytes_injective a b fa fb e =
      let (task, e1) =
        append_split (eth.hex_to_hash a.task_id) (eth.hex_to_hash b.task_id)
          (widths.hash_width a.task_id ∙ sym (widths.hash_width b.task_id)) e in
      let (avs, e2) =
        append_split (eth.left_pad_bytes (eth.hex_to_address a.avs_address) 32)
          (eth.left_pad_bytes (eth.hex_to_address b.avs_address) 32)
          (padded_width a.avs_address ∙ sym (padded_width b.avs_address)) e1 in
      let (executor, e3) =
        append_split (eth.left_pad_bytes (eth.hex_to_address a.executor_address) 32)
          (eth.left_pad_bytes (eth.hex_to_address b.executor_address) 32)
          (padded_width a.executor_address ∙ sym (padded_width b.executor_address)) e2 in
      let (set, e4) =
        append_split (replicate 28 0 ++ be_uint32 a.operator_set_id)
          (replicate 28 0 ++ be_uint32 b.operator_set_id)
          (number_width a.operator_set_id ∙ sym (number_width b.operator_set_id)) e3 in
      let (time, e5) =
        append_split (replicate 28 0 ++ be_uint32 a.timestamp)
          (replicate 28 0 ++ be_uint32 b.timestamp)
          (number_width a.timestamp ∙ sym (number_width b.timestamp)) e4 in
      let (block, digest) =
        append_split (replicate 24 0 ++ be_uint64 a.block_number)
          (replicate 24 0 ++ be_uint64 b.block_number)
          (block_width a.block_number ∙ sym (block_width b.block_number)) e5 in
      record {
        task = task;
        avs = same_address a.avs_address b.avs_address avs;
        executor = same_address a.executor_address b.executor_address executor;
        operator_set =
            be_uint32_injective a.operator_set_id b.operator_set_id fa.operator_set fb.operator_set
              (append_cancel (replicate 28 0) set);
        timestamp =
            be_uint32_injective a.timestamp b.timestamp fa.timestamp fb.timestamp
              (append_cancel (replicate 28 0) time);
        block =
            be_uint64_injective a.block_number b.block_number fa.block fb.block
              (append_cancel (replicate 24 0) block);
        digest = digest;
      }

  submission_width :
      (a : TaskSubmissionSignatureData)
      → length a.payload_digest ≡ 32
      → length (submission_signing_bytes eth a) ≡ 224
  unfolding submission_signing_bytes
  submission_width a h = width-append (eth.hex_to_hash a.task_id) _ (widths.hash_width a.task_id) (
      width-append (eth.left_pad_bytes (eth.hex_to_address a.avs_address) 32) _
        (padded_width a.avs_address)
        (width-append (eth.left_pad_bytes (eth.hex_to_address a.executor_address) 32) _
          (padded_width a.executor_address)
          (width-append (replicate 28 0 ++ be_uint32 a.operator_set_id) _
            (number_width a.operator_set_id)
            (width-append (replicate 28 0 ++ be_uint32 a.timestamp) _ (number_width a.timestamp) (
              width-append (replicate 24 0 ++ be_uint64 a.block_number) a.payload_digest
                (block_width a.block_number) h)))))

  result_width :
      (a : TaskResultSignatureData)
      → length a.output_digest ≡ 32
      → length (result_signing_bytes eth a) ≡ 160
  unfolding result_signing_bytes
  result_width a h = width-append (eth.hex_to_hash a.task_id) _ (widths.hash_width a.task_id) (
      width-append (eth.left_pad_bytes (eth.hex_to_address a.avs_address) 32) _
        (padded_width a.avs_address)
        (width-append (eth.left_pad_bytes (eth.hex_to_address a.operator_address) 32) _
          (padded_width a.operator_address)
          (width-append (replicate 28 0 ++ be_uint32 a.operator_set_id) a.output_digest
            (number_width a.operator_set_id) h)))

  -- A submission is encoded exactly at version 1, in 224 bytes.
  pub encode_task_submission_message_versioned_width :
      (task_id avs executor : Bytes) (timestamp block set : ℕ) (payload : Bytes) (version : ℕ)
      → ((version ≡ 1)
          × ((message : Bytes) × (encode_task_submission_message_versioned eth task_id avs executor
                  timestamp block set payload version
                ≡ ok message)
              × (length message ≡ 224)))
        ⊎ ((version ≢ 1)
            × (encode_task_submission_message_versioned eth task_id avs executor timestamp block set
                  payload version
                ≡ err unsupported_version))
  unfolding encode_task_submission_message_versioned encode_task_submission_message
  encode_task_submission_message_versioned_width task_id avs executor timestamp block set payload
        version =
      elim (Bool-cases (nat_beq version 1)) [
        | inl e ↦ inl (
          ground (arith, e),
          (
            encode_task_submission_message eth task_id avs executor timestamp block set payload,
            rw e refl,
            submission_width _ (widths.digest_width payload),
          ),
        )
        | inr e ↦ inr (ground (arith, e), rw e refl)
      ]

  -- A result is encoded exactly at version 1, in 160 bytes.
  pub encode_task_result_message_versioned_width :
      (task_id avs operator : Bytes) (set : ℕ) (output : Bytes) (version : ℕ)
      → ((version ≡ 1)
          × ((message : Bytes) × (encode_task_result_message_versioned eth task_id avs operator set
                  output version
                ≡ ok message)
              × (length message ≡ 160)))
        ⊎ ((version ≢ 1)
            × (encode_task_result_message_versioned eth task_id avs operator set output version
                ≡ err unsupported_version))
  unfolding encode_task_result_message_versioned encode_task_result_message
  encode_task_result_message_versioned_width task_id avs operator set output version =
      elim (Bool-cases (nat_beq version 1)) [
        | inl e ↦ inl (
          ground (arith, e),
          (
            encode_task_result_message eth task_id avs operator set output,
            rw e refl,
            result_width _ (widths.digest_width output),
          ),
        )
        | inr e ↦ inr (ground (arith, e), rw e refl)
      ]

  -- A message that is encoded as a submission is never one that is encoded as a result.
  pub submission-ne-result :
      (task_id avs executor : Bytes) (timestamp block set : ℕ) (payload : Bytes) (version : ℕ)
      (task_id' avs' operator : Bytes) (set' : ℕ) (output : Bytes) (version' : ℕ)
      (submission result : Bytes)
      → encode_task_submission_message_versioned eth task_id avs executor timestamp block set
          payload version
        ≡ ok submission
      → encode_task_result_message_versioned eth task_id' avs' operator set' output version'
        ≡ ok result
      → submission ≢ result
  submission-ne-result task_id avs executor timestamp block set payload version task_id' avs'
        operator set' output version' submission result hs hr same =
      elim (encode_task_submission_message_versioned_width task_id avs executor timestamp block set
        payload version) [
          | inr refused ↦ ground (arith, refused.1)
          | inl (v, (m, em, wm)) ↦
              elim (encode_task_result_message_versioned_width task_id' avs' operator set' output
                version') [
                  | inr refused ↦ ground (arith, refused.1)
                  | inl (v', (m', em', wm')) ↦
                      let long : length submission ≡ 224 =
                        rw (same_value submission m (sym hs ∙ em)) wm in
                      let short : length result ≡ 160 =
                        rw (same_value result m' (sym hr ∙ em')) wm' in
                      omega (arith, long, short, ap length same)
                ]
        ]
