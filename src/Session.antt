-- ===== src/Session.antt =====
-- ponos/pkg/taskSession/taskSession.go: `Broadcast`, which sends a task to its operators and feeds
-- their answers to an aggregator until the threshold is met. `select` takes whichever channel is
-- ready, so the loop runs over the events in the order in which it takes them. Signing the
-- submission and sending it are a parameter.
pub mod Certified
pub mod Setup
use hourglass_monorepo.Prelude.{
  ℕ, ◌*◌, Bool, true, false, not, Option, none, some, List, [], ◌∷◌, leb, length, if◌then◌else◌,
  Result, ok, err,
}
use hourglass_monorepo.Text.{Bytes, bytes_beq, equal_fold}
use hourglass_monorepo.Types.{TaskResult}
use hourglass_monorepo.Aggregation.{AggregationError}
use hourglass_monorepo.Aggregation.Ecdsa.{
  Backend, EcdsaAggregator, EcdsaCertificate, process_new_signature, ecdsa_threshold_met,
  generate_final_certificate,
}

-- `ITaskResultAggregator`, with the aggregator that a method updates passed along.
pub record TaskResultAggregator (A Cert : Type 0) : Type 0 where
  pub signing_threshold_met : A → Bool
  pub process_new_signature : A → TaskResult → Result AggregationError A
  pub generate_final_certificate : A → Result AggregationError Cert

-- What the loop of `Broadcast` takes from its two channels.
pub data SessionEvent : Type 0 where
  received : TaskResult → SessionEvent
  context_done : SessionEvent

-- How far the loop is: it waits for more events, or has returned a certificate or an error.
pub data SessionOutcome (A Cert : Type 0) : Type 0 where
  waiting : A → SessionOutcome A Cert
  certified : A → Cert → SessionOutcome A Cert
  certificate_failed : AggregationError → SessionOutcome A Cert
  session_done : SessionOutcome A Cert

-- `maximumTaskResponseSize`
abbrev pub maximum_task_response_size : ℕ
maximum_task_response_size = 1572864

-- The goroutine of one peer, from the answer of its executor on: `none` where there is no answer,
-- and where none is put on the channel.
unfoldable pub answer_of_peer : Bytes → Option TaskResult → Option TaskResult
answer_of_peer peer_address none = none
answer_of_peer peer_address (some res) =
    if not (equal_fold res.operator_address peer_address)
    then none
    else if leb maximum_task_response_size (length res.output)
    then none
    else some res

module _ {A Cert : Type 0} (aggregator : TaskResultAggregator A Cert) (task_id : Bytes) where
  -- The end of a round: the certificate, or the error of its generation.
  abbrev finish_session : A → Result AggregationError Cert → SessionOutcome A Cert
  finish_session a (ok cert) = certified a cert
  finish_session a (err e) = certificate_failed e

  -- The loop of `Broadcast`.
  unfoldable pub broadcast : A → List SessionEvent → SessionOutcome A Cert
  broadcast a [] = waiting a
  broadcast a (context_done ∷ events) = session_done
  broadcast a (received r ∷ events) =
      let dropped = broadcast a events in
      if not (bytes_beq task_id r.task_id)
      then dropped
      else elim (aggregator.process_new_signature a r) [
        | err e ↦ dropped
        | ok a' ↦
            let onwards = broadcast a' events in
            if aggregator.signing_threshold_met a'
            then finish_session a' (aggregator.generate_final_certificate a')
            else onwards
      ]

-- The ECDSA aggregator as an `ITaskResultAggregator`.
abbrev pub ecdsa_task_result_aggregator :
    {Sig : Type 0} → Backend Sig → TaskResultAggregator (EcdsaAggregator Sig) EcdsaCertificate
ecdsa_task_result_aggregator b = record {
  signing_threshold_met = ecdsa_threshold_met;
  process_new_signature = process_new_signature b;
  generate_final_certificate = generate_final_certificate b.eth;
}
