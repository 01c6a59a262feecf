-- ===== src/Session/Certified.antt =====
-- What the loop of `Broadcast` returns over an ECDSA aggregator.
use hourglass_monorepo.Prelude.{
  ℕ, ◌≡◌, refl, true, false, Option, some, List, [], ◌∷◌, ◌++◌, map, arith, inl, inr, Result, ok,
  err, Bool-cases,
}
use hourglass_monorepo.Text.{Bytes, bytes_beq, bytes_beq_iff}
use hourglass_monorepo.Types.{TaskResult}
use hourglass_monorepo.Aggregation.{Operator, AggregationError}
use hourglass_monorepo.Aggregation.Tally.{winning_group, signing_threshold_met}
use hourglass_monorepo.Aggregation.Ecdsa.{
  Backend, EcdsaAggregator, EcdsaCertificate, process_new_signature, store_response,
  new_ecdsa_aggregator, ecdsa_threshold_met, generate_final_certificate,
}
use hourglass_monorepo.Aggregation.Ecdsa.Process.{process-Processed}
use hourglass_monorepo.Aggregation.Ecdsa.Invariant.{
  IsConsistent, process_new_signature-IsConsistent, new_ecdsa_aggregator-IsConsistent,
}
use hourglass_monorepo.Aggregation.Ecdsa.Certificate.{IsBacked, certificate-IsBacked}
use hourglass_monorepo.Session.{
  SessionEvent, received, context_done, SessionOutcome, waiting, certified, certificate_failed,
  session_done, broadcast, finish_session, ecdsa_task_result_aggregator,
}

module _ {Sig : Type 0} (b : Backend Sig) (task_id : Bytes) where
  -- The digest that the chain computes for an output of the task.
  abbrev pub task_hash : Bytes → Option Bytes
  task_hash = b.calculate_task_message_hash (b.eth.hex_to_hash task_id)

  -- The session waits with its threshold not met, ended with its context, or returned a certificate
  -- that its aggregator backs. It never fails to generate one.
  abbrev pub IsSound : SessionOutcome (EcdsaAggregator Sig) EcdsaCertificate → Type 0
  IsSound (waiting tra) = IsConsistent task_hash tra × (ecdsa_threshold_met tra ≡ false)
  IsSound (certified tra cert) = IsBacked task_hash b.eth tra cert
  IsSound (certificate_failed e) = ⊥
  IsSound session_done = Unit

  -- The session returned a certificate.
  abbrev pub IsCertified : SessionOutcome (EcdsaAggregator Sig) EcdsaCertificate → Type 0
  IsCertified o = (tra : EcdsaAggregator Sig) × (cert : EcdsaCertificate) × (o ≡ certified tra cert)

  -- What the loop keeps of its aggregator.
  record IsOpen (tra : EcdsaAggregator Sig) : Type 0 where
    pub consistent : IsConsistent task_hash tra
    pub same_task : tra.task_id ≡ task_id

  process-IsOpen :
      (tra : EcdsaAggregator Sig) (r : TaskResult) (tra' : EcdsaAggregator Sig)
      → IsOpen tra
      → task_id ≡ r.task_id
      → process_new_signature b tra r ≡ ok tra'
      → IsOpen tra'
  unfolding store_response
  process-IsOpen tra r tra' old same h =
      let p = process-Processed b tra r tra' h in
      record {
        consistent =
            process_new_signature-IsConsistent task_hash b tra r tra' old.consistent (rw same refl)
              h;
        same_task = rw p.stored old.same_task;
      }

  abbrev run :
      EcdsaAggregator Sig
      → List SessionEvent
      → SessionOutcome (EcdsaAggregator Sig) EcdsaCertificate
  run = broadcast (ecdsa_task_result_aggregator b) task_id

  module _ (id : Bytes) (decodes : b.eth.hex_decode task_id ≡ some id) where
    finish_session-IsSound :
        (tra : EcdsaAggregator Sig)
        → IsOpen tra
        → ecdsa_threshold_met tra ≡ true
        → IsSound (
            finish_session
              (ecdsa_task_result_aggregator b)
              task_id
              tra
              (generate_final_certificate b.eth tra))
    finish_session-IsSound tra o met =
        let (cert, made, backed) =
          certificate-IsBacked task_hash b.eth tra id o.consistent met (rw o.same_task decodes) in
        rw made backed

    -- One answer of this task, given what the rest of the events lead to.
    run_round :
        (tra : EcdsaAggregator Sig) (r : TaskResult) (events : List SessionEvent)
        → ((t : EcdsaAggregator Sig)
            → IsOpen t
            → ecdsa_threshold_met t ≡ false
            → IsSound (run t events))
        → IsOpen tra
        → ecdsa_threshold_met tra ≡ false
        → bytes_beq task_id r.task_id ≡ true
        → (p : Result AggregationError (EcdsaAggregator Sig)) → process_new_signature b tra r ≡ p
        → IsSound (run tra (received r ∷ events))
    unfolding broadcast
    run_round tra r events rest o unmet q (ok tra') e =
        let o' = process-IsOpen tra r tra' o ((bytes_beq_iff task_id r.task_id).0 q) e in
        rw (q, e, broadcast)
          (elim (Bool-cases (ecdsa_threshold_met tra')) [
            | inl met ↦ rw met (finish_session-IsSound tra' o' met)
            | inr not_yet ↦ rw not_yet (rest tra' o' not_yet)
          ])
    run_round tra r events rest o unmet q (err x) e = rw (q, e, broadcast) (rest tra o unmet)

    run-IsSound :
        (tra : EcdsaAggregator Sig) (events : List SessionEvent)
        → IsOpen tra
        → ecdsa_threshold_met tra ≡ false
        → IsSound (run tra events)
    unfolding broadcast
    run-IsSound tra [] o unmet = (o.consistent, unmet)
    run-IsSound tra (context_done ∷ events) o unmet = tt
    run-IsSound tra (received r ∷ events) o unmet =
        elim (Bool-cases (bytes_beq task_id r.task_id)) [
          | inr other ↦ rw (other, broadcast) (run-IsSound tra events o unmet)
          | inl same ↦
              run_round tra r events (λ t. run-IsSound t events) o unmet same
                (process_new_signature b tra r) refl
        ]

  -- Results that the aggregator accepts one after the other.
  pub data Accepts : EcdsaAggregator Sig → List TaskResult → EcdsaAggregator Sig → Type 0 where
    none_left : {tra : EcdsaAggregator Sig} → Accepts tra [] tra
    accept :
        {tra : EcdsaAggregator Sig} {r : TaskResult} {rs : List TaskResult}
        {last : EcdsaAggregator Sig} (next : EcdsaAggregator Sig)
        → task_id ≡ r.task_id
        → process_new_signature b tra r ≡ ok next
        → Accepts next rs last
        → Accepts tra (r ∷ rs) last

  run_certifies :
      (id : Bytes) (decodes : b.eth.hex_decode task_id ≡ some id) (tra : EcdsaAggregator Sig)
      {rs : List TaskResult} {last : EcdsaAggregator Sig} (events : List SessionEvent)
      → IsOpen tra
      → ecdsa_threshold_met tra ≡ false
      → ecdsa_threshold_met last ≡ true
      → Accepts tra rs last
      → IsCertified (run tra (map received rs ++ events))
  unfolding broadcast
  run_certifies id decodes tra events o unmet met none_left = absurd (ground arith)
  run_certifies id decodes tra {rs = r ∷ rs} events o unmet met (accept next same e more) =
      let o' = process-IsOpen tra r next o same e in
      rw (e, (bytes_beq_iff task_id r.task_id).1 same, broadcast)
        (elim (Bool-cases (ecdsa_threshold_met next)) [
          | inl now ↦
              let (cert, made, backed) =
                certificate-IsBacked task_hash b.eth next id o'.consistent now
                  (rw o'.same_task decodes) in
              rw (now, made) (next, cert, refl)
          | inr not_yet ↦
              rw not_yet (run_certifies id decodes next {rs = rs} events o' not_yet met more)
        ])

  -- Over a new ECDSA aggregator whose task id decodes, answers that are accepted one after the other
  -- and meet the threshold in the end make `Broadcast` return a certificate, whatever comes later.
  pub ecdsa_broadcast_certifies :
      (timestamp set_id bips : ℕ) (operators : List Operator) (tra last : EcdsaAggregator Sig)
      (id : Bytes) (rs : List TaskResult) (events : List SessionEvent)
      → new_ecdsa_aggregator task_id timestamp set_id bips operators ≡ ok tra
      → b.eth.hex_decode task_id ≡ some id
      → Accepts tra rs last
      → ecdsa_threshold_met last ≡ true
      → IsCertified
          (broadcast (ecdsa_task_result_aggregator b) task_id tra (map received rs ++ events))
  unfolding new_ecdsa_aggregator ecdsa_threshold_met signing_threshold_met winning_group
  ecdsa_broadcast_certifies timestamp set_id bips operators tra last id rs events made decodes
        accepts met =
      run_certifies id decodes tra events
        (record {
          consistent =
              new_ecdsa_aggregator-IsConsistent task_hash task_id timestamp set_id bips operators
                tra made;
          same_task = ground arith;
        })
        (ground arith) met accepts

  -- The loop of `Broadcast` over a new ECDSA aggregator whose task id decodes, whatever the answers
  -- and their order: it waits with its threshold not met, ends with its context, or returns a
  -- certificate that the winning group backs, and never fails to generate one.
  pub ecdsa_broadcast-IsSound :
      (timestamp set_id bips : ℕ) (operators : List Operator) (tra : EcdsaAggregator Sig)
      (id : Bytes) (events : List SessionEvent)
      → new_ecdsa_aggregator task_id timestamp set_id bips operators ≡ ok tra
      → b.eth.hex_decode task_id ≡ some id
      → IsSound (broadcast (ecdsa_task_result_aggregator b) task_id tra events)
  unfolding new_ecdsa_aggregator ecdsa_threshold_met signing_threshold_met winning_group
  ecdsa_broadcast-IsSound timestamp set_id bips operators tra id events made decodes =
      run-IsSound id decodes tra events
        (record {
          consistent =
              new_ecdsa_aggregator-IsConsistent task_hash task_id timestamp set_id bips operators
                tra made;
          same_task = ground arith;
        })
        (ground arith)
