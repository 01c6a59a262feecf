-- ===== src/Tests/Registrations.antt =====
-- An aggregator with one chain, and the registration of an AVS with a pending task.
use hourglass_monorepo.Prelude.{ℕ, refl, Bool, true, false, none, [], ◌∷◌}
use hourglass_monorepo.Text.{Bytes, codes}
use hourglass_monorepo.Dict.{Dict, bytes_eq}
use hourglass_monorepo.Chain.{ContractCaller}
use hourglass_monorepo.Storage.Memory.{MemoryStore, memory_store}
use hourglass_monorepo.Service.{
  ServiceConfig, AggregatorAvs, ServiceState, new_aggregator, get_auth_verifier, start_aggregator,
}
use hourglass_monorepo.Service.Held.Runs.{
  registers, deregisters, HasContexts, run_operations, contexts_accounted,
}
use hourglass_monorepo.Tests.Rosters.{chain}
use hourglass_monorepo.Tests.Executions.{manager}

abbrev avs : AggregatorAvs
avs = record { address = codes "0xC"; chain_ids = 1 ∷ [] }

abbrev config : ServiceConfig
config = record {
  aggregator_address = codes "0xa";
  avss = avs ∷ [];
  chains = record { chain_id = 1; poll_interval_seconds = 0 } ∷ [];
  l1_chain_id = 1;
  authentication = none;
  contracts =
      record { name = codes "TaskMailbox"; chain_id = 1; contract_address = codes "0xm" } ∷ [];
}

abbrev callers : Dict ℕ ContractCaller
callers = (1, chain) ∷ []

abbrev pollers : Bytes → Dict ℕ ℕ → MemoryStore → MemoryStore × Bool
pollers address intervals store = (store, true)

abbrev idle_aggregator : ServiceState MemoryStore
idle_aggregator = record {
  store = manager.store;
  avs_managers = [];
  is_started = false;
  next_context = 0;
  cancelled = [];
  auth_verifier = none;
}

contexts_accounted_example : HasContexts memory_store 3 config callers pollers (
    run_operations memory_store 3 config callers pollers
      (deregisters (codes "0xC") ∷ registers avs ∷ registers avs ∷ [])
      (start_aggregator memory_store 3 config callers pollers idle_aggregator).0)
contexts_accounted_example =
    contexts_accounted memory_store 3 config callers pollers none none manager.store idle_aggregator
      (deregisters (codes "0xC") ∷ registers avs ∷ registers avs ∷ [])
      (unfold new_aggregator get_auth_verifier in refl)
