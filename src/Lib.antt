-- ===== src/Lib.antt =====
-- Verification library of the hourglass monorepo: ponos, in Go: its aggregator reads tasks from
-- a chain, has executors answer them and combines their signatures into a certificate.
--
-- Parts, and the files that model them (paths from the repository's root, ponos/pkg left out):
-- - signing/aggregation: Aggregation holds the data that both aggregators share, Aggregation/Tally
--   the digest groups, stakes and leading digest that ecdsa.go and bn254.go write out twice, and
--   Aggregation/Ecdsa and Aggregation/Bn254 the constructor and methods of ecdsa.go and bn254.go.
--   Children hold the proofs; Aggregation/Bn254/Certificate has the final certificate. A method
--   takes the aggregator and returns the new one or an error; its mutex makes it one step.
-- - taskSession/taskSession.go: Session has the loop of Broadcast over the events that it takes from
--   its channels, for any aggregator that fills the record of ITaskResultAggregator. Session/Setup
--   has the constructors, what is sent to an operator, and Process, a relation for its select.
-- - aggregator/avsExecutionManager: Execution has the manager's state, its constructor and what it
--   asks the chains before a session, and Execution/Handling the sessions' ends, the recovery and
--   the loop of Start. What a select takes is an argument.
-- - operatorManager, peering: Operators and Peering, over the record ContractCaller in Chain, the
--   interface of contractCaller, with the curve types of config.
-- - executor/handlers.go, executor/storage: Executor has the checks of a submission and the signing
--   of a result, Executor/Tasks the handler SubmitTask, over any store of processed tasks, and
--   Executor/Stores and Executor/Badger the two stores.
-- - aggregator/aggregator.go, aggregator/handlers.go: Service has the registration of AVSs, which
--   makes the execution manager of Execution with its queue, and the management's handlers.
-- - signer: Signers has the signer in memory and the one over Web3Signer; Executor/Accepted joins
--   the executor's answer with the aggregator.
-- - executor/handlers.go, executor/executor.go: Executor/Deployments has the handlers of the
--   management and what a start takes over, Executor/Deployments/Startup the rest of Initialize, and
--   Executor/Deployments/Backings the two stores behind them.
-- - executor/avsPerformer: Performer has the data and the state of the container performer,
--   Performer/Containers the life of a container, Performer/Slots the two slots, tasks and drains,
--   Performer/Health events and checks, and Performer/Deploy deployments and rehydration, over a
--   record for Docker. The other children hold the proofs.
-- - containerManager: Restarts has restart policies and decisions, and Restarts/Monitors the
--   monitor of dockerManager.go that restarts a container.
-- - util/signatures.go, util/taskMessageVersion.go, util/utils.go: Messages has the signed messages
--   and the number encodings.
-- - types/task.go, util/utils.go, transactionLogParser/log: Types and Util.
-- - aggregator/storage: Storage has the data and the AggregatorStore interface, Storage/Memory the
--   in-memory store and Storage/Badger the store over BadgerDB, whose database is a record of
--   operations, Kv, with its laws. Each operation is a function of the store that returns it or an
--   error. Storage/Board is what both promise about tasks.
-- - contextManager/taskBlockContextManager: Contexts, over any AggregatorStore.
-- - chainPoller/EVMChainPoller/evmChainPoller.go: Poller (logs, tasks and blocks), Poller/Reorg
--   (reorganisations), Poller/Tick (a tick of the loop, the start and the recovery) and Poller/Queue
--   (the channel), over any AggregatorStore. What the node and the other services answer during
--   a tick is an Env; the store, the contexts and the channel are a World that each function takes
--   and returns.
-- - auth: Auth has the challenge tokens and their verification; an error that leaves a mark on the
--   manager comes with the manager afterwards.
-- Prelude, Text, Dict and Eth are shared: tests and results, byte strings, maps, and the functions
-- of go-ethereum that the code calls, as parameters. Tests holds concrete runs.
--
-- Bounds and fuel: the walk of findOrphanedBlocks recurses on its own depth bound, and the loops on
-- the lists they run over, so no fuel is added. Printing a number recurses on the number plus one,
-- which exceeds its count of digits. Stakes are unbounded, as big.Int is; the predecessor of a block
-- number wraps at 2 ^ 64.
--
-- Not modelled: logging, the network and the clock (parts of Env), crypto-libs and the contracts
-- (a Backend and a Bn254Backend), the connections to the peers, the Docker API,
-- Kubernetes and command-line tools. The in-memory store shares a task with the manager that runs
-- it; what the manager writes into that task, its threshold and its block, does not
-- reach the store of the model.
pub mod Prelude
pub mod Text
pub mod Dict
pub mod Eth
pub mod Util
pub mod Types
pub mod Messages
pub mod Peering
pub mod Chain
pub mod Operators
pub mod Aggregation
pub mod Storage
pub mod Contexts
pub mod Poller
pub mod Session
pub mod Execution
pub mod Service
pub mod Executor
pub mod Restarts
pub mod Signers
pub mod Performer
pub mod Auth
pub mod Tests
