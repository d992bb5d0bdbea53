-- ===== src/Lib.antt =====
-- Clamor's pallets: the state machine of Fragnova's chain that stores Proto-Fragments, mints and
-- sells Fragments, links accounts to Ethereum, and detaches Proto-Fragments to another chain.
--
-- A dispatchable of a pallet is a function of the storage that returns an outcome and the new
-- storage (Exec/Monad.antt): success, an error, or a panic where the source unwraps a `None`. What
-- was written before an error is kept in the result, so that atomicity is proved and not assumed.
-- A storage map is a function from its keys to options (Exec/Storage.antt). Hash functions,
-- signature recovery, the SCALE codec, base58, the configuration and the other pallets' currencies
-- are records of functions (Host.antt): the theorems hold for all of them. Integers of a fixed
-- width are natural numbers with their wrap-around written out, as in a release build; `usize` has
-- the 64 bits of the native runtime.
--
-- * Base.antt, Exec.antt: tests, lists, maps, the monad of calls, the rules for what a call keeps,
--   the sets of keys, and the answers of the transaction pool.
-- * The files Json.antt and Http.antt: the values of JSON that a listing builds and a synchronisation
--   reads, and `http_json_post` (primitives/clamor/src/lib.rs) over the host's functions for HTTP.
-- * Accounts/ (pallets/accounts/src/lib.rs): `link`, `unlink`, the vote on an update of a lock in
--   `internal_lock_update`, `sponsor_account` (Sponsor.antt), `validate_unsigned` and the keys of
--   the genesis (Validation.antt), and `sync_partner_contracts` of the off-chain worker (Sync.antt,
--   Hexadecimal.antt). Unlinked accounts wait in `PendingUnlinks` for the pallet `protos`. The
--   pallets that `sponsor_account` calls, and the crates that the synchronisation uses, are records
--   of functions.
-- * Detach/ (pallets/detach/src/lib.rs): the requests that `protos` puts into `DetachRequests`, the
--   off-chain worker that signs them (Worker.antt) with keys that it makes from others
--   (Generation.antt), `internal_finalize_detach`, which marks them as detached, and
--   `validate_unsigned` (Validation.antt). The keystore is a record of functions.
-- * Protos/ (pallets/protos/src/lib.rs): upload, patch, transfer, metadata, detaching, stakes, the
--   end of a block, the selection in `get_protos` (Query.antt) and the object that it returns
--   (Listing.antt), over a record for the crate `hex`. The storage of a call, `Chain`, holds that of
--   `accounts` and `detach`, which the calls read and write. Leaving.antt puts the calls, the end of
--   a block and the worker together.
-- * Fragments/ (pallets/fragments/src/lib.rs): definitions, sale, `mint_fragments`, `give`, and the
--   instances that expire at the end of a block. Its `Chain` holds that of `protos` and a ledger.
--   Registry.antt says what the pallet promises: a register in which each instance has one holder,
--   with steps that issue, hand over and retire; Refinement.antt relates runs to it.
-- * Runtime/ (runtime/src/lib.rs): the calls of all pallets on one storage (Calls.antt), a step
--   relation for what a chain of them does (Steps.antt), the constants of the configuration and
--   `create_transaction` (Config.antt). The steps leave open all that the framework decides: their
--   order, whether a call that fails is rolled back, what other pallets do to the ledger, and, where
--   a theorem allows it, calls that root has others dispatch without an origin. Consistency.antt,
--   Marks.antt, Locks.antt, Freezing.antt, Owners.antt, Holders.antt, Keeping.antt and Linking.antt
--   are about all that such a chain reaches. A call of root that writes storage or code is no step.
-- * Node/ (node/src/chain_spec.rs, `load_spec` of node/src/command.rs, and the `GenesisBuild` of the
--   pallets): the chain specifications and the storage at genesis, over records for pairs of keys.
--   Rpc.antt (pallets/protos/rpc/src/lib.rs) is the node's answer to a request for a listing.
-- * Samples.antt and the modules `Tests`, `RegistryTests`, `LeavingTests`, `KeyTests`,
--   `SponsorTests` and `SyncTests`: the theorems at concrete inputs.
--
-- Loops are structural recursion on the list or on the number of rounds, and the loop of
-- `mint_fragments` runs `quantity` times. The one fuel is the 16 digits of a u64 in hexadecimal
-- (Hexadecimal.antt), and reading back what is written shows that it is enough.
--
-- Not modelled: the pallets of Substrate and what its framework does with weights, fees and
-- rollbacks; the service and the command line of the node, which call Substrate; the runtime APIs of
-- Substrate's pallets, which forward calls; weights, benchmarks, mocks and tests; and the runtime
-- interface of primitives/clamor/src/lib.rs. A response to an HTTP request is a finite sequence of reads. The
-- text that serde_json makes of a value is that crate's. The order in which a trie is enumerated is
-- a parameter.
pub mod Base
pub mod Exec
pub mod Host
pub mod Json
pub mod Http
pub mod Samples
pub mod Accounts
pub mod Detach
pub mod Protos
pub mod Fragments
pub mod Runtime
pub mod Node
