-- ===== src/Lib.antt =====
-- OpenSaola is a Kubernetes operator that installs middleware from packages and keeps it running.
-- These modules model the parts of it that decide something, as functions and step relations, and
-- prove what those decisions guarantee. Paths are from the repository's root.
--
-- How the parts interact. A controller reconciles a Middleware by rendering resources, applying
-- them and starting a synchroniser (SyncV2) for its primary custom resource. A session stands for
-- the synchroniser that runs for a resource; informer events reach it through a debouncer; it
-- projects the state of the workload into the status, which the status rules of the operator
-- baseline may overlay and the readiness diagnostic explains. A configuration's rendered resources
-- are recorded in an inventory, by which later cleanups decide what they may delete. Each write of
-- a rendered resource goes through a writer that checks the owner and the live object, first puts
-- what it rendered into a record, and publishes the record's name with the write; a collector
-- deletes the records that nothing can refer to any more. A paused resource carries a durable
-- marker in its conditions and the name of a snapshot of its spec, kept in such a record. A
-- deletion whose object lacks what it needs takes it from a cache.
--
-- The files:
-- - Api: the phases, conditions and annotations of api/v1.
-- - Workload: internal/k8s/deployment.go, sts.go, daemonsets.go and workload_phase.go.
--   `derive_deployment_phase`, `derive_stateful_set_phase` and `derive_daemon_set_phase` are the
--   functions of those names; the counters are natural numbers, as the API server's validation
--   admits no negative ones.
-- - Status: internal/service/status/condition.go. A pointer to a condition is an index into its
--   slice. FindStatusCondition and SetStatusCondition of apimachinery are a parameter, with their
--   documented behaviour as its laws; SetStatusCondition sets a time that is zero.
-- - Pause: internal/controller/reconcile_suspension.go, over Status.
-- - Session: internal/service/synchronizer/sync_state.go. `World` is the shared state with the
--   place of each goroutine; `step` runs one atomic action of one goroutine; `run_all` runs any
--   sequence of them, and in Returns `alone` those of one goroutine. The first release of a
--   session runs its body, and a later one waits for it, as sync.Once does.
-- - Debounce: internal/service/synchronizer/debouncer.go. `notify`, `stop` and `callback` are
--   Notify, Stop and the function handed to AfterFunc; `expire` is the runtime starting that
--   function. Debounce/Registry is NsDebounceRegistry.
-- - Configuration: internal/service/middlewareconfiguration/ownership.go and inventory.go. The API
--   server is a parameter that may answer anything; the deletions sent to it are recorded.
-- - Cache: internal/cache/store.go, with the clock as an argument, for calls that do not overlap:
--   in Go the Load and the Delete inside Get, and the deletions of Clear, are separate calls of
--   the sync.Map, between which a concurrent Set can come.
-- - DeleteContext: internal/service/middleware/delete_context.go, and in Operators
--   internal/service/middlewareoperator/delete_context.go, over Cache.
-- - IntentPaths: intentPathsOverlap, intentContainsPath and intentSafePath of
--   internal/k8s/intent_merge.go. A value of a key or a set item is its text where a path is
--   written. The sets of paths of structured-merge-diff are a parameter: has, child and is_empty
--   stand for Members.Has, Children.Get and Empty, and their laws say which paths a set contains.
-- - Intents: internal/k8s/resource_intent.go, resource_intent_codec.go, resource_intent_gc.go,
--   reconcile_pause_snapshot.go and the identity check of managed_resource.go. A `Rendered` is an
--   unstructured object with the fields that are read. Objects has cleanApplyObject and
--   intentObject, Identity whose object it is, Codec the data of a Secret, Records its preparation
--   and loading, Snapshots the snapshots of a pause, Answers what the API server answers, Collect
--   what the collector does with one record, Adoption configuration_adoption.go, and Writer the
--   attempts of Reconcile with verifyObservedSpecForWrite of observed_spec_changes.go and
--   isImmutableResource of customresource.go. Protocol has the calls of writers and collector on
--   one object as steps in any order; a resourceVersion is the number of a write through an
--   injective `version`. Others write the object without a pointer, or apply what they read under
--   its UID and resourceVersion as prepareCustomResourceApply of customresource.go has it, and
--   delete no records. Client, Reader, the codecs, the hash, GetControllerOf and DeepEqual are
--   parameters.
-- - Readiness: internal/service/synchronizer/readiness_diagnostic.go. A diagnostic is the object,
--   field and state that it names; its text is not modelled. Readiness/Messages reads the
--   scheduler's messages.
-- - StatusWrite: the retried writes of internal/k8s/middleware.go. A `Round` of
--   retry.RetryOnConflict has what its read returns, from a cache or the server, and what the
--   server has stored when the update arrives; the server accepts an update of the stored resource
--   version only. The list of rounds is what the backoff grants. The cache entry that a read
--   writes is left out.
-- - StatusRule: internal/service/statusrule/statusrule.go, and in Declared
--   internal/service/synchronizer/status_rules.go. The values and the compiler of cel-go,
--   time.Parse, the JSON round trip and the read of the operator baseline are parameters. The
--   program cache is a state passed on; its two locked sections are `lookup_program` and
--   `publish`. An int has 64 bits.
-- - Base: lists, maps and texts. Examples: each theorem with hypotheses at a concrete input.
--
-- Bounds and fuel. Every loop of the source that is modelled goes over a list, that of the retries
-- over the list of its rounds, or counts down as the five attempts of Reconcile do, so every
-- function is by structural recursion. Times are natural numbers of nanoseconds with 0 for Go's
-- zero time; sums of times do not overflow, as the clock's do not within its range.
--
-- Not modelled: the Kubernetes client and its errors beyond what the parameters state, logging,
-- metrics, the controllers' reconcile loops, the rendering of templates and CUE, packages and
-- archives, the merge of resource intents and their schemas, generated code and start-up.
mod Base
pub mod Api
pub mod Workload
pub mod Status
pub mod Pause
pub mod Session
pub mod Debounce
pub mod Cache
pub mod Intents
pub mod IntentPaths
pub mod StatusWrite
pub mod Readiness
pub mod DeleteContext
pub mod StatusRule
pub mod Configuration
mod Examples
