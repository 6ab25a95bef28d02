-- ===== src/Lib.antt =====
-- A verification library for odh-cli, a command line program for Open Data Hub and OpenShift AI on
-- Kubernetes. It models the parts of the program that decide something, as functions that can be run,
-- and proves what makes them correct. Paths below are from the repository's root.
--
-- The parts and their files:
-- - Errors (pkg/util/errors): error values with Go's chains of wrapped errors, the classification that
--   is rendered with `-o json` and `-o yaml`, and the exit codes of the process. Errors/ExitCode is
--   exitcode.go, Errors/Tables and Errors/Classify are errors.go, Errors/Common is common.go;
--   Errors/Codes and Errors/Agreement hold the theorems. `first_in_chain` is errors.As and errors.Is.
-- - Output (pkg/output/envelope.go) and Kube (pkg/resources/types.go, and object metadata).
-- - Lint (pkg/lint): Lint/Result is check/result/result.go, Lint/Condition is check/condition.go,
--   Lint/Check is the Check interface, Lint/Registry is check/registry.go with check/selector.go,
--   Lint/Glob is path.Match, Lint/Executor is check/executor.go, Lint/Options and Lint/Severity are
--   command_options.go, Lint/Verdict is the end of Command.runUpgradeMode in command.go and Lint/Upgrade
--   the whole of it; Lint/Worst, Lint/Kept, Lint/Findings, Lint/Precedence, Lint/Exit,
--   Lint/Selection, Lint/Selectors, Lint/Chosen, Lint/Executions, Lint/Covered, Lint/Flattened and
--   Lint/Readiness hold the theorems. A run goes from the registry by the
--   selectors to the executor, whose executions are filtered by severity and judged; the verdict and
--   the errors of the executions become the error that Errors turns into the exit code.
-- - Kueue (pkg/lint/checks/workloads/kueue and pkg/lint/checks/kueue/discovery): the data integrity
--   check. Kueue/Graph is graph.go, Kueue/Invariants is invariants.go, Kueue/Check is check.go,
--   Kueue/Namespaces is discovery.go, and Kueue/Validate joins them to Validate of check.go; Kueue/Walk,
--   Kueue/Owners, Kueue/Agreement, Kueue/Verdicts, Kueue/Unique and Kueue/Diagnosis hold the theorems.
-- - Deps (pkg/deps): Deps and Deps/Listing are manifest.go, Deps/Graph is graph.go; Deps/Closure,
--   Deps/Shown, Deps/RequiredBy and Deps/Trusted hold the theorems.
-- - Migrate (pkg/migrate): Migrate/Result is action/result/result.go, Migrate/Registry is
--   action/registry.go with the Action interface, Migrate/Executor is action/executor.go,
--   Migrate/Recorder is action/recorder_impl.go, Migrate/Phase is phase.go, Migrate/Run is the loop of
--   command_run.go; Migrate/Steps, Migrate/Recorded, Migrate/Selection, Migrate/Rounds and
--   Migrate/Outcome hold the theorems.
-- - Client (pkg/util/client/errors.go) and Olm (pkg/util/kube/olm): the classes of API errors, the mode of
--   the Operator Lifecycle Manager of mode.go, and in Olm/Channel the channel of a package of channel.go;
--   Olm/Modes and Olm/Highest hold the theorems.
-- - Cmd (pkg/cmd): Cmd/Wait is wait.go and wait_errors.go, Cmd/Watch is watch.go and watch_errors.go, one
--   step for each turn of the loop; Cmd/Streak, Cmd/Backoff, Cmd/Changes and Cmd/Bounds hold the
--   theorems.
-- - Install (pkg/deps, after Deps): Install has the objects of the Operator Lifecycle Manager and the
--   interface of the cluster, Install/Match, Install/Select, Install/Create, Install/Wait and Install/Run
--   are install.go in the order of an installation, Install/Options is its Validate with stdin_input.go,
--   Install/Extensions is olm_state.go, Install/Status is check.go; Install/Unordered, Install/Names,
--   Install/Patience, Install/Requests, Install/Reported, Install/Found and Install/Outcome hold the
--   theorems. A run selects the dependencies that are not there, creates their resources by the mode
--   that Olm resolves, and waits for them.
-- - Events (pkg/events): Events is the options and the namespaces, with the components of
--   pkg/resources/component_crs.go, Events/Labels is the label of an object, Events/Listing is listEvents
--   with its filter and its order, Events/Watch is the watch of a namespace; Events/Keys,
--   Events/Collected, Events/Filtered, Events/Newest, Events/Cached, Events/Sent, Events/Attempts and
--   Events/Versions hold the theorems. A time is a number of nanoseconds since the year 1.
-- - Base: tests, lists, texts, maps with string keys, sorting by a key, stable sorting by a number,
--   permutations, and reachability.
--
-- How Go is rendered: a struct is a record, a nil pointer or error is `none`, a pair of a value and an
-- error is `Returns`, a map is an association list in the order in which a loop meets its entries, a
-- set of names is a list. Functions of other packages are parameters: the predicates of apimachinery
-- (`ApiErrors`, `NotFoundErrors`), the reader of the cluster, the DNS label test, and the order of
-- versions. Migration actions read and change a state of the cluster of any type, which the loops pass
-- on. The cancellation of a context is a function of the number of the check. The cluster of an
-- installation is a record of API operations over a state of any type; the polls of a wait and the
-- turns of a watch are lists that the environment chooses, at whose end the context is done, and the
-- answer of a jq query is what was found, nothing, or an error. errgroup.Wait is a function from the
-- errors of the group to one of them. Workers that answer over a channel are a function that reorders
-- their answers.
--
-- Bounds: the walk over an ownership graph gets a round for each edge and one for the root, the search
-- for transitive dependencies a level for each entry of the manifest and one more, since each round takes
-- one element from the queue and each level visits a name of the manifest for the first time. A number
-- is printed with a round for each digit, of which it has no more than its value plus one. Durations are
-- integers of nanoseconds that do not overflow, since the backoff is capped at 30 seconds; the
-- nanoseconds since 1970 by which events are sorted wrap around at 64 bits, as in the source. All other
-- recursion is structural, the loops over polls and turns on their lists.
--
-- Not modelled: flags, printing, colours and tables, dry runs, the download of a manifest, lower case
-- letters outside ASCII, the Kubernetes client, mutexes, time stamps of results, the channel that joins
-- the watches of several namespaces, single lint checks other than the Kueue one, the migration actions
-- themselves, backups, and the commands get, logs, status, components, diagnose, api and mcp: they
-- mostly call the client.
pub mod Base
pub mod Errors
pub mod Kube
pub mod Output
pub mod Lint
pub mod Kueue
pub mod Deps
pub mod Migrate
pub mod Client
pub mod Cmd
pub mod Olm
pub mod Install
pub mod Events
