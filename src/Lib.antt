-- ===== src/Lib.antt =====
-- A model of the BorgBase operator: a Kubernetes operator that provisions restic repositories at
-- BorgBase and runs scheduled backups into them.
--
-- The parts, and the code they model:
--   Api          api/v1: the resources Repository and ScheduledBackup, and their methods
--   Kube         the fields of Kubernetes objects that the program reads or writes
--   Errors       Go's errors as values, with the questions that the program asks of them
--   Borgbase     internal/borgbase: the GraphQL client
--   Healthchecks internal/healthchecks: the monitoring settings of a backup
--   Backup       internal/backup: schedules, shell scripts, and the CronJob, Jobs, pods and cache
--                claim of a backup
--   Controller   internal/controller: the two reconcilers. Repository models
--                repository_controller.go, Backups scheduledbackup_controller.go and trigger.go,
--                Predicate predicate.go, Helpers helpers.go
--   Secrets      internal/secrets: the generator of restic passwords
--   Cli          internal/cli: the commands of corg. Derive and Runner model runner/runner.go, Resolve
--                resolve.go and restic.go, Console the printer of output.go, Runs logs.go and
--                cancel.go, Trigger backup.go, Suspend lifecycle.go, Repair repair.go, Restore
--                restore.go and restore_targets.go, Doctor doctor.go, Environment env.go,
--                Maintenance maintenance.go, snapshots.go and the command exec of shell.go
--   Tests        each theorem at a concrete input
--
-- A reconciler is a handler (Controller.Exec): it has the object in memory as its state, makes
-- requests, and returns a value or an error. The requests are kept in a history, the newest
-- first. The environment (Controller.Env) answers a request from the history before it, so the
-- cluster and BorgBase may change between two requests in any way, and a theorem on the requests
-- of a pass holds for every such behaviour. It also holds the functions of the Kubernetes
-- libraries that the reconcilers call. Only, Stays and Returns state what a handler requests,
-- keeps of its object and returns, with one rule for each way to build a handler.
--
-- A function of the source keeps its name, in lower case with underscores: reconcileSecret is
-- reconcile_secret. Where a function is long its branches are helpers above it. `Reconcile` of
-- the two controllers are reconcile_request and reconcile_backup_request.
--
-- Numbers. A text is the list of its bytes. Sizes and settings are integers with no bound, times
-- and durations numbers of nanoseconds; the jitter's hash is taken modulo 2 ^ 32 at each step. A
-- float64 is a sign and a number over a power of two, and products of it are not rounded. The only
-- fuel is that of the printing of a number, which is the number plus one, and so at least its
-- digits.
--
-- A command of corg is such a handler too: its object is the printer. A poll of apimachinery asks as
-- often as the environment says, and an environment that lets it ask any number of times stands for
-- any timeout. A random text and a generated password are answers of the environment.
--
-- Not modelled: logging, the registration of the controllers, the flags of the commands and the
-- making of their clients, and how `%q` escapes quotes and controls. strings.TrimSpace and
-- strings.Fields are those of ASCII text. The parsing and printing of durations, times, quantities
-- and URLs, the transport, the JSON decoders and the expression that recognizes a missing repository
-- are parameters. A BorgBase client is known by its token. The reply to the patch of the finalizers
-- takes the place of the object in memory; the reply to the patch of the status, which no later
-- step of a pass reads, is not kept, and a command of corg keeps the object that it patched in
-- place of the reply. Of internal/cli the migration of a HelmRelease (migrate.go, helmrelease.go,
-- sops.go, cadence.go), the tables of get.go and status.go, develop.go and the interactive shell
-- are left out: they read and write YAML, files and streams.
pub mod Base
pub mod Errors
pub mod Api
pub mod Borgbase
pub mod Kube
pub mod Healthchecks
pub mod Backup
pub mod Secrets
pub mod Cli
pub mod Controller
pub mod Tests
