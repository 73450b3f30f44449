-- ===== src/Tests/Prunes.antt =====
-- The theorem on the command `prune`.
use borgbase_operator.Base.{false, none}
use borgbase_operator.Errors.{ok}
use borgbase_operator.Api.Repository.{Repository}
use borgbase_operator.Controller.Env.{Env}
use borgbase_operator.Cli.Restore.{Terminal}
use borgbase_operator.Tests.Data.{sample_repository}
use borgbase_operator.Tests.Commands.{cluster}

abbrev writable_repository : Repository
writable_repository = record sample_repository {
  spec = record sample_repository.spec { append_only = false };
}

-- A cluster whose Repository may be pruned.
abbrev writable_cluster : Env
writable_cluster = record cluster { got_repository = λ _ _ _. ok writable_repository }

abbrev no_terminal : Terminal
no_terminal = record { interactive = false; scan_number = λ _. none }
