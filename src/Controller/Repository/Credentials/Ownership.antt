-- ===== src/Controller/Repository/Credentials/Ownership.antt =====
-- repository_controller.go, reconcileSecret: the Secret that the operator does not manage.
use borgbase_operator.Api.Repository.{Repository}
use borgbase_operator.Controller.Env.{Env, Call, create_secret, update_secret}
use borgbase_operator.Controller.Exec.Only.{Only}

-- A request that writes no Secret.
abbrev pub NoSecretWrite : Call → Type 0
NoSecretWrite (create_secret _) = ⊥
NoSecretWrite (update_secret _) = ⊥
NoSecretWrite _ = Unit
