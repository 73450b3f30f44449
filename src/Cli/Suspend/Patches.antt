-- ===== src/Cli/Suspend/Patches.antt =====
-- lifecycle.go: what the commands change.
use borgbase_operator.Base.{
  Text, Bool, true, false, not, [], ◌∷◌, ◌≡◌, refl, ◌⊎◌, inl, inr, All, arith, if◌then◌else◌,
}
use borgbase_operator.Api.Repository.{Repository}
use borgbase_operator.Api.ScheduledBackup.{ScheduledBackup}
use borgbase_operator.Controller.Env.{
  Env, Call, History, patch_repository, patch_backup, print, print_error,
}
use borgbase_operator.Controller.Exec.{St, pure, lift, ◌>>=◌}
use borgbase_operator.Controller.Exec.Keeps.{Keeps, Keeps-bind, Keeps-pure, Keeps-lift, keeps_rules}
use borgbase_operator.Controller.Exec.Only.{
  Only, Only-pure, Only-bind, Only-if_cases, Only-call, only_rules,
}
use borgbase_operator.Cli.Console.{Console, Cmd, say, say_and_check}
use borgbase_operator.Cli.Resolve.{Target, repository_target, backup_target}
use borgbase_operator.Cli.Suspend.{
  is_suspended, same_bool, patch_target, set_suspend, suspend_target,
}

-- `spec.suspend` of the target.
abbrev pub FlagIs : Target → Bool → Type 0
FlagIs (repository_target repo) b = repo.spec.suspend ≡ b
FlagIs (backup_target sb) b = sb.spec.suspend ≡ b

-- The new object has the flag, and is the old one if it has the old flag again.
abbrev pub SetRepository : Bool → Repository → Repository → Type 0
SetRepository b old new =
    (new.spec.suspend ≡ b)
    × (record new { spec = record new.spec { suspend = old.spec.suspend } } ≡ old)

abbrev pub SetBackup : Bool → ScheduledBackup → ScheduledBackup → Type 0
SetBackup b old new =
    (new.spec.suspend ≡ b)
    × (record new { spec = record new.spec { suspend = old.spec.suspend } } ≡ old)

-- A request that setting the flag of a target may make: printing, or the patch of that target, if
-- its flag is the other one, to the target with this flag and with nothing else changed.
abbrev pub Flips : Bool → Target → Call → Type 0
Flips b (repository_target old) (patch_repository new) =
    FlagIs (repository_target old) (not b) × SetRepository b old new
Flips b (backup_target old) (patch_backup new) =
    FlagIs (backup_target old) (not b) × SetBackup b old new
Flips b t (print _) = Unit
Flips b t (print_error _) = Unit
Flips b t _ = ⊥

-- One of the requests patches a Repository or a backup.
abbrev pub Patches : History → Type 0
Patches [] = ⊥
Patches (patch_repository _ ∷ h) = Unit
Patches (patch_backup _ ∷ h) = Unit
Patches (_ ∷ h) = Patches h

module _ (env : Env) (b : Bool) where
  say_and_check-Flips : (t : Target) (text : Text) → Only (Flips b t) (say_and_check env text)
  unfolding say_and_check
  say_and_check-Flips (repository_target repo) text = search only_rules depth 14
  say_and_check-Flips (backup_target sb) text = search only_rules depth 14

  patch_target-Flips :
      (t : Target) → FlagIs t (not b) → Only (Flips b t) (patch_target env (set_suspend b t))
  unfolding patch_target
  patch_target-Flips (repository_target repo) h =
      Only-bind _ _ (Only-call _ _ (h, (refl, refl))) (λ _. Only-pure tt)
  patch_target-Flips (backup_target sb) h = Only-call _ _ (h, (refl, refl))

  say_and_check-Patches : (text : Text) → Keeps Patches (say_and_check env text)
  unfolding say_and_check say
  say_and_check-Patches text = search keeps_rules depth 14

  same_flag : (t : Target) → same_bool (is_suspended t) b ≡ false → FlagIs t (not b)
  same_flag (repository_target repo) h = ground (arith, h)
  same_flag (backup_target sb) h = ground (arith, h)

  other_flag : (t : Target) → FlagIs t (not b) → same_bool (is_suspended t) b ≡ false
  other_flag (repository_target repo) h = ground (arith, h)
  other_flag (backup_target sb) h = ground (arith, h)

  flag_cases : (t : Target) → FlagIs t b ⊎ FlagIs t (not b)
  flag_cases (repository_target repo) = ground arith
  flag_cases (backup_target sb) = ground arith

  suspend_target-Flips : (past : Text) (t : Target) → Only (Flips b t) (suspend_target env b past t)
  unfolding suspend_target
  suspend_target-Flips past t =
      Only-if_cases (same_bool (is_suspended t) b) _ _ (λ q. say_and_check-Flips t _)
        λ q. Only-bind _ _ (patch_target-Flips t (same_flag t q)) (λ _. say_and_check-Flips t _)

  -- Once the patch is asked for, it stays asked for.
  patch_target-Patches :
      (t : Target) (text : Text) (s : St Console)
      → Patches ((patch_target env t >>= λ _. say_and_check env text) s).1.calls
  unfolding patch_target ◌>>=◌ lift
  patch_target-Patches (repository_target repo) text s =
      let reply = lift (env.patched_repository s.calls repo) in
      (Keeps-bind (reply >>= λ _. pure tt) (λ _. say_and_check env text)
          (Keeps-bind reply _ (Keeps-lift _) (λ _. Keeps-pure tt))
          (λ _. say_and_check-Patches text)).at
        (record s { calls = patch_repository repo ∷ s.calls }) tt
  patch_target-Patches (backup_target sb) text s =
      (Keeps-bind (lift (env.patched_backup s.calls sb)) (λ _. say_and_check env text)
          (Keeps-lift _) (λ _. say_and_check-Patches text)).at
        (record s { calls = patch_backup sb ∷ s.calls }) tt

  chosen :
      (same : Bool) (m n : Cmd (Unit {0})) (s : St Console)
      → same ≡ false
      → Patches (n s).1.calls
      → Patches ((if same then m else n) s).1.calls
  chosen true m n s e h = cc
  chosen false m n s e h = h

  suspend_target-Patches :
      (past : Text) (t : Target) (s : St Console)
      → FlagIs t b ⊎ Patches (suspend_target env b past t s).1.calls
  unfolding suspend_target
  suspend_target-Patches past t s = elim (flag_cases t) [
    | inl same ↦ inl same
    | inr other ↦ inr (
        chosen (same_bool (is_suspended t) b) _ _ s (other_flag t other)
          (patch_target-Patches (set_suspend b t) _ s))
  ]

-- If the flag of their target has the other value, `suspend` and `resume` ask for a patch. They
-- patch only the target and only then, to an object with this flag that differs from the target in
-- nothing else, and besides that they only print: where the requests before were such, so are those
-- after.
pub suspend_target-Only :
    (env : Env) (b : Bool) (past : Text) (t : Target) (s : St Console)
    → All (Flips b t) s.calls
    → All (Flips b t) (suspend_target env b past t s).1.calls
      × (FlagIs t b ⊎ Patches (suspend_target env b past t s).1.calls)
suspend_target-Only env b past t s h =
    ((suspend_target-Flips env b past t).at s h, suspend_target-Patches env b past t s)
