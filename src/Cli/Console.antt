-- ===== src/Cli/Console.antt =====
-- internal/cli/output.go: the printer, which keeps its first error and prints nothing after it.
use borgbase_operator.Base.{
  Text, text_eq, Bool, true, false, Option, none, some, List, [], ◌∷◌, if◌then◌else◌,
}
use borgbase_operator.Errors.{Err, Result}
use borgbase_operator.Api.Meta.{Condition}
use borgbase_operator.Controller.Env.{Env, print, print_error}
use borgbase_operator.Controller.Exec.{
  Exec, pure, raise, ask, get_obj, modify, ◌>>=◌, ◌>>◌, on_result, on_option,
}

-- `type printer`: the stream, and the error. A command uses one printer at a time.
pub record Console : Type 0 where
  pub to_error : Bool
  pub failure : Option Err

-- A command line that runs: it prints, and makes requests.
abbrev pub Cmd : Type 0 → Type 0
Cmd A = Exec Console A

-- `newPrinter(out)` and `newPrinter(errOut)`
abbrev pub new_printer : Cmd (Unit {0})
new_printer = modify λ _. record { to_error = false; failure = none }

abbrev pub new_error_printer : Cmd (Unit {0})
new_error_printer = modify λ _. record { to_error = true; failure = none }

-- `p.Err()`
unfoldable pub printer_err : Cmd (Unit {0})
printer_err = do p ← get_obj; on_option p.failure raise (pure tt)

module _ (env : Env) where
  -- One write.
  write_text : Bool → Text → Cmd (Result (Unit {0}))
  write_text to_error text =
      if to_error
      then ask (print_error text) (λ h. env.printed_error h text)
      else ask (print text) (λ h. env.printed h text)

  -- `p.printf`, `p.println` and `p.print`, on the text that they format.
  unfoldable pub say : Text → Cmd (Unit {0})
  unfolding write_text
  say text = do
    p ← get_obj
    on_option p.failure (λ _. pure tt)
        do
          reply ← write_text p.to_error text
          on_result reply pure λ e. modify (λ q. record q { failure = some e })

  -- Lines to the output, and the error of printing them.
  unfoldable pub say_and_check : Text → Cmd (Unit {0})
  unfolding say printer_err
  say_and_check text = do say text; printer_err

-- `func FindCondition`
unfoldable pub find_condition : List Condition → Text → Option Condition
find_condition [] type = none
find_condition (c ∷ cs) type =
    let later = find_condition cs type in if text_eq c.type type then some c else later
