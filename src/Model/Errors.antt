-- ===== src/Model/Errors.antt =====
-- errors.go. A result carries the sentinel that the source's error wraps, not its text; `external`
-- is an error of a function that the application hands to Core.
use project_ariadne.Base.{String, Option, none, some}

pub data CoreError : Type 0 where
  closed invalid_config invalid_command invalid_argument not_found already_exists : CoreError
  invalid_state event_queue_overflow : CoreError
  external : String → CoreError

pub data Result {ℓ} (A : Type ℓ) : Type ℓ where
  ok : A → Result A
  err : CoreError → Result A

abbrev pub result_or : {A : Type 0} → CoreError → Option A → Result A
result_or e none = err e
result_or e (some a) = ok a
