-- ===== src/Executor/Inputs/Uncaught.antt =====
-- What a validation may raise past `except ValidationError`.
use chain_weaver.Common.{ℕ, String, Option, none, some, ◌≢◌, arith}
use chain_weaver.Value.{Context}
use chain_weaver.Tools.{
  Exc, validation_error, tool_timeout, tool_output_size, tool_definition, other, Outcome, returned,
  raised, Schema,
}
use chain_weaver.Executor.Types.{Error, unwrapped, Result, ok, raise, caught_validation}
use chain_weaver.Executor.Inputs.{contract_error, check_step_contract}

-- An exception that is not a validation error, which nothing catches.
pub data IsUncaught : Error → Type 0 where
  uncaught :
      (x : Exc) → ((message : String) → x ≢ validation_error message) → IsUncaught (unwrapped x)

-- What a function may raise is uncaught.
abbrev pub RaisesUncaught {ℓ} : {A : Type ℓ} → Result A → Type 0
RaisesUncaught (raise e) = IsUncaught e
RaisesUncaught (ok a) = Unit

pub caught_validation-RaisesUncaught : (o : Outcome Context) → RaisesUncaught (caught_validation o)
caught_validation-RaisesUncaught (returned a) = tt
caught_validation-RaisesUncaught (raised (validation_error m)) = tt
caught_validation-RaisesUncaught (raised (tool_timeout m)) = uncaught _ (λ n e. ground (arith, e))
caught_validation-RaisesUncaught (raised (tool_output_size m)) =
    uncaught _ (λ n e. ground (arith, e))
caught_validation-RaisesUncaught (raised (tool_definition m)) =
    uncaught _ (λ n e. ground (arith, e))
caught_validation-RaisesUncaught (raised (other c m)) = uncaught _ (λ n e. ground (arith, e))

pub check_step_contract-RaisesUncaught :
    (label : String) (i : ℕ) (contract : Option Schema) (payload : Context) (name : String)
    → RaisesUncaught (check_step_contract label i contract payload name)
unfolding check_step_contract contract_error
check_step_contract-RaisesUncaught label i none payload name = tt
check_step_contract-RaisesUncaught label i (some contract) payload name =
    by_result (caught_validation (contract payload))
      (caught_validation-RaisesUncaught (contract payload))
  where
    by_result :
        (o : Result (Option Context))
        → RaisesUncaught o
        → RaisesUncaught (contract_error label i name o)
    by_result (raise e) why = why
    by_result (ok none) why = tt
    by_result (ok (some dumped)) why = tt
