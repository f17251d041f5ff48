-- ===== src/Executor/Inputs.antt =====
-- `_resolve_inputs` and the contract checks of chainweaver/executor.py.
pub mod Uncaught
use chain_weaver.Common.{ℕ, String, Option, none, some, List, [], ◌∷◌, if◌then◌else◌}
use chain_weaver.Dict.{lookup, insert}
use chain_weaver.Value.{Value, object, Context, to_fields, pos}
use chain_weaver.Pointer.{IntOf, Resolved, found, failed_at, is_pointer, resolve_pointer}
use chain_weaver.Tools.{Schema}
use chain_weaver.Executor.Types.{
  Error, input_mapping_error, schema_validation_error, Result, ok, raise, caught_validation, Source,
  key, literal,
}

found_or : String → Option Value → Resolved Value
found_or k none = failed_at k
found_or k (some v) = found v

resolve_source : IntOf → Context → Source → Resolved Value
unfolding found_or
resolve_source int_of context (literal v) = found v
resolve_source int_of context (key k) =
    if is_pointer k
    then resolve_pointer int_of (object (to_fields context)) k
    else found_or k (lookup k context)

module _ (int_of : IntOf) (step_label : String) (step_index : ℕ) where
  store_source : Context → String → Resolved Value → Result Context
  store_source resolved target (failed_at k) = raise (input_mapping_error step_label step_index k)
  store_source resolved target (found v) = ok (insert target v resolved)

  -- The loop over `input_mapping.items()`, after `resolved` is built so far.
  resolve_each : Context → Result Context → List (String × Source) → Result Context
  unfolding resolve_source store_source
  resolve_each context resolved [] = resolved
  resolve_each context (raise e) (entry ∷ entries) = raise e
  resolve_each context (ok resolved) (entry ∷ entries) =
      let (target, source) = entry in
      resolve_each context (store_source resolved target (resolve_source int_of context source))
        entries

  unfoldable pub resolve_inputs : List (String × Source) → Context → Result Context
  unfolding resolve_each
  resolve_inputs [] context = ok context
  resolve_inputs (entry ∷ entries) context = resolve_each context (ok []) (entry ∷ entries)

module _ (step_label : String) (step_index : ℕ) where
  contract_error : String → Result (Option Context) → Result (Option Error)
  contract_error label (raise e) = raise e
  contract_error label (ok (some dumped)) = ok none
  contract_error label (ok none) =
      ok (some (schema_validation_error step_label (pos step_index) label))

  -- `_check_step_contract`, where the step has a contract, with the resolution of its reference.
  unfoldable pub check_step_contract : Option Schema → Context → String → Result (Option Error)
  unfolding contract_error
  check_step_contract none payload label = ok none
  check_step_contract (some contract) payload label =
      contract_error label (caught_validation (contract payload))
