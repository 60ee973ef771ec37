-- ===== src/Execution/Hooks.antt =====
-- src/execution/hooks.rs: the callbacks of an embedding program. A hook takes `&mut self`, so each
-- maps the state `H` of the implementation to the next one: these are hooks that return. A hook that
-- panics, which the executor does not catch, is outside the model.
use ripht_php_sapi.Prelude.{ℕ, Bool, true}
use ripht_php_sapi.Text.{Str, Bytes}
use ripht_php_sapi.Execution.Message.{ExecutionMessage}
use ripht_php_sapi.Execution.Result.{ExecutionResult}

pub data OutputAction : Type 0 where
  continue done : OutputAction

pub record ExecutionHooks (H : Type 0) : Type 0 where
  pub on_context_created : H → H
  pub on_request_starting : H → H
  pub on_request_started : H → H
  pub on_script_executing : Str → H → H
  pub on_script_executed : Bool → H → H
  pub on_output : Bytes → H → OutputAction × H
  pub on_flush : H → H
  pub on_header : Str → Str → H → Bool × H
  pub on_status : ℕ → H → H
  pub on_php_message : ExecutionMessage → H → H
  pub is_connection_alive : H → Bool
  pub on_request_finishing : H → H
  pub on_request_finished : ExecutionResult → H → H

-- The methods that the trait itself provides; `NoOpHooks` overrides none of them.
abbrev pub no_op_hooks : {H : Type 0} → ExecutionHooks H
no_op_hooks = record {
  on_context_created = λ h. h;
  on_request_starting = λ h. h;
  on_request_started = λ h. h;
  on_script_executing = λ script_path h. h;
  on_script_executed = λ success h. h;
  on_output = λ bytes h. (continue, h);
  on_flush = λ h. h;
  on_header = λ name value h. (true, h);
  on_status = λ code h. h;
  on_php_message = λ message h. h;
  is_connection_alive = λ h. true;
  on_request_finishing = λ h. h;
  on_request_finished = λ result h. h;
}

-- `StreamingCallback`: `on_output` calls the closure, whose captures are the state.
abbrev pub streaming_callback : {H : Type 0} → (Bytes → H → H) → ExecutionHooks H
streaming_callback output_fn = record no_op_hooks {
  on_output = λ bytes h. (done, output_fn bytes h);
}
