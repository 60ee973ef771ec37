-- ===== src/Sapi/Callbacks/Registering.antt =====
-- The variables that `ripht_sapi_register_server_variables` hands to PHP.
use ripht_php_sapi.Prelude.{◌≡◌, true, ◌∷◌, ◌++◌, map, keep, append_assoc}
use ripht_php_sapi.Text.{lit}
use ripht_php_sapi.Text.Utf8.{utf8, cstring}
use ripht_php_sapi.Vars.CStrings.{cstring_of}
use ripht_php_sapi.Vars.CStrings.Laws.{no_nul, encoded, into_cstring_pairs-vars}
use ripht_php_sapi.Execution.Context.{ExecutionContext}
use ripht_php_sapi.Sapi.Buffer.{BufferPolicy}
use ripht_php_sapi.Sapi.Context.{from_context, server_vars}
use ripht_php_sapi.Sapi.State.{Sapi}
use ripht_php_sapi.Sapi.Engine.Live.{Returns, returns}
use ripht_php_sapi.Sapi.Callbacks.{
  register_server_variables, register_all, register_static, register_value, software, with_context,
  get_context,
}
use ripht_php_sapi.Sapi.Callbacks.Sending.{Holds}

server_vars-from_context :
    (C : Type 0) (policy : BufferPolicy) (ctx : ExecutionContext)
    → server_vars (from_context {C = C} policy ctx) ≡ map encoded (keep no_nul ctx.server_vars.vars)
unfolding server_vars from_context
server_vars-from_context C policy ctx = (into_cstring_pairs-vars ctx.server_vars).0

-- In a live request whose server context is made of an execution context, PHP is given the name of
-- the software, and then the UTF-8 of the context's variables in their order, without those that
-- have a NUL in the name or the value.
register_server_variables-registered :
    {C : Type 0} (policy : BufferPolicy) (ctx : ExecutionContext) (s : Sapi C)
    → Holds (from_context policy ctx) s
    → Returns
        (λ _ s'.
          s'.registered
          ≡ s.registered
            ++ (lit "SERVER_SOFTWARE", utf8 software)
              ∷ map encoded (keep no_nul ctx.server_vars.vars))
        (register_server_variables true s)
unfolding register_server_variables register_static register_value register_all with_context
    get_context cstring_of cstring utf8
register_server_variables-registered {C} policy ctx s h = rw h.pointed (
    rw h.allocated
      (returns (rw (server_vars-from_context C policy ctx) (append_assoc s.registered _ _))))
