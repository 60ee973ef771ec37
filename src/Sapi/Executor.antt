-- ===== src/Sapi/Executor.antt =====
-- `Executor` of src/sapi/executor.rs: one request from its startup to its result.
use ripht_php_sapi.Prelude.{
  Bool, false, Option, none, some, List, [], ◌∷◌, ◌++◌, length, if◌then◌else◌, ◌==◌,
}
use ripht_php_sapi.Prelude.Int.{ℤ, pos, negsuc}
use ripht_php_sapi.Text.{Str, Bytes}
use ripht_php_sapi.Vars.CStrings.{CPtr}
use ripht_php_sapi.Sapi.Buffer.{BufferPolicy}
use ripht_php_sapi.Sapi.Context.{
  ServerContext, context_content_type, context_query_string, context_request_method,
}
use ripht_php_sapi.Sapi.State.{
  ContextPtr, boxed, done, fault, panic, M, and_then, pure, ◌>>=◌, ◌>>◌, modify,
}
use ripht_php_sapi.Sapi.Engine.{Engine, run_phase}

pub data ExecutionError : Type 0 where
  invalid_path : Str → ExecutionError
  script_not_found : Str → ExecutionError
  not_initialized : ExecutionError
  startup_failed : ExecutionError

-- `code == ffi::FAILURE`.
abbrev pub is_failure : ℤ → Bool
is_failure (pos n) = false
is_failure (negsuc n) = n == 0

module _ {C : Type 0} where
  -- `Box::into_raw` and the store of the pointer.
  unfoldable pub install : ServerContext C → M C (Unit {0})
  install ctx = modify (λ s. record s { server_context = boxed; box = some ctx })

  unfoldable pub clear_pointer : M C (Unit {0})
  clear_pointer = modify (λ s. record s { server_context = ContextPtr.null })

  -- `Box::from_raw`: the content of the box, which is freed; a fault if it was freed before.
  unfoldable pub take_box : M C (ServerContext C)
  take_box s = elim s.box [ none ↦ fault | some ctx ↦ done ctx (record s { box = none }) ]

  -- `setup_globals`; the cast to `i64` is the identity below 2^63.
  unfoldable pub setup_globals : ServerContext C → M C (Unit {0})
  unfolding context_content_type context_query_string context_request_method
  setup_globals ctx = modify (λ s. record s {
    request_info = record {
      request_method = context_request_method ctx;
      query_string = context_query_string ctx;
      cookie_data = s.request_info.cookie_data;
      content_type = context_content_type ctx;
      content_length = length ctx.post_data;
    };
    http_response_code = pos 200;
  })

  unfoldable pub cleanup_globals : M C (Unit {0})
  cleanup_globals = modify (λ s. record s {
    server_context = ContextPtr.null;
    request_info = record {
      request_method = s.request_info.request_method;
      query_string = CPtr.null;
      cookie_data = CPtr.null;
      content_type = CPtr.null;
      content_length = s.request_info.content_length;
    };
  })

  -- The loop of `apply_ini_overrides`: an entry whose name cannot be interned is skipped.
  unfoldable pub alter_entries : (Bytes → Bool) → List (Bytes × Bytes) → M C (Unit {0})
  alter_entries init [] = pure tt
  alter_entries init ((key, value) ∷ rest) = do
    modify
        (λ s. if init key then record s { ini_entries = s.ini_entries ++ (key, value) ∷ [] } else s)
    alter_entries init rest

  unfoldable pub alter_with : Option (Bytes → Bool) → List (Bytes × Bytes) → M C (Unit {0})
  unfolding alter_entries
  alter_with none entries s = panic
  alter_with (some init) entries s = alter_entries init entries s

  unfoldable pub apply_ini_overrides : Engine C → List (Bytes × Bytes) → M C (Unit {0})
  unfolding alter_with
  apply_ini_overrides engine [] = pure tt
  apply_ini_overrides engine (e ∷ es) = alter_with engine.init_interned (e ∷ es)

  module _ (engine : Engine C) (policy : BufferPolicy) where
    unfoldable pub startup : M C ℤ
    unfolding run_phase
    startup s = run_phase engine policy (engine.php_request_startup s) s

    unfoldable pub run_script : Bytes → M C ℤ
    unfolding run_phase
    run_script script s = run_phase engine policy (engine.php_execute_script script s) s

    unfoldable pub shutdown : M C (Unit {0})
    unfolding run_phase
    shutdown s = and_then (run_phase engine policy (engine.php_request_shutdown s) s) (λ _. pure tt)

    -- The branch for a startup that failed: the box is dropped, and then PHP is shut down.
    unfoldable pub abandon : M C (Unit {0})
    unfolding take_box shutdown clear_pointer
    abandon = do dropped ← take_box; shutdown; clear_pointer

    -- From the end of the script to the content of the box.
    unfoldable pub finish : M C (ServerContext C)
    unfolding shutdown clear_pointer take_box cleanup_globals
    finish = do
      modify (λ s. record s { post_read = 1 })
      shutdown
      clear_pointer
      ctx ← take_box
      cleanup_globals
      pure ctx
