-- ===== src/Sapi/Spec/Requests.antt =====
-- A request to the executor of src/sapi/executor.rs has the result that the specification gives.
use ripht_php_sapi.Prelude.{
  ◌≡◌, refl, subst, ap, ◌∙◌, Bool, true, false, some, [], length, if◌then◌else◌, ok,
}
use ripht_php_sapi.Prelude.Int.{ℤ, pos}
use ripht_php_sapi.Text.{Str, Bytes}
use ripht_php_sapi.Text.FilePath.{FileSystem}
use ripht_php_sapi.Vars.CStrings.{
  cookie_ptr, request_method_ptr, query_string_ptr, content_type_ptr, cstring_pairs,
  into_cstring_pairs,
}
use ripht_php_sapi.Execution.Context.{ExecutionContext}
use ripht_php_sapi.Execution.Hooks.{no_op_hooks}
use ripht_php_sapi.Sapi.Buffer.{BufferPolicy}
use ripht_php_sapi.Sapi.Context.{
  ServerContext, context_request_method, context_query_string, context_content_type, into_result,
  from_context,
}
use ripht_php_sapi.Sapi.State.{boxed, Sapi, M, and_then, deref}
use ripht_php_sapi.Sapi.Engine.{Engine}
use ripht_php_sapi.Sapi.Engine.Live.{Returns, returns, Returns-bind}
use ripht_php_sapi.Sapi.Executor.{
  is_failure, install, setup_globals, startup, apply_ini_overrides, run_script, finish,
}
use ripht_php_sapi.Sapi.Execute.{
  Outcome, check_request, execute_started, execute_checked, execute_with_hooks, execute,
}
use ripht_php_sapi.Sapi.Execute.Completion.{IsIdle}
use ripht_php_sapi.Sapi.Execute.Filtering.{conclude-no_op}
use ripht_php_sapi.Sapi.Spec.{
  Request, Behaviour, left_by, result_of, after_startup, after_script, completed,
}
use ripht_php_sapi.Sapi.Spec.Outlet.{Outlet, buffered}
use ripht_php_sapi.Sapi.Spec.View.{view, globals, IsQuiet, Views, Implements-deref}
use ripht_php_sapi.Sapi.Spec.Stages.{
  Conforms, startup-Implements, run_script-Implements, altered_all, apply_ini_overrides-Implements,
  finish_lem,
}

proceeds :
    {C A : Type 0} {Q : A → Sapi C → Type 0} (fails : Bool) (failed next : M C A) (s : Sapi C)
    → fails ≡ false
    → Returns Q (next s)
    → Returns Q ((if fails then failed else next) s)
proceeds true failed next s h q = absurd (cc h)
proceeds false failed next s h q = q

-- The request that begins with an execution context, in the globals that PHP has at the time.
unfoldable pub opened : {C : Type 0} → ExecutionContext → Sapi C → Request
unfolding cookie_ptr request_method_ptr query_string_ptr content_type_ptr cstring_pairs
    into_cstring_pairs
opened ctx s = record {
  unread = ctx.input;
  cookie = cookie_ptr (into_cstring_pairs ctx.server_vars);
  vars = (into_cstring_pairs ctx.server_vars).vars;
  env = cstring_pairs ctx.env_vars;
  logs = ctx.log_to_stderr;
  overrides = cstring_pairs ctx.ini_overrides;
  status = 200;
  headers = [];
  body = [];
  messages = [];
  sent = s.headers_sent;
  registered = s.registered;
  ini = s.ini_entries;
  stderr = s.stderr;
  info = record {
    request_method = request_method_ptr (into_cstring_pairs ctx.server_vars);
    query_string = query_string_ptr (into_cstring_pairs ctx.server_vars);
    cookie_data = s.request_info.cookie_data;
    content_type = content_type_ptr (into_cstring_pairs ctx.server_vars);
    content_length = length ctx.input;
  };
  code = pos 200;
  post_read = s.post_read;
}

module _ {C : Type 0} ⦃outlet : Outlet C⦄ (engine : Engine C) (policy : BufferPolicy)
    (php : Behaviour) (conforms : Conforms engine php) where
  -- What the end of a request hands over: the context of its response, with nothing held.
  abbrev pub Finished : Request → ServerContext C → Sapi C → Type 0
  Finished r last s' =
      (into_result (outlet.received last.output_callback last.output_buffer) last ≡ result_of r)
      × IsQuiet last
      × IsIdle s'
      × (globals s' ≡ left_by r)

  -- From the overrides to the end, and what follows it.
  pub ran_lem :
      {A : Type 0} (Q : A → Sapi C → Type 0) (script : Bytes) (k : ℤ → ServerContext C → M C A)
      (s : Sapi C) (r : Request)
      → Views r s
      → ((code : ℤ) (last : ServerContext C) (s' : Sapi C)
          → Finished (completed engine.memchr php script r) last s'
          → Returns Q (k code last s'))
      → Returns Q (
          and_then (deref (λ c. (c.ini_overrides, c)) s) (λ es s1.
            and_then (apply_ini_overrides engine es s1) (λ _ s2.
              and_then
                (run_script engine policy script s2)
                (λ code s3. and_then (finish engine policy s3) (k code)))))
  unfolding completed after_script view
  ran_lem Q script k s r v hk =
      Returns-bind _ _
        (Implements-deref (λ c. (c.ini_overrides, c)) (λ q. (q.overrides, q)) (λ ctx q. q)
          (λ ctx s' q. (refl, refl)) s r v)
        (λ es s1 b1.
          Returns-bind _ _ (apply_ini_overrides-Implements engine policy php conforms es s1 r b1.1)
            (λ _ s2 b2.
              Returns-bind _ _
                (run_script-Implements engine policy php conforms script s2
                  (altered_all engine policy php conforms r.overrides r).1
                  (subst (λ x. Views (altered_all engine policy php conforms x r).1 s2) b1.0 b2.1))
                (λ code s3 b3.
                  Returns-bind _ _ (finish_lem engine policy php conforms s3 _ b3.1)
                    (λ last s4 b4. hk code last s4 b4))))

  -- The globals are set up for the request.
  abbrev set_up : ServerContext C → Request → Request
  set_up c r = record r {
    info = record {
      request_method = context_request_method c;
      query_string = context_query_string c;
      cookie_data = r.info.cookie_data;
      content_type = context_content_type c;
      content_length = length c.post_data;
    };
    code = pos 200;
  }

  setup_globals-Views :
      (c : ServerContext C) (s : Sapi C) (r : Request)
      → Views r s
      → Returns (λ _ s'. Views (set_up c r) s') (setup_globals c s)
  unfolding setup_globals view
  setup_globals-Views c s r h = returns (record {
    pointed = h.pointed;
    context = h.context;
    allocated = h.allocated;
    quiet = h.quiet;
    seen = ap (set_up c) h.seen;
  })

  -- Where the startup does not fail, what follows it begins in a state for the request as PHP has left it.
  pub started_lem :
      {A : Type 0} (Q : A → Sapi C → Type 0) (c : ServerContext C) (r : Request)
      (failed next : M C A) (s : Sapi C)
      → IsQuiet c
      → set_up c (view c s) ≡ r
      → is_failure (after_startup engine.memchr php r).0 ≡ false
      → ((s' : Sapi C) → Views (after_startup engine.memchr php r).1 s' → Returns Q (next s'))
      → Returns Q (
          and_then (install c s) (λ _ s0. and_then (setup_globals c s0) (λ _ s1.
            and_then
              (startup engine policy s1)
              (λ code. if is_failure code then failed else next))))
  unfolding install view
  started_lem Q c r failed next s quiet seen starts hnext =
      Returns-bind {Q = Q} _ _
        (setup_globals-Views c (record s { server_context = boxed; box = some c }) (view c s)
          (record { pointed = refl; context = c; allocated = refl; quiet = quiet; seen = refl }))
        (λ _ s1 v1.
          Returns-bind {Q = Q} (startup engine policy s1)
            (λ code. if is_failure code then failed else next)
            (startup-Implements engine policy php conforms s1 r (subst (λ q. Views q s1) seen v1))
            (λ code s2 b2.
              proceeds (is_failure code) failed next s2 (ap is_failure b2.0 ∙ starts)
                (hnext s2 b2.1)))

-- The result is that of the response, the hooks are as they were, nothing is held, and PHP's globals
-- are as the request has left them.
abbrev pub Answers : {C H : Type 0} → H → Request → Outcome H → Sapi C → Type 0
Answers h r out s' = (out ≡ (ok (result_of r), h)) × IsIdle s' × (globals s' ≡ left_by r)

module _ {C : Type 0} (engine : Engine C) (policy : BufferPolicy) (php : Behaviour)
    (conforms : Conforms ⦃outlet = buffered⦄ engine php) where
  execute_started_lem :
      {H : Type 0} (path : Str) (script : Bytes) (h : H) (s : Sapi C) (r : Request)
      → Views ⦃outlet = buffered⦄ r s
      → Returns
          (Answers h (completed engine.memchr php script r))
          (execute_started engine policy no_op_hooks true path script h s)
  unfolding execute_started
  execute_started_lem path script h s r v =
      ran_lem ⦃outlet = buffered⦄ engine policy php conforms _ script _ s r v (λ code last s' b.
        returns (
          ap (λ q. (ok q.0, q.1)) (conclude-no_op true last h) ∙ ap (λ x. (ok x, h)) b.0,
          b.2,
          b.3,
        ))

  -- For PHP that behaves by the request alone and interns INI names: if the checks of a request pass
  -- and the startup does not report a failure, `execute` ends, its result is that of the request
  -- that the specification completes from the execution context, the hooks are as they were, the
  -- pointer and the box are gone, and PHP's globals are as that request has left them.
  pub execute_refines :
      {H : Type 0} (fs : FileSystem) (initialized : Bool) (ctx : ExecutionContext) (script : Bytes)
      (h : H) (s : Sapi C)
      → check_request initialized fs ctx ≡ ok script
      → is_failure (after_startup engine.memchr php (opened ctx s)).0 ≡ false
      → Returns
          (Answers h
            (completed engine.memchr php script (after_startup engine.memchr php (opened ctx s)).1))
          (execute engine policy fs initialized ctx h s)
  unfolding execute execute_with_hooks execute_checked opened from_context view
      context_request_method context_query_string context_content_type
  execute_refines fs initialized ctx script h s checked starts =
      let r : Request = (after_startup engine.memchr php (opened ctx s)).1 in
      rw checked (
        started_lem ⦃outlet = buffered⦄ engine policy php conforms
          (Answers h (completed engine.memchr php script r)) (from_context policy ctx)
          (opened ctx s) _ (execute_started engine policy no_op_hooks true ctx.script_path script h)
          s (record { unobserved = refl; unflushed = refl }) refl starts
          (λ s' v. execute_started_lem ctx.script_path script h s' r v))
