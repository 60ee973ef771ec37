-- ===== src/Sapi/Spec/Sequences.antt =====
-- A sequence of requests to `execute` of src/sapi/executor.rs, in one process: what one request leaves
-- in PHP's globals the next one begins with.
use ripht_php_sapi.Prelude.{
  ◌≡◌, refl, sym, ap, ◌∙◌, subst, Bool, false, List, [], ◌∷◌, length, Result, ok, err,
}
use ripht_php_sapi.Prelude.Int.{pos}
use ripht_php_sapi.Text.{Bytes}
use ripht_php_sapi.Text.FilePath.{FileSystem}
use ripht_php_sapi.Vars.CStrings.{
  cookie_ptr, request_method_ptr, query_string_ptr, content_type_ptr, cstring_pairs,
  into_cstring_pairs,
}
use ripht_php_sapi.Execution.Context.{ExecutionContext}
use ripht_php_sapi.Execution.Result.{ExecutionResult}
use ripht_php_sapi.Sapi.Buffer.{BufferPolicy}
use ripht_php_sapi.Sapi.State.{Sapi, M, pure, ◌>>=◌}
use ripht_php_sapi.Sapi.Engine.{Engine}
use ripht_php_sapi.Sapi.Engine.Live.{Returns, returns, Returns-bind, Returns-map}
use ripht_php_sapi.Sapi.Executor.{ExecutionError, is_failure}
use ripht_php_sapi.Sapi.Execute.{
  Outcome, check_request, execute_checked, execute_with_hooks, execute,
}
use ripht_php_sapi.Sapi.Execute.Completion.{IsIdle}
use ripht_php_sapi.Sapi.Spec.{
  Request, Globals, Behaviour, left_by, result_of, after_startup, completed,
}
use ripht_php_sapi.Sapi.Spec.Outlet.{buffered}
use ripht_php_sapi.Sapi.Spec.View.{globals}
use ripht_php_sapi.Sapi.Spec.Stages.{Conforms}
use ripht_php_sapi.Sapi.Spec.Requests.{opened, Answers, execute_refines}

-- The request that begins with an execution context, in these globals.
unfoldable pub opening : ExecutionContext → Globals → Request
unfolding cookie_ptr request_method_ptr query_string_ptr content_type_ptr cstring_pairs
    into_cstring_pairs
opening ctx g = record {
  unread = ctx.input;
  cookie = cookie_ptr (into_cstring_pairs ctx.server_vars);
  vars = (into_cstring_pairs ctx.server_vars).vars;
  env = cstring_pairs ctx.env_vars;
  logs = ctx.log_to_stderr;
  overrides = cstring_pairs ctx.ini_overrides;
  status = 200;
  headers = [];
  body = [];
  messages = [];
  sent = g.sent;
  registered = g.registered;
  ini = g.ini;
  stderr = g.stderr;
  info = record {
    request_method = request_method_ptr (into_cstring_pairs ctx.server_vars);
    query_string = query_string_ptr (into_cstring_pairs ctx.server_vars);
    cookie_data = g.info.cookie_data;
    content_type = content_type_ptr (into_cstring_pairs ctx.server_vars);
    content_length = length ctx.input;
  };
  code = pos 200;
  post_read = g.post_read;
}

pub opened-opening :
    {C : Type 0} (ctx : ExecutionContext) (s : Sapi C) → opened ctx s ≡ opening ctx (globals s)
unfolding opened opening
opened-opening ctx s = refl

-- Requests, one behind the other, with what `execute` returns of each.
unfoldable pub execute_each :
    {C : Type 0}
    → Engine C
    → BufferPolicy
    → FileSystem
    → Bool
    → List ExecutionContext
    → M C (List (Result ExecutionError ExecutionResult))
unfolding execute
execute_each engine policy fs initialized [] = pure []
execute_each engine policy fs initialized (ctx ∷ ctxs) = do
  out ← execute engine policy fs initialized ctx tt
  outs ← execute_each engine policy fs initialized ctxs
  pure (out.0 ∷ outs)

module _ {C : Type 0} (engine : Engine C) (policy : BufferPolicy) (php : Behaviour)
    (conforms : Conforms ⦃outlet = buffered⦄ engine php) (fs : FileSystem)
    (initialized : Bool) where
  -- A context with its script, in these globals: the request at its end.
  unfoldable pub completed_in : ExecutionContext → Bytes → Globals → Request
  unfolding after_startup completed
  completed_in ctx script g =
      completed engine.memchr php script (after_startup engine.memchr php (opening ctx g)).1

  -- A request in these globals, by its checks: what the specification answers, and the globals that it
  -- leaves. A request that is refused leaves them as they are.
  unfoldable pub answered_in :
      ExecutionContext
      → Result ExecutionError Bytes
      → Globals
      → Result ExecutionError ExecutionResult × Globals
  unfolding completed_in
  answered_in ctx (err e) g = (err e, g)
  answered_in ctx (ok script) g = let r = completed_in ctx script g in (ok (result_of r), left_by r)

  -- The answers to a sequence of requests, each in what the one before has left.
  unfoldable pub results_from :
      List ExecutionContext → Globals → List (Result ExecutionError ExecutionResult)
  unfolding answered_in check_request
  results_from [] g = []
  results_from (ctx ∷ rest) g =
      let (result, g') = answered_in ctx (check_request initialized fs ctx) g in
      result ∷ results_from rest g'

  -- The startup of a request whose checks pass does not report a failure.
  abbrev pub IsStarted : ExecutionContext → Result ExecutionError Bytes → Globals → Type 0
  IsStarted ctx (err e) g = Unit
  IsStarted ctx (ok script) g =
      is_failure (after_startup engine.memchr php (opening ctx g)).0 ≡ false

  abbrev pub AllStart : List ExecutionContext → Globals → Type 0
  AllStart [] g = Unit
  AllStart (ctx ∷ rest) g =
      IsStarted ctx (check_request initialized fs ctx) g
      × AllStart rest (answered_in ctx (check_request initialized fs ctx) g).1

  -- The answers are those of the specification, and nothing is held.
  abbrev pub Yields :
      List ExecutionContext
      → Globals
      → List (Result ExecutionError ExecutionResult)
      → Sapi C
      → Type 0
  Yields ctxs g outs s' = (outs ≡ results_from ctxs g) × IsIdle s'

  -- A request whose checks pass.
  executed :
      (ctx : ExecutionContext) (script : Bytes) (g : Globals) (s : Sapi C)
      → globals s ≡ g
      → check_request initialized fs ctx ≡ ok script
      → is_failure (after_startup engine.memchr php (opening ctx g)).0 ≡ false
      → Returns
          (Answers tt (completed_in ctx script g))
          (execute engine policy fs initialized ctx tt s)
  unfolding completed_in
  executed ctx script g s e checked starts =
      let o : opened ctx s ≡ opening ctx g = opened-opening ctx s ∙ ap (opening ctx) e in
      subst
        (λ q.
          Returns
            (Answers tt (completed engine.memchr php script (after_startup engine.memchr php q).1))
            (execute engine policy fs initialized ctx tt s))
        o
        (execute_refines engine policy php conforms fs initialized ctx script tt s checked
          (subst (λ q. is_failure (after_startup engine.memchr php q).0 ≡ false) (sym o) starts))

  -- What one request gives in a sequence.
  abbrev Given : Result ExecutionError ExecutionResult × Globals → Outcome Unit → Sapi C → Type 0
  Given answer out s' = (out.0 ≡ answer.0) × IsIdle s' × (globals s' ≡ answer.1)

  given :
      (ctx : ExecutionContext) (checked : Result ExecutionError Bytes) (g : Globals) (s : Sapi C)
      → check_request initialized fs ctx ≡ checked
      → globals s ≡ g
      → IsIdle s
      → IsStarted ctx checked g
      → Returns (Given (answered_in ctx checked g)) (execute engine policy fs initialized ctx tt s)
  unfolding answered_in execute execute_with_hooks execute_checked
  given ctx (err e) g s h left idle starts = rw h (returns (refl, idle, left))
  given ctx (ok script) g s h left idle starts =
      Returns-map (λ out s' a. (ap (λ (o : Outcome Unit). o.0) a.0, a.1, a.2))
        (executed ctx script g s left h starts)

  -- For PHP that behaves by the request alone and interns INI names, from any state in which nothing
  -- is held: if no startup of a request whose checks pass reports a failure, the requests of a
  -- sequence, made with `execute` one behind the other, all end; a request that is refused has its
  -- error, any other the result of the specification; each begins in the globals that the one before
  -- has left, which a refused request does not change; and nothing is held afterwards.
  pub execute_each_refines :
      (ctxs : List ExecutionContext) (g : Globals) (s : Sapi C)
      → globals s ≡ g
      → IsIdle s
      → AllStart ctxs g
      → Returns (Yields ctxs g) (execute_each engine policy fs initialized ctxs s)
  unfolding execute_each results_from
  execute_each_refines [] g s left idle h = returns (refl, idle)
  execute_each_refines (ctx ∷ rest) g s left idle (starts, h) =
      let answer = answered_in ctx (check_request initialized fs ctx) g in
      Returns-bind _ _ (given ctx (check_request initialized fs ctx) g s refl left idle starts)
        (λ out s1 a.
          Returns-bind _ _ (execute_each_refines rest answer.1 s1 a.2 a.1 h)
            (λ outs s2 b. returns (rw b.0 (ap (λ r. r ∷ results_from rest answer.1) a.0), b.1)))
