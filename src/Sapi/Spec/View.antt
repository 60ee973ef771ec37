-- ===== src/Sapi/Spec/View.antt =====
-- The request that a state of src/sapi stands for, and the rules by which an action implements a step
-- of the specification.
use ripht_php_sapi.Prelude.{◌≡◌, refl, ap, ◌∙◌, Bool, true, false, none, some, drop, if◌then◌else◌}
use ripht_php_sapi.Sapi.Context.{ServerContext, context_cookie_data, server_vars}
use ripht_php_sapi.Sapi.State.{boxed, Sapi, M, pure, ◌>>=◌, modify, deref}
use ripht_php_sapi.Sapi.Callbacks.{with_context, get_context}
use ripht_php_sapi.Sapi.Engine.Live.{Returns, returns, Returns-bind}
use ripht_php_sapi.Sapi.Spec.{Request, Globals}
use ripht_php_sapi.Sapi.Spec.Outlet.{Outlet}

-- PHP's globals, by what one request hands on to the next.
abbrev pub globals : {C : Type 0} → Sapi C → Globals
globals s = record {
  sent = s.headers_sent;
  registered = s.registered;
  ini = s.ini_entries;
  stderr = s.stderr;
  info = s.request_info;
  code = s.http_response_code;
  post_read = s.post_read;
}

module _ {C : Type 0} ⦃outlet : Outlet C⦄ where
  -- What the specification sees of PHP's globals and the server context.
  unfoldable pub view : ServerContext C → Sapi C → Request
  unfolding context_cookie_data server_vars
  view ctx s = record {
    unread = drop ctx.post_position ctx.post_data;
    cookie = context_cookie_data ctx;
    vars = server_vars ctx;
    env = ctx.env_vars;
    logs = ctx.log_to_stderr;
    overrides = ctx.ini_overrides;
    status = ctx.status_code;
    headers = ctx.response_headers;
    body = outlet.received ctx.output_callback ctx.output_buffer;
    messages = ctx.messages;
    sent = s.headers_sent;
    registered = s.registered;
    ini = s.ini_entries;
    stderr = s.stderr;
    info = s.request_info;
    code = s.http_response_code;
    post_read = s.post_read;
  }

  -- The output goes where it is looked for, and no callback takes the flushes.
  pub record IsQuiet (ctx : ServerContext C) : Type 0 where
    pub unobserved : outlet.IsOpen ctx.output_callback
    pub unflushed : ctx.flush_callback ≡ none

  -- The box is in place, and the state stands for the request.
  pub record Views (r : Request) (s : Sapi C) : Type 0 where
    pub pointed : s.server_context ≡ boxed
    pub context : ServerContext C
    pub allocated : s.box ≡ some context
    pub quiet : IsQuiet context
    pub seen : view context s ≡ r

  -- From a state that stands for a request, the action ends, returns what the step returns, and leaves
  -- a state that stands for the request after the step.
  abbrev pub Implements : {A : Type 0} → M C A → (Request → A × Request) → Type 0
  Implements m f =
      (s : Sapi C) (r : Request)
      → Views r s
      → Returns (λ a s'. (a ≡ (f r).0) × Views (f r).1 s') (m s)

  pub Implements-pure : {A : Type 0} (a : A) → Implements (pure a) (λ r. (a, r))
  Implements-pure a s r h = returns (refl, h)

  -- A step that is equal at every request.
  pub Implements-eq :
      {A : Type 0} (m : M C A) (f g : Request → A × Request)
      → ((r : Request) → f r ≡ g r)
      → Implements m f
      → Implements m g
  Implements-eq m f g e hm s r h = rw (← e r) (hm s r h)

  pub Implements-bind :
      {A B : Type 0} (m : M C A) (f : Request → A × Request) (k : A → M C B)
      (g : A → Request → B × Request)
      → Implements m f
      → ((a : A) → Implements (k a) (g a))
      → Implements (m >>= k) (λ r. g (f r).0 (f r).1)
  Implements-bind m f k g hm hk s r h =
      Returns-bind (m s) k (hm s r h) (λ a s' both. rw (← both.0) (hk a s' (f r).1 both.1))

  pub Implements-with_context :
      {A : Type 0} (d : A) (m : M C A) (f : Request → A × Request)
      → Implements m f
      → Implements (with_context d m) f
  unfolding with_context get_context
  Implements-with_context d m f hm s r h = simp h.pointed (hm s r h)

  -- An access to the server context.
  pub Implements-deref :
      {A : Type 0} (f : ServerContext C → A × ServerContext C) (g : Request → A × Request)
      → ((ctx : ServerContext C) → IsQuiet ctx → IsQuiet (f ctx).1)
      → ((ctx : ServerContext C) (s : Sapi C)
          → IsQuiet ctx
          → ((f ctx).0 ≡ (g (view ctx s)).0) × (view (f ctx).1 s ≡ (g (view ctx s)).1))
      → Implements (deref f) g
  unfolding view
  Implements-deref f g hq hv s r h = rw h.allocated (
      returns (
        (hv h.context s h.quiet).0 ∙ ap (λ q. (g q).0) h.seen,
        record {
          pointed = h.pointed;
          context = (f h.context).1;
          allocated = refl;
          quiet = hq h.context h.quiet;
          seen = (hv h.context s h.quiet).1 ∙ ap (λ q. (g q).1) h.seen;
        },
      ))

  -- A change of the globals that leaves the pointer and the box alone.
  pub Implements-modify :
      (f : Sapi C → Sapi C) (g : Request → Request)
      → ((s : Sapi C) → (f s).server_context ≡ s.server_context)
      → ((s : Sapi C) → (f s).box ≡ s.box)
      → ((ctx : ServerContext C) (s : Sapi C) → view ctx (f s) ≡ g (view ctx s))
      → Implements (modify f) (λ r. (tt, g r))
  Implements-modify f g p b v s r h = returns (
    refl,
    record {
      pointed = p s ∙ h.pointed;
      context = h.context;
      allocated = b s ∙ h.allocated;
      quiet = h.quiet;
      seen = v h.context s ∙ ap g h.seen;
    },
  )

  pub Implements-if :
      {A : Type 0} (b : Bool) (m n : M C A) (f g : Request → A × Request)
      → Implements m f
      → Implements n g
      → Implements (if b then m else n) (λ r. if b then f r else g r)
  Implements-if true m n f g hm hn = hm
  Implements-if false m n f g hm hn = hn
