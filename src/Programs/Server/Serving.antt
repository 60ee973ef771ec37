-- ===== src/Programs/Server/Serving.antt =====
-- What the clients of examples/http_server.rs are answered, and how one of them ends the server.
use ripht_php_sapi.Prelude.{
  suc, ◌≡◌, refl, sym, ap, ◌∙◌, true, List, [], ◌∷◌, ◌++◌, append-nil, append_assoc, map, length,
  All, Result, ok, err,
}
use ripht_php_sapi.Text.{Str, Bytes, lit}
use ripht_php_sapi.Text.Decimal.{decimal}
use ripht_php_sapi.Text.Utf8.{utf8}
use ripht_php_sapi.Execution.Result.{ExecutionResult}
use ripht_php_sapi.Adapters.Method.{get}
use ripht_php_sapi.Adapters.Web.Methods
use ripht_php_sapi.Sapi.State.{Sapi, Run, done}
use ripht_php_sapi.Sapi.Engine.Live.{IsStatus, Returns, returns, Returns-bind, Returns-map}
use ripht_php_sapi.Sapi.Executor.{ExecutionError}
use ripht_php_sapi.Sapi.Instance.{Module, is_initialized}
use ripht_php_sapi.Sapi.Execute.Completion.{IsIdle, Starts, Completed, completed}
use ripht_php_sapi.Bench.{vec}
use ripht_php_sapi.Programs.{Print, Place, pure, proceed, build_request, or_web_error}
use ripht_php_sapi.Programs.Running.{IsRunnable, build-ok, api_execute-Completed}
use ripht_php_sapi.Programs.Server.{
  Connection, read_head, answer, write_each, respond, handle, serve,
}

-- The pieces in a row.
unfoldable pub joined : List Bytes → Bytes
joined [] = []
joined (piece ∷ pieces) = piece ++ joined pieces

write_each-vec :
    (pieces : List Bytes) (w : Bytes) → write_each vec pieces w ≡ ok (w ++ joined pieces)
unfolding write_each joined
write_each-vec [] w = ap ok (sym (append-nil w))
write_each-vec (piece ∷ pieces) w =
    write_each-vec pieces (w ++ piece) ∙ ap ok (append_assoc w piece (joined pieces))

-- The bytes of a response: its status, the length of its body, and the body.
abbrev pub http_response : ExecutionResult → Bytes
http_response r =
    lit "HTTP/1.1 "
    ++ (utf8 (decimal r.status)
        ++ (lit "\r\nContent-Length: "
            ++ (utf8 (decimal (length r.body)) ++ (lit "\r\n\r\n" ++ r.body))))

joined-answer : (r : ExecutionResult) → joined (answer (ok r)) ≡ http_response r
unfolding joined answer
joined-answer r = rw (append-nil r.body) refl

-- What the connections have been answered, by the results of their requests.
unfoldable pub answered : List (Connection Bytes) → List ExecutionResult → List Bytes
answered [] results = []
answered (c ∷ cs) [] = []
answered (c ∷ cs) (r ∷ results) = (c.stream ++ http_response r) ∷ answered cs results

module _ {C : Type 0} (place : Place C) (starts : Starts place.engine place.policy) (m : Module)
    (initialized : is_initialized m ≡ true) (script : Str)
    (runnable : IsRunnable place.files script) where
  -- A result with a status of HTTP that was written behind what the stream had; and nothing is held.
  abbrev Responded : Bytes → List Print → Result Str Bytes × List Print → Sapi C → Type 0
  Responded w out res s' =
      (result : ExecutionResult) × IsStatus result.status
      × (res ≡ (ok (w ++ http_response result), out))
      × IsIdle s'

  responded :
      (w : Bytes) (out : List Print) (r : Result ExecutionError ExecutionResult) (s' : Sapi C)
      → Completed r s'
      → Responded w out (write_each vec (answer r) w, out) s'
  responded w out (err e) s' c = elim c [ ]
  responded w out (ok result) s' (completed status idle) = (
    result,
    status,
    ap (λ q. (q, out)) (write_each-vec (answer (ok result)) w)
        ∙ ap (λ q. (ok (w ++ q), out)) (joined-answer result),
    idle,
  )

  respond-Responded :
      (w : Bytes) (out : List Print) (s : Sapi C)
      → Returns (Responded w out) (respond vec place m w script out s)
  unfolding respond build_request or_web_error
  respond-Responded w out s =
      let (ctx, built, same) =
        build-ok place.unicode place.files place.now Methods.get get script refl runnable.0 in
      rw built (
        Returns-bind _ _ (api_execute-Completed place starts m initialized ctx s (rw same runnable))
          (λ o s' c. returns (responded w out o.0 s' c)))

  handle-Responded :
      (c : Connection Bytes) (out : List Print) (s : Sapi C)
      → read_head c.received ≡ ok tt
      → Returns (Responded c.stream out) (handle vec place m script (ok c) out s)
  unfolding handle
  handle-Responded c out s h = rw h (respond-Responded c.stream out s)

  abbrev behind : List Bytes → Result Str (List Bytes) → Result Str (List Bytes)
  behind ws (ok vs) = ok (ws ++ vs)
  behind ws (err e) = err e

  -- As many results as connections, each with a status of HTTP; what follows them has come to `r`.
  abbrev pub Served :
      List (Connection Bytes)
      → Result Str (List Bytes)
      → List Print
      → Result Str (List Bytes) × List Print
      → Sapi C
      → Type 0
  Served cs r out res s' =
      (results : List ExecutionResult) × (length results ≡ length cs)
      × All (λ (q : ExecutionResult). IsStatus q.status) results
      × (res ≡ (behind (answered cs results) r, out))
      × IsIdle s'

  -- One more stream in front.
  more-behind :
      (w : Bytes) (ws : List Bytes) (r : Result Str (List Bytes)) (out : List Print) (s' : Sapi C)
      → proceed {C = C} (λ vs. pure (w ∷ vs)) (behind ws r, out) s'
        ≡ done (behind (w ∷ ws) r, out) s'
  more-behind w ws (ok vs) out s' = refl
  more-behind w ws (err e) out s' = refl

  behind-nil : (r : Result Str (List Bytes)) → r ≡ behind [] r
  behind-nil (ok vs) = refl
  behind-nil (err e) = refl

  serve-Served :
      (cs : List (Connection Bytes)) (rest : List (Result Str (Connection Bytes)))
      (r : Result Str (List Bytes)) (out : List Print) (s : Sapi C)
      → All (λ (c : Connection Bytes). read_head c.received ≡ ok tt) cs
      → IsIdle s
      → ((s' : Sapi C) → IsIdle s' → serve vec place m script rest out s' ≡ done (r, out) s')
      → Returns (Served cs r out) (serve vec place m script (map ok cs ++ rest) out s)
  unfolding answered serve
  serve-Served [] rest r out s h idle tail =
      rw (tail s idle) (returns ([], refl, tt, ap (λ q. (q, out)) (behind-nil r), idle))
  serve-Served (c ∷ cs) rest r out s (h, hs) idle tail =
      Returns-bind _ _ (handle-Responded c out s h) (λ res s' (result, status, e, idle'). rw e (
        Returns-bind _ _ (serve-Served cs rest r out s' hs idle' tail)
          (λ res' s'' (results, same, statuses, e', idle''). rw e' (
            rw (more-behind (c.stream ++ http_response result) (answered cs results) r out s'')
              (returns (result ∷ results, ap suc same, (status, statuses), refl, idle''))))))

  -- If INI names can be interned, PHP's startup of a request does not report a failure and the script
  -- is there, with no null byte in its path, then each connection whose head is UTF-8 up to its first
  -- blank line is answered, whatever PHP calls: the loop over such connections, on streams that take
  -- every byte, ends with one result for each of them, in order, with a status in 100..=599; the status
  -- line, the length of the body and the body were written behind what its stream had; and the pointer
  -- and the box are gone.
  pub serve-answered :
      (cs : List (Connection Bytes)) (out : List Print) (s : Sapi C)
      → All (λ (c : Connection Bytes). read_head c.received ≡ ok tt) cs
      → IsIdle s
      → Returns
          (λ res s'.
            (results : List ExecutionResult) × (length results ≡ length cs)
            × All (λ (q : ExecutionResult). IsStatus q.status) results
            × (res ≡ (ok (answered cs results), out))
            × IsIdle s')
          (serve vec place m script (map ok cs) out s)
  serve-answered cs out s h idle =
      rw (← append-nil {A = Result Str (Connection Bytes)} (map ok cs)) (
        Returns-map
          (λ res s' (results, same, statuses, e, idle'). (
            results,
            same,
            statuses,
            e ∙ ap (λ ws. (ok ws, out)) (append-nil (answered cs results)),
            idle',
          ))
          (serve-Served cs [] (ok []) out s h idle (λ s' idle'. unfold serve in refl)))

  -- The results of the connections in front, and the same loop with a tail that ends it.
  abbrev Ended :
      List (Connection Bytes)
      → Str
      → List Print
      → Run C (Result Str (List Bytes) × List Print)
      → Result Str (List Bytes) × List Print
      → Sapi C
      → Type 0
  Ended cs e out whole res s' =
      (results : List ExecutionResult) × (length results ≡ length cs)
      × (res ≡ (ok (answered cs results), out))
      × IsIdle s'
      × (whole ≡ done (err e, out) s')
