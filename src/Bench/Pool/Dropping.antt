-- ===== src/Bench/Pool/Dropping.antt =====
-- The end of a pool of benches/shared/pool.rs: what its `drop` writes, and how the processes of
-- benches/shared/worker.rs that read it end.
use ripht_php_sapi.Prelude.{
  ◌<◌, ◌≡◌, refl, sym, ap, ◌∙◌, List, [], ◌∷◌, ◌++◌, append-nil, append_assoc, map, length, All,
  arith,
}
use ripht_php_sapi.Text.{Bytes}
use ripht_php_sapi.Sapi.State.{Sapi, done}
use ripht_php_sapi.Bench.{vec}
use ripht_php_sapi.Bench.Protocol.{Codec, Request, Response, as_io, write_message}
use ripht_php_sapi.Bench.Protocol.Framing.{frame, IsEncodable, write_message_lem}
use ripht_php_sapi.Bench.Pool.{Worker, drop_all}
use ripht_php_sapi.Bench.Worker.{Site, exited, handle_request, answer, round, run_worker_loop}
use ripht_php_sapi.Bench.Worker.Session.{frames, session, run_worker_loop-session}
use ripht_php_sapi.Bench.Worker.Serving.{
  Handled, written, payloads, payloads_short, written_lem, session-Handled,
}

-- What a worker process was sent and has answered, and its state before and behind it.
pub record Job (C : Type 0) : Type 0 where
  pub asked : List Request
  pub answers : List Response
  pub before : Sapi C
  pub behind : Sapi C

frames-append : (ps : List Bytes) (p : Bytes) → frames (ps ++ p ∷ []) ≡ frames ps ++ frame p
unfolding frames
frames-append [] p = append-nil (frame p)
frames-append (q ∷ ps) p =
    ap (λ bs. frame q ++ bs) (frames-append ps p)
    ∙ sym (append_assoc (frame q) (frames ps) (frame p))

short_append :
    (ps : List Bytes) (p : Bytes)
    → All (λ p. length p < 4294967296) ps
    → length p < 4294967296
    → All (λ p. length p < 4294967296) (ps ++ p ∷ [])
short_append [] p h k = (k, tt)
short_append (q ∷ ps) p (h, hs) k = (h, short_append ps p hs k)

module _ {C : Type 0} (site : Site C) (requests : Codec Request) (responses : Codec Response)
    (e : IsEncodable requests Request.shutdown) where
  session-shutdown :
      (w : Bytes) (s : Sapi C)
      → session site requests responses vec (e.0 ∷ []) w s ≡ done (exited w) s
  unfolding session round handle_request answer
  session-shutdown w s =
      ap
        (λ q.
          round site requests responses vec (as_io q) w (session site requests responses vec []) s)
        e.2

  -- The worker of a job, in the pool.
  unfoldable pub worker_of : Job C → Worker Bytes
  unfolding written
  worker_of j = record { writer = written requests j.asked []; reader = [] }

  input_of :
      (rs : List Request) (h : All (IsEncodable requests) rs)
      → (write_message requests vec Request.shutdown (written requests rs [])).1
        ≡ frames (payloads requests rs h ++ e.0 ∷ [])
  input_of rs h =
      ap (λ r. r.1) (write_message_lem requests Request.shutdown (written requests rs []) e)
      ∙ ap (λ bs. bs ++ frame e.0) (written_lem requests rs [] h)
      ∙ sym (frames-append (payloads requests rs h) e.0)

  exited_lem :
      (rs : List Request) (out : List Response) (s t : Sapi C)
      → All (IsEncodable requests) rs
      → All (IsEncodable responses) out
      → Handled site rs s out t
      → run_worker_loop site requests responses vec
          (write_message requests vec Request.shutdown (written requests rs [])).1
          []
          s
        ≡ done (exited (written responses out [])) t
  exited_lem rs out s t h k ran =
      let ps = payloads requests rs h ++ e.0 ∷ [] in
      ap (λ q. run_worker_loop site requests responses vec q [] s)
        (input_of rs h ∙ sym (append-nil (frames ps)))
      ∙ (λ i.
          run_worker_loop-session site requests responses vec 0 ps [] []
            (short_append (payloads requests rs h) e.0 (payloads_short requests rs h) e.3)
            (omega arith) (omega arith) i s)
      ∙ session-Handled site requests responses rs out s t (e.0 ∷ []) [] h k ran
      ∙ session-shutdown (written responses out []) t

  -- The codecs carry what the job asked and answered, and the worker handled it.
  abbrev pub IsWorked : Job C → Type 0
  IsWorked j =
      All (IsEncodable requests) j.asked
      × All (IsEncodable responses) j.answers
      × Handled site j.asked j.before j.answers j.behind

  -- The loop of each worker exits, behind the answers of its job.
  abbrev pub AllExit : List (Job C) → List (Worker Bytes) → Type 0
  AllExit [] ks = ks ≡ []
  AllExit (j ∷ js) [] = ⊥
  AllExit (j ∷ js) (k ∷ ks) =
      (run_worker_loop site requests responses vec k.writer [] j.before
        ≡ done (exited (written responses j.answers [])) j.behind)
      × AllExit js ks

  -- If the workers of a pool were sent requests and handled them with some answers, and the codecs
  -- encode these and the request to shut down in less than 2^32 bytes and decode them again, then
  -- behind the drop of the pool the loop of every worker, on all that was written to it, exits with
  -- the process, in the state behind its last request, and it has written these answers and no more.
  pub drop_all-AllExit :
      (js : List (Job C)) → All IsWorked js → AllExit js (drop_all requests vec (map worker_of js))
  unfolding drop_all worker_of
  drop_all-AllExit [] h = refl
  drop_all-AllExit (j ∷ js) ((h, k, ran), hs) =
      (exited_lem j.asked j.answers j.before j.behind h k ran, drop_all-AllExit js hs)
