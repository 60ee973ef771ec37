-- ===== src/Bench/Worker/Serving.antt =====
-- The two ends of the stream between benches/shared/pool.rs and benches/shared/worker.rs: requests that
-- are written, executed by the loop of the worker, and whose answers are read.
use ripht_php_sapi.Prelude.{
  ℕ, zero, suc, ◌<◌, ◌≡◌, refl, sym, ap, ◌∙◌, some, List, [], ◌∷◌, ◌++◌, append-nil, append_assoc,
  map, length, All, arith, Result, ok,
}
use ripht_php_sapi.Text.{Bytes}
use ripht_php_sapi.Sapi.State.{Sapi, done, M, and_then}
use ripht_php_sapi.Bench.{IoError, vec}
use ripht_php_sapi.Bench.Protocol.{Codec, Request, Response, as_io, write_message, read_message}
use ripht_php_sapi.Bench.Protocol.Framing.{
  frame, IsEncodable, write_message_lem, read_message-frame,
}
use ripht_php_sapi.Bench.Worker.{
  Site, Ended, broke, handle_request, after_answer, answer, round, run_worker_loop,
}
use ripht_php_sapi.Bench.Worker.Session.{frames, session, run_worker_loop-session}

-- The worker handles the requests, one behind the other, with these answers.
pub data Handled {C : Type 0} (site : Site C)
    : List Request → Sapi C → List Response → Sapi C → Type 0 where
  idle : {s : Sapi C} → Handled site [] s [] s
  handled :
      {r : Request} {rs : List Request} {s t u : Sapi C} {a : Response} {out : List Response}
      → handle_request site r s ≡ done (some a) t
      → Handled site rs t out u
      → Handled site (r ∷ rs) s (a ∷ out) u

module _ {A : Type 0} (codec : Codec A) where
  -- What is written of messages, one behind the other.
  unfoldable pub written : List A → Bytes → Bytes
  written [] w = w
  written (m ∷ ms) w = written ms (write_message codec vec m w).1

  -- So many messages, read one behind the other.
  unfoldable pub read_each : ℕ → Bytes → List (Result IoError A)
  read_each zero input = []
  read_each (suc n) input = let (r, rest) = read_message codec input in r ∷ read_each n rest

  pub payloads : (ms : List A) → All (IsEncodable codec) ms → List Bytes
  payloads [] h = []
  payloads (m ∷ ms) (h, hs) = h.0 ∷ payloads ms hs

  pub payloads_short :
      (ms : List A) (h : All (IsEncodable codec) ms)
      → All (λ p. length p < 4294967296) (payloads ms h)
  unfolding payloads
  payloads_short [] h = tt
  payloads_short (m ∷ ms) (h, hs) = (h.3, payloads_short ms hs)

  pub written_lem :
      (ms : List A) (w : Bytes) (h : All (IsEncodable codec) ms)
      → written ms w ≡ w ++ frames (payloads ms h)
  unfolding written payloads frames
  written_lem [] w h = sym (append-nil w)
  written_lem (m ∷ ms) w (h, hs) =
      ap (λ r. written ms r.1) (write_message_lem codec m w h)
      ∙ written_lem ms (w ++ frame h.0) hs
      ∙ append_assoc w (frame h.0) (frames (payloads ms hs))

  read_each-frames :
      (ms : List A) (h : All (IsEncodable codec) ms)
      → read_each (length ms) (frames (payloads ms h)) ≡ map ok ms
  unfolding read_each payloads frames
  read_each-frames [] h = refl
  read_each-frames (m ∷ ms) (h, hs) =
      ap (λ r. r.0 ∷ read_each (length ms) r.1)
        (read_message-frame codec m (frames (payloads ms hs)) h)
      ∙ ap (λ l. ok m ∷ l) (read_each-frames ms hs)

module _ {C : Type 0} (site : Site C) (requests : Codec Request) (responses : Codec Response) where
  round-handled :
      (r : Request) (a : Response) (w : Bytes) (more : Bytes → M C (Ended Bytes)) (s t : Sapi C)
      (h : IsEncodable responses a)
      → handle_request site r s ≡ done (some a) t
      → round site requests responses vec (ok r) w more s ≡ more (w ++ frame h.0) t
  unfolding round answer
  round-handled r a w more s t h e =
      ap (λ q. and_then q (λ response. answer site requests responses vec response w more)) e
      ∙ ap (λ q. after_answer site requests responses vec q more t)
          (write_message_lem responses a w h)

  pub session-Handled :
      (rs : List Request) (out : List Response) (s t : Sapi C) (tail : List Bytes) (w : Bytes)
      (h : All (IsEncodable requests) rs) (k : All (IsEncodable responses) out)
      → Handled site rs s out t
      → session site requests responses vec (payloads requests rs h ++ tail) w s
        ≡ session site requests responses vec tail (written responses out w) t
  unfolding session payloads written
  session-Handled [] [] s t tail w h k idle = refl
  session-Handled [] (a ∷ out) s t tail w h k ran = elim ran [ ]
  session-Handled (r ∷ rs) [] s t tail w h k ran = elim ran [ ]
  session-Handled (r ∷ rs) (a ∷ out) s t tail w (h, hs) (k, ks) (handled e more) =
      ap
        (λ q.
          round site requests responses vec (as_io q) w
            (session site requests responses vec (payloads requests rs hs ++ tail)) s)
        h.2
      ∙ round-handled r a w (session site requests responses vec (payloads requests rs hs ++ tail))
          s _ k e
      ∙ session-Handled rs out _ t tail (w ++ frame k.0) hs ks more
      ∙ ap (λ q. session site requests responses vec tail (written responses out q.1) t)
          (sym (write_message_lem responses a w k))

  -- If the worker handles requests, one behind the other, with these answers, and the codecs encode
  -- every request and every answer in less than 2^32 bytes and decode them again, then the loop of the
  -- worker, on what `write_message` wrote of the requests, ends at the end of its input, in the state
  -- behind the last request; and `read_message`, called so often, reads the answers from its output, in
  -- the order of the requests.
  pub run_worker_loop-Handled :
      (rs : List Request) (out : List Response) (s t : Sapi C)
      → All (IsEncodable requests) rs
      → All (IsEncodable responses) out
      → Handled site rs s out t
      → (run_worker_loop site requests responses vec (written requests rs []) [] s
          ≡ done (broke (written responses out [])) t)
        × (read_each responses (length out) (written responses out []) ≡ map ok out)
  unfolding session
  run_worker_loop-Handled rs out s t h k ran = (
    ap (λ q. run_worker_loop site requests responses vec q [] s)
          (written_lem requests rs [] h ∙ sym (append-nil (frames (payloads requests rs h))))
        ∙ (λ i.
            run_worker_loop-session site requests responses vec 0 (payloads requests rs h) [] []
              (payloads_short requests rs h) (omega arith) (omega arith) i s)
        ∙ ap (λ q. session site requests responses vec q [] s)
            (sym (append-nil (payloads requests rs h)))
        ∙ session-Handled rs out s t [] [] h k ran,
    ap (read_each responses (length out)) (written_lem responses out [] k)
        ∙ read_each-frames responses out k,
  )
