-- ===== src/Bench/Worker/Session.antt =====
-- A session of the worker of benches/shared/worker.rs: its loop over the bytes of its input is a
-- loop over the messages that the bytes hold.
use ripht_php_sapi.Prelude.{
  ℕ, zero, suc, ◌<◌, ◌≤◌, ◌≡◌, refl, ap, ◌∙◌, List, [], ◌∷◌, ◌++◌, take, length, All, arith,
  length-append, append_assoc, err,
}
use ripht_php_sapi.Text.{Bytes}
use ripht_php_sapi.Sapi.State.{M, pure}
use ripht_php_sapi.Bench.{unexpected_eof, Write}
use ripht_php_sapi.Bench.Protocol.{Codec, Request, Response, as_io, read_payload, read_message}
use ripht_php_sapi.Bench.Protocol.Framing.{frame, read_message-payload, read_message_cut}
use ripht_php_sapi.Bench.Worker.{Site, Ended, broke, round, worker_loop, run_worker_loop}

unfoldable pub frames : List Bytes → Bytes
frames [] = []
frames (p ∷ ps) = frame p ++ frames ps

length-frames : (ps : List Bytes) → length ps ≤ length (frames ps)
unfolding frames
length-frames [] = omega arith
length-frames (p ∷ ps) = omega (arith, length-append p (frames ps), length-frames ps)

module _ {C W : Type 0} (site : Site C) (requests : Codec Request) (responses : Codec Response)
    (stream : Write W) where
  -- The rounds of the loop on the payloads of the messages, and its end behind them.
  unfoldable pub session : List Bytes → W → M C (Ended W)
  session [] w = pure (broke w)
  session (p ∷ ps) w =
      round site requests responses stream (as_io (requests.from_slice p)) w (session ps)

  round_eof :
      (w : W) (more : W → M C (Ended W))
      → round site requests responses stream (err unexpected_eof) w more ≡ pure (broke w)
  unfolding round
  round_eof w more = refl

  worker_loop-frames :
      (fuel n : ℕ) (ps : List Bytes) (last : Bytes) (w : W)
      → All (λ p. length p < 4294967296) ps
      → length last < 4294967296
      → n < length (frame last)
      → length ps < fuel
      → worker_loop site requests responses stream fuel (frames ps ++ take n (frame last)) w
        ≡ session ps w
  unfolding frames session worker_loop read_payload
  worker_loop-frames zero n ps last w h hl hn hf = absurd (omega arith)
  worker_loop-frames (suc fuel) n [] last w h hl hn hf =
      let rest = (read_message requests (take n (frame last))).1 in
      let more : W → M C (Ended W) = worker_loop site requests responses stream fuel rest in
      ap (λ r. round site requests responses stream r w more)
        (read_message_cut requests n last hl hn)
      ∙ round_eof w more
  worker_loop-frames (suc fuel) n (p ∷ ps) last w (h, hs) hl hn hf =
      let tail = take n (frame last) in
      ap
        (λ r.
          round site requests responses stream r.0 w
            (λ w'. worker_loop site requests responses stream fuel r.1 w'))
        (ap (read_message requests) (append_assoc (frame p) (frames ps) tail)
          ∙ read_message-payload requests p (frames ps ++ tail) h)
      ∙ ap (round site requests responses stream (as_io (requests.from_slice p)) w)
          (λ i w'. worker_loop-frames fuel n ps last w' hs hl hn (omega arith) i)

  -- On the frames of messages of less than 2^32 bytes, whatever they decode to, and a frame that was cut
  -- off behind them, the loop of the worker goes through its rounds on the messages, in order, and
  -- breaks, unless a round has ended it before.
  pub run_worker_loop-session :
      (n : ℕ) (ps : List Bytes) (last : Bytes) (w : W)
      → All (λ p. length p < 4294967296) ps
      → length last < 4294967296
      → n < length (frame last)
      → run_worker_loop site requests responses stream (frames ps ++ take n (frame last)) w
        ≡ session ps w
  unfolding run_worker_loop
  run_worker_loop-session n ps last w h hl hn =
      worker_loop-frames (suc (length (frames ps ++ take n (frame last)))) n ps last w h hl hn
        (omega (arith, length-append (frames ps) (take n (frame last)), length-frames ps))
