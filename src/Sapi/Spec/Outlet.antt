-- ===== src/Sapi/Spec/Outlet.antt =====
-- Where the output of a request goes, in `write_output` of src/sapi/server_context.rs: to the buffer
-- of the context, or to the callback that `execute_streaming` of src/sapi/executor.rs has set.
use ripht_php_sapi.Prelude.{◌≡◌, refl, true, Bool, Option, none, some, [], ◌++◌, length}
use ripht_php_sapi.Text.{Bytes}
use ripht_php_sapi.Sapi.Buffer.{BufferPolicy, Buffer, append_output}
use ripht_php_sapi.Sapi.Context.{Closure, ServerContext, write_output}
use ripht_php_sapi.Sapi.Callbacks.Writing.{write_output-unobserved, content-append_output}

-- What has come out so far, by the callback and the buffer, and the law of a write: it takes all bytes,
-- and they are what comes out next.
pub record Outlet (C : Type 0) : Type 1 where
  pub received : Option (Closure Bytes C) → Buffer → Bytes
  pub IsOpen : Option (Closure Bytes C) → Type 0
  pub writes :
      (policy : BufferPolicy) (bytes : Bytes) (ctx : ServerContext C)
      → IsOpen ctx.output_callback
      → (callback : Option (Closure Bytes C)) × (buffer : Buffer) × (write_output policy bytes ctx
          ≡ (
            some (length bytes),
            record ctx { output_callback = callback; output_buffer = buffer },
          ))
        × IsOpen callback
        × (received callback buffer ≡ received ctx.output_callback ctx.output_buffer ++ bytes)

module _ {C : Type 0} where
  -- No callback takes the output.
  abbrev pub buffered : Outlet C
  buffered = record {
    received = λ callback buffer. buffer.content;
    IsOpen = λ callback. callback ≡ none;
    writes = λ policy bytes ctx free. (
      ctx.output_callback,
      append_output policy bytes ctx.output_buffer,
      write_output-unobserved policy bytes ctx free,
      free,
      content-append_output policy bytes ctx.output_buffer,
    );
  }

  -- A callback that does not panic, and from whose captures `taken` reads the bytes that it was given.
  pub record Collects (fn : Bytes → C → Bool × C) (taken : C → Bytes) : Type 0 where
    pub returns : (bytes : Bytes) (c : C) → (fn bytes c).0 ≡ true
    pub takes : (bytes : Bytes) (c : C) → taken (fn bytes c).1 ≡ taken c ++ bytes

  abbrev pub taken_by : (C → Bytes) → Option (Closure Bytes C) → Bytes
  taken_by taken none = []
  taken_by taken (some f) = taken f.env

  abbrev pub IsCallback : (Bytes → C → Bool × C) → Option (Closure Bytes C) → Type 0
  IsCallback fn callback = (c : C) × (callback ≡ some (record { fn = fn; env = c }))

  module _ (fn : Bytes → C → Bool × C) (taken : C → Bytes) (collects : Collects fn taken) where
    pub write_output-observed :
        (policy : BufferPolicy) (bytes : Bytes) (ctx : ServerContext C) (c : C)
        → ctx.output_callback ≡ some (record { fn = fn; env = c })
        → write_output policy bytes ctx ≡ (
          some (length bytes),
          record ctx {
            output_callback = some (record { fn = fn; env = (fn bytes c).1 });
            output_buffer = ctx.output_buffer;
          },
        )
    unfolding write_output
    write_output-observed policy bytes ctx c h = rw h (rw (collects.returns bytes c) refl)

    -- The callback takes the output, and the buffer stays as it is.
    abbrev pub streamed : Outlet C
    streamed = record {
      received = λ callback buffer. taken_by taken callback;
      IsOpen = IsCallback fn;
      writes = λ policy bytes ctx free. (
        some (record { fn = fn; env = (fn bytes free.0).1 }),
        ctx.output_buffer,
        write_output-observed policy bytes ctx free.0 free.1,
        ((fn bytes free.0).1, refl),
        rw free.1 (collects.takes bytes free.0),
      );
    }
