-- ===== src/Lib.antt =====
-- Verification library of ripht-php-sapi, a Rust crate that embeds PHP through its SAPI.
--
-- A program builds an execution context with an adapter, and the executor hands it to PHP: it boxes a
-- server context, stores its address in PHP's globals, and runs PHP's startup, script and shutdown.
-- PHP calls back into the crate for output, headers, the body of the request, cookies, variables,
-- messages and the environment; each callback finds the server context through the globals. When the
-- request has ended, the executor takes the box back and makes the result of it, which hooks observe.
--
-- The parts and their files:
--   Execution/Message, Header, Result, Hooks, Context  src/execution/message.rs, header.rs, result.rs,
--     hooks.rs, context.rs: data types and queries, one definition per method of the source.
--   Vars, Vars/Builders, Vars/CStrings  src/sapi/server_vars.rs: `ServerVars` (`set`, `extend`,
--     `track_special`), the builders, and `into_cstring_pairs`.
--   Adapters/Method, Web, Web/Methods, Web/Uri, Web/Build  src/adapters/web.rs: `Method`,
--     `WebRequest` and its setters, `parse_uri`, `build`, whose loop over the headers is `add_headers`.
--   Adapters/Web/Http, Execution/Result/Http  the conversions from and to the crate http of
--     src/adapters/web.rs and src/execution/result.rs.
--   Adapters/Cli  src/adapters/cli.rs: `CliRequest` and its `build`.
--   Adapters/Validation, Validation/Examples, Display  src/adapters/mod.rs: `PhpSapiAdapter`, its
--     validations, the two example adapters, and the texts of the errors.
--   Sapi/Buffer, Sapi/Context  src/sapi/server_context.rs: the buffer policy and its growth, and the
--     server context with the methods that the callbacks use.
--   Sapi/State  the fields of PHP's globals that the crate reads or writes, and the box: a run is a
--     state-passing action that is done, faults (a freed or null box is used) or panics.
--   Sapi/Callbacks  src/sapi/callbacks.rs, one definition per `ripht_sapi_*` function.
--   Sapi/Engine  PHP itself, a parameter: from a state, a phase is a tree of the callbacks that PHP
--     makes and the fields of its globals that it sets, each next step depending on the reply;
--     `dispatch` is the table that `init` registers. What `sapi_send_headers` does is such a tree too, in
--     which a write can send the headers once more.
--   Sapi/Executor, Sapi/Execute  src/sapi/executor.rs: `execute`, `execute_streaming` and
--     `execute_with_hooks` and the functions that they use.
--   Sapi/Instance, Sapi/Api  src/sapi/mod.rs: `init` behind its `OnceLock`, `set_ini`, `get_ini`, and
--     the `execute*` methods with the texts of the errors.
--   Sapi/Spec  the abstract specification of a request, with no box, positions and capacities: what a
--     call of PHP answers, what PHP finds in its globals, and how the request goes on. `Views` relates it
--     to the globals and the box, and its child modules show that callbacks, phases, `execute` and
--     `execute_streaming` implement it, one request behind the other too (Sequences); Agreement puts the
--     two side by side. An `Outlet` is where the output goes: to the buffer, or to the callback.
--   Bench  benches/shared: Protocol (protocol.rs, the framing of messages), Worker (worker.rs, the loop
--     of a worker process, which executes with the library), Pool (pool.rs, the turns of the workers),
--     Fcgi (fpm.rs, parameters, records, the exchange and the process), Frankenphp (frankenphp.rs),
--     Process (the log of what the operating system does for these two), Env (env.rs) and Backend
--     (backend.rs, sapi.rs). A stream is a state with a `Write`; `vec` takes every byte.
--   BuildScript  build.rs: the search for PHP, the lines for Cargo, the files written, the panics.
--   ExampleHooks, ExampleHooks/Observer  examples/hooks_comprehensive.rs and hooks_basic.rs: two
--     implementations of the hooks.
--   Programs  the programs of examples/, with what they print: Basic (basic_execution.rs,
--     error_handling.rs), Cases (exception_recovery.rs, file_io.rs, memory_pressure.rs), Forms
--     (post_form.rs, post_json.rs, file_upload.rs), Hooked (hooks_output_handling.rs, env_and_ini.rs,
--     streaming_output.rs, hooks_streaming_callback.rs, and the programs of ExampleHooks), Encoding
--     (encoding_gaunlet.rs), Sessions (session_handling.rs) and Server (http_server.rs).
--   Prelude, Text  numbers, lists, strings, UTF-8 and C strings of Rust's standard library.
--   Tests  the theorems at concrete inputs.
--
-- Conventions. A `String` is the list of its chars as code points, a byte string the list of its
-- bytes, a path the text of it. `usize` is of 64 bits, and its saturating operations are written out.
-- The growth loop runs on fuel, the distance to the required capacity, which a positive step never
-- exceeds. The loops over bytes run on fuel, the length of the bytes, of which each round takes some: the
-- worker's message takes four bytes at least, a FastCGI record eight. A closure is a function on its
-- captures that returns or panics. A hook maps the state of its implementation. What the operating
-- system does for the processes of the benchmarks is a log; a process has the number that its spawn got.
-- Outside the source, and so parameters, are PHP, the file system, the clock,
-- Unicode's case mapping, the environment, streams, the spawned processes, and the crates memchr,
-- rmp_serde, serde_json, http and bindgen; what is assumed of them is a hypothesis.
--
-- Not modelled: the declarations of PHP's C types, hooks that panic, tracing, the spawn of the pool's
-- workers, and the programs that measure times.
pub mod Prelude
pub mod Text
pub mod Execution
pub mod Vars
pub mod Bench
pub mod BuildScript
pub mod Programs
pub mod ExampleHooks
pub mod Adapters
pub mod Sapi
pub mod Tests
