-- ===== src/Sapi/State.antt =====
-- The state that the callbacks and the executor share: PHP's globals (`sapi_globals` of
-- src/sapi/ffi.rs, with the fields that the program reads or writes) and the boxed server context.
-- One request runs at a time, so that there is one box at most.
use ripht_php_sapi.Prelude.{ℕ, Option, none, some, List}
use ripht_php_sapi.Prelude.Int.{ℤ}
use ripht_php_sapi.Text.{Str, Bytes}
use ripht_php_sapi.Vars.CStrings.{CPtr}
use ripht_php_sapi.Sapi.Context.{ServerContext}

-- `sapi_globals.server_context`: null, an address that is not aligned, or the address of the box.
pub data ContextPtr : Type 0 where
  null unaligned boxed : ContextPtr

pub record RequestInfo : Type 0 where
  pub request_method : CPtr
  pub query_string : CPtr
  pub cookie_data : CPtr
  pub content_type : CPtr
  pub content_length : ℕ

pub record Sapi (C : Type 0) : Type 0 where
  pub server_context : ContextPtr
  pub request_info : RequestInfo
  pub http_response_code : ℤ
  pub headers_sent : ℕ
  pub post_read : ℕ
  -- The box, while it is allocated.
  pub box : Option (ServerContext C)
  -- What the program has handed over: variables registered with PHP, INI entries altered, lines on
  -- the standard error.
  pub registered : List (Bytes × Bytes)
  pub ini_entries : List (Bytes × Bytes)
  pub stderr : List Str

-- A run that reads through a pointer to a freed box is a fault, as is a box that is freed twice; an
-- `expect` that fails is a panic.
pub data Run (C A : Type 0) : Type 0 where
  done : A → Sapi C → Run C A
  fault panic : Run C A

abbrev pub M : Type 0 → Type 0 → Type 0
M C A = Sapi C → Run C A

abbrev pub pure : {C A : Type 0} → A → M C A
pure a s = done a s

abbrev pub and_then : {C A B : Type 0} → Run C A → (A → M C B) → Run C B
and_then (done a s) k = k a s
and_then fault k = fault
and_then panic k = panic

infixl 5 ◌>>=◌ ◌>>◌
abbrev pub ◌>>=◌ : {C A B : Type 0} → M C A → (A → M C B) → M C B
◌>>=◌ m k s = and_then (m s) k

abbrev pub ◌>>◌ : {C B : Type 0} → M C (Unit {0}) → M C B → M C B
m >> k = m >>= λ _. k

abbrev pub modify : {C : Type 0} → (Sapi C → Sapi C) → M C (Unit {0})
modify f s = done tt (f s)

abbrev pub get_state : {C : Type 0} → M C (Sapi C)
get_state s = done s s

-- A read or a write through the pointer to the box.
abbrev pub deref : {C A : Type 0} → (ServerContext C → A × ServerContext C) → M C A
deref f s = elim s.box [
  | none ↦ fault
  | some ctx ↦ let (a, ctx') = f ctx in done a (record s { box = some ctx' })
]
