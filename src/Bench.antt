-- ===== src/Bench.antt =====
-- The backends that benches/shared compares: streams as parameters, and the end of an HTTP header.
pub mod Fcgi
pub mod Protocol
pub mod Worker
pub mod Pool
pub mod Frankenphp
pub mod Env
pub mod Process
pub mod Backend
use Prim.Native.String.{String}
use ripht_php_sapi.Prelude.{
  ℕ, suc, ◌+◌, ◌≤◌, ◌≡◌, refl, sym, ap, ◌∙◌, ◌&&◌, ◌==◌, append_assoc, length-append, drop-append,
  Bool, true, false, Option, none, some, List, [], ◌∷◌, ◌++◌, drop, length, arith, if◌then◌else◌,
  Result, ok, err,
}
use ripht_php_sapi.Text.{Str, Bytes, lit, starts_with}

-- The kinds of `std::io::Error` that the code tells apart, with their message.
pub data IoError : Type 0 where
  invalid_data : Str → IoError
  unexpected_eof : IoError
  other : Str → IoError

-- What a call on a stream returns, with the stream as it is left.
abbrev pub Io : Type 0 → Type 0 → Type 0
Io W A = W → Result IoError A × W

-- `std::io::Write` for a stream whose state is `W`.
pub record Write (W : Type 0) : Type 0 where
  pub write_all : Bytes → Io W (Unit {0})
  pub flush : Io W (Unit {0})

-- `Vec<u8>` as a stream: what is written is appended.
abbrev pub vec : Write Bytes
vec = record { write_all = λ bytes w. (ok tt, w ++ bytes); flush = λ w. (ok tt, w) }

-- `.ok()?` on the result of a write, for code that gives the stream up on an error.
abbrev pub to_option : {W : Type 0} → Result IoError (Unit {0}) × W → Option W
to_option (ok _, w) = some w
to_option (err e, w) = none

-- `loop { match stream.read(&mut buf) { .. } }` on what the calls of `read` return: the end of the
-- stream, of no bytes, and an error both stop it.
unfoldable pub read_loop : List (Result IoError Bytes) → Bytes
read_loop [] = []
read_loop (ok [] ∷ rest) = []
read_loop (ok (b ∷ bytes) ∷ rest) = (b ∷ bytes) ++ read_loop rest
read_loop (err e ∷ rest) = []

abbrev pub blank_line : Bytes
blank_line = lit "\r\n\r\n"

-- `windows(4).position(|w| w == b"\r\n\r\n")`
unfoldable pub header_end : Bytes → Option ℕ
unfolding starts_with
header_end [] = none
header_end (b ∷ rest) =
    let later = header_end rest in
    if starts_with (b ∷ rest) blank_line
    then some 0
    else elim later [ none ↦ none | some n ↦ some (suc n) ]

-- The bytes behind the first blank line, or all of them.
unfoldable pub behind_headers : Bytes → Bytes
unfolding header_end
behind_headers bytes = elim (header_end bytes) [ none ↦ bytes | some n ↦ drop (n + 4) bytes ]

-- Whether a list starts with a prefix does not depend on what is behind the prefix's length.
starts_with-append :
    (xs ys p : Bytes) → length p ≤ length xs → starts_with (xs ++ ys) p ≡ starts_with xs p
unfolding starts_with
starts_with-append xs ys [] h = refl
starts_with-append [] ys (c ∷ p) h = absurd (omega arith)
starts_with-append (x ∷ xs) ys (c ∷ p) h =
    ap (λ b. x == c && b) (starts_with-append xs ys p (omega arith))

early :
    (x : ℕ) (xs ys : Bytes)
    → starts_with (x ∷ (xs ++ (blank_line ++ ys))) blank_line
      ≡ starts_with (x ∷ (xs ++ lit "\r\n\r")) blank_line
early x xs ys =
    ap (λ t. starts_with (x ∷ t) blank_line) (sym (append_assoc xs (lit "\r\n\r") (lit "\n" ++ ys)))
    ∙ starts_with-append (x ∷ (xs ++ lit "\r\n\r")) (lit "\n" ++ ys) blank_line
        (ground (arith, length-append xs (lit "\r\n\r")))

-- A blank line that does not end inside `xs ++ "\r\n\r"` is found behind `xs`.
header_end-append :
    (xs ys : Bytes)
    → header_end (xs ++ lit "\r\n\r") ≡ none
    → header_end (xs ++ (blank_line ++ ys)) ≡ some (length xs)
unfolding header_end
header_end-append [] ys h = refl
header_end-append (x ∷ xs) ys h = ground (arith, early x xs ys, header_end-append xs ys)

pub behind_headers-append :
    (xs ys : Bytes)
    → header_end (xs ++ lit "\r\n\r") ≡ none
    → behind_headers (xs ++ (blank_line ++ ys)) ≡ ys
unfolding behind_headers
behind_headers-append xs ys h =
    rw (header_end-append xs ys h, behind_headers) (drop-append xs (blank_line ++ ys) 4)
