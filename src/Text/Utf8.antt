-- ===== src/Text/Utf8.antt =====
-- UTF-8 (`as_bytes`, `from_utf8`, `from_utf8_lossy`) and `CString::new` of Rust's standard library.
pub mod RoundTrip
use ripht_php_sapi.Prelude.{
  ℕ, zero, suc, ◌+◌, ◌-◌, ◌*◌, ◌/◌, ◌%◌, Bool, true, false, ◌&&◌, ◌||◌, Option, none, some, List,
  [], ◌∷◌, ◌++◌, map, ◌==◌, leb, ltb, if◌then◌else◌, get_or,
}
use ripht_php_sapi.Text.{Str, Bytes, contains}

-- The bytes of one char.
unfoldable pub utf8_char : ℕ → Bytes
utf8_char c =
    if ltb c 0x80
    then c ∷ []
    else if ltb c 0x800
    then (192 + c / 64) ∷ (128 + c % 64) ∷ []
    else if ltb c 0x10000
    then (224 + c / 4096) ∷ (128 + (c / 64) % 64) ∷ (128 + c % 64) ∷ []
    else (240 + c / 262144) ∷ (128 + (c / 4096) % 64) ∷ (128 + (c / 64) % 64) ∷ (128 + c % 64) ∷ []

-- `s.as_bytes()`, and the conversion of a `String` to a vector of bytes.
unfoldable pub utf8 : Str → Bytes
unfolding utf8_char
utf8 [] = []
utf8 (c ∷ s) = utf8_char c ++ utf8 s

-- Between chars, or inside one: the bytes to come after the next, the range of the next, and the
-- bits that are read.
pub data Decoder : Type 0 where
  start : Decoder
  more : ℕ → ℕ → ℕ → ℕ → Decoder

abbrev pub Decoded : Type 0
Decoded = List (Option ℕ) × Decoder

-- The first byte of a char; `none` stands for one malformed sequence.
unfoldable pub first_byte : ℕ → Decoded
first_byte b =
    if ltb b 128
    then (some b ∷ [], start)
    else if leb 194 b && leb b 223
    then ([], more 0 128 191 (b - 192))
    else if b == 224
    then ([], more 1 160 191 0)
    else if b == 237
    then ([], more 1 128 159 13)
    else if leb 225 b && leb b 239
    then ([], more 1 128 191 (b - 224))
    else if b == 240
    then ([], more 2 144 191 0)
    else if leb 241 b && leb b 243
    then ([], more 2 128 191 (b - 240))
    else if b == 244
    then ([], more 2 128 143 4)
    else (none ∷ [], start)

-- A byte that does not go on with a char ends it, and is read again as a first byte.
unfoldable pub next_byte : Decoder → ℕ → Decoded
unfolding first_byte
next_byte start b = first_byte b
next_byte (more zero lo hi acc) b =
    if leb lo b && leb b hi
    then (some (acc * 64 + (b - 128)) ∷ [], start)
    else (none ∷ (first_byte b).0, (first_byte b).1)
next_byte (more (suc n) lo hi acc) b =
    if leb lo b && leb b hi
    then ([], more n 128 191 (acc * 64 + (b - 128)))
    else (none ∷ (first_byte b).0, (first_byte b).1)

unfoldable pub decode : Decoder → Bytes → List (Option ℕ)
unfolding next_byte
decode start [] = []
decode (more n lo hi acc) [] = none ∷ []
decode d (b ∷ bs) = (next_byte d b).0 ++ decode (next_byte d b).1 bs

unfoldable pub collect : List (Option ℕ) → Option Str
collect [] = some []
collect (none ∷ os) = none
collect (some c ∷ os) = elim (collect os) [ none ↦ none | some s ↦ some (c ∷ s) ]

-- `std::str::from_utf8(bytes).ok()`.
unfoldable pub from_utf8 : Bytes → Option Str
unfolding decode collect
from_utf8 bs = collect (decode start bs)

-- `String::from_utf8_lossy(bytes)`: U+FFFD for each malformed sequence.
unfoldable pub from_utf8_lossy : Bytes → Str
unfolding decode
from_utf8_lossy bs = map (λ o. get_or o 0xfffd) (decode start bs)

-- `CString::new(bytes).ok()`: refused if there is a zero byte.
unfoldable pub cstring : Bytes → Option Bytes
unfolding contains
cstring bs = if contains bs 0 then none else some bs
