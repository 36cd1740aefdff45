-- ===== src/Python/Utf8.antt =====
-- `str.encode()`, `bytes.decode()` and `bytes.decode(errors="replace")`, and `str.strip()`.
use mathlib.Core.List.{reverse}
use krb5_token_service.Prelude.{
  ℕ, ◌+◌, ◌-◌, ◌*◌, ◌/◌, ◌%◌, Bool, ◌&&◌, ◌||◌, Option, none, some, List, [], ◌∷◌, ◌++◌, ltb, leb,
  ◌==◌, if◌then◌else◌, Text,
}

-- A `bytes` or the content of a `bytearray`.
abbrev pub Bytes : Type 0
Bytes = List ℕ

-- The bytes of a code point; a lone surrogate has none (`UnicodeEncodeError`).
unfoldable pub encode_char : ℕ → Option Bytes
encode_char c =
    if ltb c 0x80
    then some (c ∷ [])
    else if ltb c 0x800
    then some ((0xC0 + c / 64) ∷ (0x80 + c % 64) ∷ [])
    else if leb 0xD800 c && ltb c 0xE000
    then none
    else if ltb c 0x10000
    then some ((0xE0 + c / 4096) ∷ (0x80 + c / 64 % 64) ∷ (0x80 + c % 64) ∷ [])
    else some
        ((0xF0 + c / 262144) ∷ (0x80 + c / 4096 % 64) ∷ (0x80 + c / 64 % 64) ∷ (0x80 + c % 64) ∷ [])

abbrev join : Option Bytes → Option Bytes → Option Bytes
join (some bs) (some cs) = some (bs ++ cs)
join _ _ = none

unfoldable pub encode : Text → Option Bytes
unfolding encode_char
encode [] = some []
encode (c ∷ s) = join (encode_char c) (encode s)

-- Between two characters, or inside one: how many bytes are missing, the range of the next one,
-- and the bits so far.
pub data Mode : Type 0 where
  idle : Mode
  want : ℕ → ℕ → ℕ → ℕ → Mode

-- What a byte completes: characters, and `none` for each maximal ill-formed part.
abbrev pub Decoded : Type 0
Decoded = List (Option ℕ)

start : ℕ → Decoded × Mode
start b =
    if ltb b 0x80
    then (some b ∷ [], idle)
    else if ltb b 0xC2
    then (none ∷ [], idle)
    else if ltb b 0xE0
    then ([], want 1 0x80 0xBF (b - 0xC0))
    else if b == 0xE0
    then ([], want 2 0xA0 0xBF 0)
    else if b == 0xED
    then ([], want 2 0x80 0x9F 13)
    else if ltb b 0xF0
    then ([], want 2 0x80 0xBF (b - 0xE0))
    else if b == 0xF0
    then ([], want 3 0x90 0xBF 0)
    else if ltb b 0xF4
    then ([], want 3 0x80 0xBF (b - 0xF0))
    else if b == 0xF4
    then ([], want 3 0x80 0x8F 4)
    else (none ∷ [], idle)

-- A byte that does not continue its character ends it, and may start another.
restart : Decoded × Mode → Decoded × Mode
restart (out, m) = (none ∷ out, m)

step : Mode → ℕ → Decoded × Mode
step idle b = start b
step (want left lo hi bits) b =
    if leb lo b && leb b hi
    then (if left == 1
        then (some (bits * 64 + (b - 0x80)) ∷ [], idle)
        else ([], want (left - 1) 0x80 0xBF (bits * 64 + (b - 0x80))))
    else restart (start b)

unfoldable pub decode_from : Mode → Bytes → Decoded
unfolding step start restart
decode_from idle [] = []
decode_from (want _ _ _ _) [] = none ∷ []
decode_from m (b ∷ bs) = let (out, m') = step m b in out ++ decode_from m' bs

strictly : Decoded → Option Text
strictly [] = some []
strictly (none ∷ ds) = none
strictly (some c ∷ ds) = elim (strictly ds) [ none ↦ none | some s ↦ some (c ∷ s) ]

-- `bs.decode()`; `none` is a `UnicodeDecodeError`.
unfoldable pub decode : Bytes → Option Text
unfolding decode_from strictly
decode bs = strictly (decode_from idle bs)

leniently : Decoded → Text
leniently [] = []
leniently (none ∷ ds) = 0xFFFD ∷ leniently ds
leniently (some c ∷ ds) = c ∷ leniently ds

-- `bs.decode(errors="replace")`
unfoldable pub decode_replace : Bytes → Text
unfolding decode_from leniently
decode_replace bs = leniently (decode_from idle bs)

-- `str.isspace` of one character
unfoldable pub is_space : ℕ → Bool
is_space c =
    (leb 9 c && leb c 13)
    || (leb 28 c && leb c 32)
    || c == 0x85
    || c == 0xA0
    || c == 0x1680
    || (leb 0x2000 c && leb c 0x200A)
    || c == 0x2028
    || c == 0x2029
    || c == 0x202F
    || c == 0x205F
    || c == 0x3000

strip_left : Text → Text
strip_left [] = []
strip_left (c ∷ s) = let rest = strip_left s in if is_space c then rest else c ∷ s

unfoldable pub strip : Text → Text
unfolding strip_left is_space
strip s = reverse (strip_left (reverse (strip_left s)))
