-- ===== src/Python/Base64.antt =====
-- `base64.b64encode` and `base64.b64decode(…, validate=True)`.
pub mod Roundtrip
use krb5_token_service.Prelude.{
  ℕ, ◌+◌, ◌-◌, ◌*◌, ◌/◌, ◌%◌, Bool, true, false, ◌&&◌, Option, none, some, [], ◌∷◌, ltb, leb, ◌==◌,
  if◌then◌else◌, is_empty, Text,
}
use krb5_token_service.Python.Utf8.{Bytes}

unfoldable pub symbol : ℕ → ℕ
symbol v =
    if ltb v 26
    then v + b'A'
    else if ltb v 52
    then v - 26 + b'a'
    else if ltb v 62
    then v - 52 + b'0'
    else if v == 62
    then b'+'
    else b'/'

-- `none` outside the alphabet; the padding `=` is handled before.
unfoldable pub value : ℕ → Option ℕ
value c =
    if leb b'A' c && leb c b'Z'
    then some (c - b'A')
    else if leb b'a' c && leb c b'z'
    then some (c - b'a' + 26)
    else if leb b'0' c && leb c b'9'
    then some (c - b'0' + 52)
    else if c == b'+'
    then some 62
    else if c == b'/'
    then some 63
    else none

-- `base64.b64encode(bs).decode()`
unfoldable pub b64encode : Bytes → Text
unfolding symbol
b64encode [] = []
b64encode (x ∷ []) = symbol (x / 4) ∷ symbol (x % 4 * 16) ∷ b'=' ∷ b'=' ∷ []
b64encode (x ∷ y ∷ []) =
    symbol (x / 4) ∷ symbol (x % 4 * 16 + y / 16) ∷ symbol (y % 16 * 4) ∷ b'=' ∷ []
b64encode (x ∷ y ∷ z ∷ bs) =
    symbol (x / 4)
    ∷ symbol (x % 4 * 16 + y / 16)
    ∷ symbol (y % 16 * 4 + z / 64)
    ∷ symbol (z % 64)
    ∷ b64encode bs

-- The loop of `a2b_base64(…, strict_mode=True)`: the position in the group of four, the bits left
-- over, the number of padding signs, and whether padding has started.
pub record Scan : Type 0 where
  pub quad_pos : ℕ
  pub left_char : ℕ
  pub pads : ℕ
  pub padding_started : Bool

-- The byte that a data character completes, in front of the rest.
emit : Scan → ℕ → Option Bytes → Option Bytes
emit s v none = none
emit s v (some bs) =
    if s.quad_pos == 0
    then some bs
    else if s.quad_pos == 1
    then some ((s.left_char * 4 + v / 16) ∷ bs)
    else if s.quad_pos == 2
    then some ((s.left_char * 16 + v / 4) ∷ bs)
    else some ((s.left_char * 64 + v) ∷ bs)

advance : Scan → ℕ → Scan
advance s v = record {
  quad_pos = (s.quad_pos + 1) % 4;
  left_char =
      if s.quad_pos == 0
      then v
      else if s.quad_pos == 1
      then v % 16
      else if s.quad_pos == 2
      then v % 4
      else 0;
  pads = 0;
  padding_started = s.padding_started;
}

-- A padding sign ends the input, or is only counted.
pad : Scan → Scan
pad s = record s { pads = if leb 2 s.quad_pos then s.pads + 1 else s.pads; padding_started = true }

is_last_pad : Scan → Bool
is_last_pad s = leb 2 s.quad_pos && leb 4 (s.quad_pos + s.pads + 1)

scan : Scan → Text → Option Bytes
scan s [] = if s.quad_pos == 0 then some [] else none
scan s (c ∷ cs) = elim (c == b'=') [
  | true ↦ if is_last_pad s then (if is_empty cs then some [] else none) else scan (pad s) cs
  | false ↦ elim (value c) [
    | none ↦ none
    | some v ↦ if s.padding_started then none else emit s v (scan (advance s v) cs)
  ]
]

abbrev at_start : Scan
at_start = record { quad_pos = 0; left_char = 0; pads = 0; padding_started = false }

starts_with_pad : Text → Bool
starts_with_pad [] = false
starts_with_pad (c ∷ cs) = c == b'='

-- `none` is a `binascii.Error`, or the `ValueError` for a text that is not ASCII.
unfoldable pub b64decode : Text → Option Bytes
unfolding scan value emit advance pad is_last_pad starts_with_pad
b64decode t = if starts_with_pad t then none else scan at_start t
