-- ===== src/Python/Base64/Roundtrip.antt =====
-- Decoding what was encoded gives the bytes back.
use krb5_token_service.Prelude.{
  ℕ, ◌+◌, ◌*◌, ◌/◌, ◌%◌, ◌<◌, ◌≡◌, refl, ap, ◌∙◌, arith, false, some, [], ◌∷◌, ◌==◌, All, Text,
}
use krb5_token_service.Python.Utf8.{Bytes}
use krb5_token_service.Python.Base64.{
  symbol, value, b64encode, b64decode, Scan, emit, advance, scan, at_start, starts_with_pad, pad,
  is_last_pad,
}

abbrev pub AreBytes : Bytes → Type 0
AreBytes = All (λ b. b < 256)

value-symbol : (v : ℕ) → v < 64 → value (symbol v) ≡ some v
unfolding value symbol
value-symbol v h = ground arith

symbol-no_pad : (v : ℕ) → v < 64 → (symbol v == b'=') ≡ false
unfolding symbol
symbol-no_pad v h = ground arith

-- One data character.
scan-symbol :
    (s : Scan) (v : ℕ) (cs : Text)
    → v < 64
    → s.padding_started ≡ false
    → scan s (symbol v ∷ cs) ≡ emit s v (scan (advance s v) cs)
unfolding scan
scan-symbol s v cs h no_pad =
    let e = symbol-no_pad v h in let k = value-symbol v h in ground (arith, e, k, no_pad)

abbrev at : ℕ → ℕ → Scan
at quad left = record { quad_pos = quad; left_char = left; pads = 0; padding_started = false }

-- A group of four characters gives three bytes.
scan-group :
    (a b c d : ℕ) (cs : Text) (bs : Bytes)
    → a < 64
    → b < 64
    → c < 64
    → d < 64
    → scan at_start cs ≡ some bs
    → scan at_start (symbol a ∷ symbol b ∷ symbol c ∷ symbol d ∷ cs)
      ≡ some ((a * 4 + b / 16) ∷ (b % 16 * 16 + c / 4) ∷ (c % 4 * 64 + d) ∷ bs)
unfolding emit advance
scan-group a b c d cs bs ha hb hc hd h =
    scan-symbol at_start a _ ha refl
    ∙ rw
        (
          scan-symbol (at 1 a) b (symbol c ∷ symbol d ∷ cs) hb refl,
          scan-symbol (at 2 (b % 16)) c (symbol d ∷ cs) hc refl,
          scan-symbol (at 3 (c % 4)) d cs hd refl,
          h,
        )
        refl

-- The padding signs.
scan-two_pads : (l : ℕ) → scan (at 2 l) (b'=' ∷ b'=' ∷ []) ≡ some []
unfolding scan pad is_last_pad
scan-two_pads l = refl

scan-pad : (l : ℕ) → scan (at 3 l) (b'=' ∷ []) ≡ some []
unfolding scan is_last_pad
scan-pad l = refl

-- The last group, of one byte or of two.
scan-one :
    (a b : ℕ)
    → a < 64
    → b < 64
    → scan at_start (symbol a ∷ symbol b ∷ b'=' ∷ b'=' ∷ []) ≡ some ((a * 4 + b / 16) ∷ [])
unfolding emit advance
scan-one a b ha hb =
    scan-symbol at_start a _ ha refl
    ∙ rw (scan-symbol (at 1 a) b (b'=' ∷ b'=' ∷ []) hb refl, scan-two_pads (b % 16)) refl

scan-two :
    (a b c : ℕ)
    → a < 64
    → b < 64
    → c < 64
    → scan at_start (symbol a ∷ symbol b ∷ symbol c ∷ b'=' ∷ [])
      ≡ some ((a * 4 + b / 16) ∷ (b % 16 * 16 + c / 4) ∷ [])
unfolding emit advance
scan-two a b c ha hb hc =
    scan-symbol at_start a _ ha refl
    ∙ rw
        (
          scan-symbol (at 1 a) b (symbol c ∷ b'=' ∷ []) hb refl,
          scan-symbol (at 2 (b % 16)) c (b'=' ∷ []) hc refl,
          scan-pad (c % 4),
        )
        refl

cons : {x x' : ℕ} {bs bs' : Bytes} → x ≡ x' → bs ≡ bs' → ◌≡◌ {A = Bytes} (x ∷ bs) (x' ∷ bs')
cons e k = cc

scan-b64encode : (bs : Bytes) → AreBytes bs → scan at_start (b64encode bs) ≡ some bs
unfolding b64encode scan
scan-b64encode [] h = refl
scan-b64encode (x ∷ []) (hx, h) =
    scan-one (x / 4) (x % 4 * 16) (omega arith) (omega arith) ∙ ap some (cons (omega arith) refl)
scan-b64encode (x ∷ y ∷ []) (hx, (hy, h)) =
    scan-two (x / 4) (x % 4 * 16 + y / 16) (y % 16 * 4) (omega arith) (omega arith) (omega arith)
    ∙ ap some (cons (omega arith) (cons (omega arith) refl))
scan-b64encode (x ∷ y ∷ z ∷ bs) (hx, (hy, (hz, h))) =
    scan-group (x / 4) (x % 4 * 16 + y / 16) (y % 16 * 4 + z / 64) (z % 64) (b64encode bs) bs
      (omega arith) (omega arith) (omega arith) (omega arith) (scan-b64encode bs h)
    ∙ ap some (cons (omega arith) (cons (omega arith) (cons (omega arith) refl)))

no_pad-b64encode : (bs : Bytes) → AreBytes bs → starts_with_pad (b64encode bs) ≡ false
unfolding b64encode starts_with_pad
no_pad-b64encode [] h = refl
no_pad-b64encode (x ∷ []) (hx, h) = symbol-no_pad (x / 4) (omega arith)
no_pad-b64encode (x ∷ y ∷ []) (hx, h) = symbol-no_pad (x / 4) (omega arith)
no_pad-b64encode (x ∷ y ∷ z ∷ bs) (hx, h) = symbol-no_pad (x / 4) (omega arith)

pub b64decode-b64encode : (bs : Bytes) → AreBytes bs → b64decode (b64encode bs) ≡ some bs
unfolding b64decode
b64decode-b64encode bs h = rw (no_pad-b64encode bs h) (scan-b64encode bs h)
