-- ===== src/System/Zeroed.antt =====
-- The buffers that `_zero_bytearray` of src/krb5_token_service/minting.py has overwritten.
use krb5_token_service.Prelude.{
  ℕ, zero, suc, ◌≡◌, refl, sym, subst, Option, none, some, List, [], ◌∷◌, length, replicate, All,
}
use krb5_token_service.Python.Utf8.{Bytes}
use krb5_token_service.World.{World}
use krb5_token_service.Minting.Buffers.{set, zero_bytearray, zero_bytearray_lem}
use krb5_token_service.System.{zero_buffer, get_buffer}

abbrev AllZero : Bytes → Type 0
AllZero = All (λ b. b ≡ 0)

-- Every byte of the buffer is 0, if there is a buffer.
abbrev pub Zeroed : Option ℕ → World → Type 0
Zeroed none w = Unit
Zeroed (some i) w = AllZero (get_buffer i w.buffers)

AllZero-replicate : (n : ℕ) → AllZero (replicate n 0)
AllZero-replicate zero = tt
AllZero-replicate (suc n) = (refl, AllZero-replicate n)

AllZero-zero_bytearray : (buf : Bytes) → AllZero (zero_bytearray buf)
AllZero-zero_bytearray buf =
    subst AllZero (sym (zero_bytearray_lem buf)) (AllZero-replicate (length buf))

AllZero-set_same :
    (bs : List Bytes) (i : ℕ) → AllZero (get_buffer i (set bs i (zero_bytearray (get_buffer i bs))))
unfolding get_buffer set
AllZero-set_same [] i = tt
AllZero-set_same (b ∷ bs) zero = AllZero-zero_bytearray b
AllZero-set_same (b ∷ bs) (suc i) = AllZero-set_same bs i

AllZero-set_other :
    (bs : List Bytes) (i j : ℕ)
    → AllZero (get_buffer i bs)
    → AllZero (get_buffer i (set bs j (zero_bytearray (get_buffer j bs))))
unfolding get_buffer set
AllZero-set_other [] i j h = tt
AllZero-set_other (b ∷ bs) zero zero h = AllZero-zero_bytearray b
AllZero-set_other (b ∷ bs) zero (suc j) h = h
AllZero-set_other (b ∷ bs) (suc i) zero h = h
AllZero-set_other (b ∷ bs) (suc i) (suc j) h = AllZero-set_other bs i j h

pub Zeroed-zero_buffer : (i : Option ℕ) (w : World) → Zeroed i (zero_buffer i w)
unfolding zero_buffer
Zeroed-zero_buffer none w = tt
Zeroed-zero_buffer (some i) w = AllZero-set_same w.buffers i

-- Overwriting another buffer changes nothing about that.
pub Zeroed-zero_other : (i j : Option ℕ) (w : World) → Zeroed i w → Zeroed i (zero_buffer j w)
unfolding zero_buffer
Zeroed-zero_other none j w h = tt
Zeroed-zero_other (some i) none w h = h
Zeroed-zero_other (some i) (some j) w h = AllZero-set_other w.buffers i j h
