-- ===== src/Base64/Plain.antt =====
-- The text of `base64_encode` (lib/base64.c) has no byte below '+': no NUL, tab or line end.
use stream_data_pipline.Prelude.{ℕ, ◌+◌, ◌*◌, ◌/◌, ◌%◌, ◌<◌, ◌≡◌, refl, false, [], ◌∷◌, arith}
use stream_data_pipline.Prelude.Bytes.{Bytes, contains}
use stream_data_pipline.Base64.Alphabet.{b64_char_ge}
use stream_data_pipline.Base64.RoundTrip.{AreBytes, encoded}

pub contains-encoded :
    (c : ℕ) (src : Bytes) → AreBytes src → c < 43 → contains c (encoded src) ≡ false
unfolding contains
contains-encoded c [] h l = refl
contains-encoded c (a ∷ []) h l =
    ground (arith, b64_char_ge (a / 4) (omega arith), b64_char_ge (a % 4 * 16) (omega arith))
contains-encoded c (a ∷ b ∷ []) h l = ground (
  arith,
  b64_char_ge (a / 4) (omega arith),
  b64_char_ge (a % 4 * 16 + b / 16) (omega arith),
  b64_char_ge (b % 16 * 4) (omega arith),
)
contains-encoded c (a ∷ b ∷ d ∷ rest) h l = ground (
  arith,
  b64_char_ge (a / 4) (omega arith),
  b64_char_ge (a % 4 * 16 + b / 16) (omega arith),
  b64_char_ge (b % 16 * 4 + d / 64) (omega arith),
  b64_char_ge (d % 64) (omega arith),
  contains-encoded c rest h.1.1.1 l,
)
