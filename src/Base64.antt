-- ===== src/Base64.antt =====
-- lib/base64.c. A `char` is a byte. The byte in front of the text, which `base64_decode` reads when
-- the text is empty, is a parameter.
pub mod Alphabet
pub mod Length
pub mod RoundTrip
pub mod Plain
pub mod Bounds
mod Tests
use stream_data_pipline.Prelude.{
  ℕ, zero, suc, ◌+◌, ◌-◌, ◌*◌, ◌/◌, ◌%◌, ◌^◌, Bool, true, false, ◌&&◌, not, Option, none, some,
  List, [], ◌∷◌, ◌++◌, ltb, leb, ◌==◌, if◌then◌else◌, length, get_or, set,
}
use stream_data_pipline.Prelude.Bytes.{Bytes, codes}

abbrev pub pad : ℕ
pad = b'='

-- `b64_table`
abbrev pub b64_table : Bytes
b64_table = codes "ABCDEFGHIJKLMNOPQRSTUVWXYZabcdefghijklmnopqrstuvwxyz0123456789+/"

pub b64_char : ℕ → ℕ
b64_char i = get_or b64_table i 0

-- `(octet_a << 0x10) + (octet_b << 0x08) + octet_c`; the sum of three octets fits a `uint32_t`.
abbrev pub triple_of : ℕ → ℕ → ℕ → ℕ
triple_of a b c = a * 2 ^ 16 + b * 2 ^ 8 + c

-- The four characters of a group, `(triple >> 6 * k) & 0x3F` for k = 3, 2, 1, 0.
abbrev pub quad : ℕ → Bytes → Bytes
quad t rest =
    b64_char (t / 2 ^ 18 % 64)
    ∷ b64_char (t / 2 ^ 12 % 64)
    ∷ b64_char (t / 2 ^ 6 % 64)
    ∷ b64_char (t % 64)
    ∷ rest

-- The loop of `base64_encode`: octets behind the end are 0.
pub encode_groups : Bytes → Bytes
encode_groups [] = []
encode_groups (a ∷ []) = quad (triple_of a 0 0) []
encode_groups (a ∷ b ∷ []) = quad (triple_of a b 0) []
encode_groups (a ∷ b ∷ c ∷ rest) = quad (triple_of a b c) (encode_groups rest)

-- The padding loop, on the number of rounds left.
pub pad_from : ℕ → ℕ → ℕ → Bytes → Bytes
pad_from zero i out_len out = out
pad_from (suc n) i out_len out = pad_from n (i + 1) out_len (set out (out_len - 1 - i) pad)

-- `base64_encode`: the text before its NUL, or `none` for -1.
unfoldable pub encode : Bytes → ℕ → Option Bytes
encode src out_max =
    let len = length src in
    let out_len = 4 * ((len + 2) / 3) in
    if ltb out_max (out_len + 1)
    then none
    else some (pad_from ((3 - len % 3) % 3) 0 out_len (encode_groups src))

-- `b64_index`; `none` for -1.
pub b64_index : ℕ → Option ℕ
b64_index c =
    if leb b'A' c && leb c b'Z'
    then some (c - b'A')
    else if leb b'a' c && leb c b'z'
    then some (c - b'a' + 26)
    else if leb b'0' c && leb c b'9'
    then some (c - b'0' + 52)
    else if c == b'+'
    then some 62
    else if c == b'/'
    then some 63
    else none

-- `src[i] == '=' ? 0 : b64_index(src[i])`
pub digit : ℕ → Option ℕ
digit c = if c == pad then some 0 else b64_index c

infixl 5 ◌>>=◌
abbrev pub ◌>>=◌ {ℓ κ} : {A : Type ℓ} {B : Type κ} → Option A → (A → Option B) → Option B
none >>= f = none
some a >>= f = f a

-- `if (j < ol) out[j++] = byte`, where `j` bytes are in `out`.
abbrev pub emit : ℕ → Bytes → ℕ → Bytes
emit ol out byte = if ltb (length out) ol then out ++ byte ∷ [] else out

-- `triple`, or `none` if a character of the four is refused.
abbrev pub decode_triple : ℕ → ℕ → ℕ → ℕ → Option ℕ
decode_triple c0 c1 c2 c3 = do
  a ← digit c0
  b ← digit c1
  c ← digit c2
  d ← digit c3
  some (a * 2 ^ 18 + b * 2 ^ 12 + c * 2 ^ 6 + d)

-- The three octets of `triple`, as far as `out` has room for them.
abbrev pub emit_triple : ℕ → Bytes → ℕ → Bytes
emit_triple ol out t =
    emit ol (emit ol (emit ol out (t / 2 ^ 16 % 256)) (t / 2 ^ 8 % 256)) (t % 256)

-- The loop of `base64_decode`: the bytes that are in `out` behind it, and whether it came to its end; it
-- returns -1 at a refused character. A rest of fewer than four characters cannot occur.
pub decode_groups : ℕ → Bytes → Bytes → Bytes × Bool
decode_groups ol [] out = (out, true)
decode_groups ol (c0 ∷ []) out = (out, false)
decode_groups ol (c0 ∷ c1 ∷ []) out = (out, false)
decode_groups ol (c0 ∷ c1 ∷ c2 ∷ []) out = (out, false)
decode_groups ol (c0 ∷ c1 ∷ c2 ∷ c3 ∷ rest) out = elim (decode_triple c0 c1 c2 c3) [
  | none ↦ (out, false)
  | some t ↦ decode_groups ol rest (emit_triple ol out t)
]

-- `src[len - k]`; `before` is the byte in front of the text.
abbrev pub byte_back : ℕ → Bytes → ℕ → ℕ
byte_back before src k = if ltb (length src) k then before else get_or src (length src - k) 0

-- The computation of `ol`; `ol--` is a `size_t` subtraction.
pub decoded_len : ℕ → Bytes → ℕ
decoded_len before src =
    let len = length src in
    let ol = len / 4 * 3 in
    let ol1 = if byte_back before src 1 == pad then (ol + 2 ^ 64 - 1) % 2 ^ 64 else ol in
    if ltb 1 len && byte_back before src 2 == pad then (ol1 + 2 ^ 64 - 1) % 2 ^ 64 else ol1

-- `base64_decode`: the bytes it has written into `out`, and whether it returns 0.
unfoldable pub decode_into : ℕ → Bytes → ℕ → Bytes × Bool
decode_into before src out_max =
    if not (length src % 4 == 0)
    then ([], false)
    else let ol = decoded_len before src in
      if ltb out_max ol then ([], false) else decode_groups ol src []

abbrev pub accepted : Bytes × Bool → Option Bytes
accepted (out, true) = some out
accepted (out, false) = none

-- `base64_decode` for a caller, which looks at `out` only if 0 is returned; `none` for -1.
unfoldable pub decode : ℕ → Bytes → ℕ → Option Bytes
decode before src out_max = accepted (decode_into before src out_max)
