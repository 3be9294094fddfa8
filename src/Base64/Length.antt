-- ===== src/Base64/Length.antt =====
-- The length that `base64_decode` computes from the padding (lib/base64.c).
use stream_data_pipline.Prelude.{
  ℕ, suc, ◌+◌, ◌-◌, ◌*◌, ◌/◌, ◌%◌, ◌^◌, ◌≤◌, ◌<◌, ◌≡◌, refl, ap, ◌∙◌, false, ◌&&◌, not, none, some,
  [], ◌∷◌, arith, ltb, ◌==◌, if◌then◌else◌, length, get_or,
}
use stream_data_pipline.Prelude.Bytes.{Bytes}
use stream_data_pipline.Base64.{
  pad, decoded_len, byte_back, encode, decode, decode_into, decode_groups, accepted,
}
use stream_data_pipline.Base64.Alphabet.{b64_char-ne-pad}
use stream_data_pipline.Base64.RoundTrip.{AreBytes, encoded, padded, padded-encoded, decode-encoded}

pub length-encoded : (src : Bytes) → length (encoded src) ≡ 4 * ((length src + 2) / 3)
length-encoded [] = omega arith
length-encoded (a ∷ []) = omega arith
length-encoded (a ∷ b ∷ []) = omega arith
length-encoded (a ∷ b ∷ c ∷ rest) = omega (arith, length-encoded rest)

get_or_skip :
    (k x0 x1 x2 x3 : ℕ) (g : Bytes)
    → 0 < k
    → k ≤ length g
    → get_or (x0 ∷ x1 ∷ x2 ∷ x3 ∷ g) (suc (suc (suc (suc (length g)))) - k) 0
      ≡ get_or g (length g - k) 0
get_or_skip k x0 x1 x2 x3 g pos h =
    ap (λ (j : ℕ). get_or (x0 ∷ x1 ∷ x2 ∷ x3 ∷ g) j 0) {y = suc (suc (suc (suc (length g - k))))}
      (omega arith)

-- How the encoded text of at least one byte ends.
record Ends (src s : Bytes) : Type 0 where
  last : (get_or s (length s - 1) 0 == pad) ≡ not (length src % 3 == 0)
  before_last : (get_or s (length s - 2) 0 == pad) ≡ (length src % 3 == 1)

mod3_step : (n : ℕ) → (suc (suc (suc n)) % 3) ≡ n % 3
mod3_step n = omega arith

encoded-Ends : (x : ℕ) (src : Bytes) → AreBytes (x ∷ src) → Ends (x ∷ src) (encoded (x ∷ src))
encoded-Ends a [] h = record { last = refl; before_last = refl }
encoded-Ends a (b ∷ []) h = record {
  last = refl;
  before_last = b64_char-ne-pad (b % 16 * 4) (omega arith);
}
encoded-Ends a (b ∷ c ∷ []) h = record {
  last = b64_char-ne-pad (c % 64) (omega arith);
  before_last = b64_char-ne-pad (b % 16 * 4 + c / 64) (omega arith);
}
encoded-Ends a (b ∷ c ∷ d ∷ rest) h =
    let e = encoded-Ends d rest h.1.1.1 in
    let l = length-encoded (d ∷ rest) in
    record {
      last =
          rw
            (
              get_or_skip 1 _ _ _ _ (encoded (d ∷ rest)) (omega arith) (omega arith),
              mod3_step (suc (length rest)),
            )
            e.last;
      before_last =
          rw
            (
              get_or_skip 2 _ _ _ _ (encoded (d ∷ rest)) (omega arith) (omega arith),
              mod3_step (suc (length rest)),
            )
            e.before_last;
    }

-- Three bytes for every four characters, less one for each of the paddings.
strip :
    (n l : ℕ)
    → 0 < n
    → n < 2 ^ 62
    → l ≡ 4 * ((n + 2) / 3)
    → let ol = l / 4 * 3 in
      let ol1 = if not (n % 3 == 0) then (ol + 2 ^ 64 - 1) % 2 ^ 64 else ol in
      (if ltb 1 l && (n % 3 == 1) then (ol1 + 2 ^ 64 - 1) % 2 ^ 64 else ol1) ≡ n
strip n l pos small e = ground arith

inside :
    (before : ℕ) (s : Bytes) (k : ℕ)
    → k ≤ length s
    → byte_back before s k ≡ get_or s (length s - k) 0
inside before s k h = ground arith

pub decoded_len-encoded :
    (before x : ℕ) (src : Bytes)
    → AreBytes (x ∷ src)
    → length src + 1 < 2 ^ 62
    → decoded_len before (encoded (x ∷ src)) ≡ length (x ∷ src)
unfolding decoded_len
decoded_len-encoded before x src h small =
    let s = encoded (x ∷ src) in
    let e = encoded-Ends x src h in
    let l = length-encoded (x ∷ src) in
    rw
      (
        decoded_len,
        inside before s 1 (omega arith),
        inside before s 2 (omega arith),
        e.last,
        e.before_last,
      )
      (strip (suc (length src)) (length s) (omega arith) (omega arith) l)

-- `base64_encode` with room for the text and its NUL.
encode-padded :
    (src : Bytes) (out_max : ℕ)
    → 4 * ((length src + 2) / 3) < out_max
    → encode src out_max ≡ some (padded src)
unfolding encode
encode-padded src out_max fits =
    let room : ltb out_max (4 * ((length src + 2) / 3) + 1) ≡ false = ground arith in
    rw (room, encode)

-- `base64_decode` of whole groups, with room for the bytes.
decode-groups :
    (before : ℕ) (s : Bytes) (in_max n : ℕ)
    → length s % 4 ≡ 0
    → decoded_len before s ≡ n
    → n ≤ in_max
    → decode before s in_max ≡ accepted (decode_groups n s [])
unfolding decode decode_into
decode-groups before s in_max n whole e holds =
    let full : ltb in_max n ≡ false = ground arith in rw (decode, decode_into, whole, e, full)

pub encode-encoded :
    (src : Bytes) (out_max : ℕ)
    → AreBytes src
    → 4 * ((length src + 2) / 3) < out_max
    → encode src out_max ≡ some (encoded src)
encode-encoded src out_max h fits = encode-padded src out_max fits ∙ ap some (padded-encoded src h)

pub decode-of_encoded :
    (before in_max x : ℕ) (src : Bytes)
    → AreBytes (x ∷ src)
    → length src + 1 < 2 ^ 62
    → length src + 1 ≤ in_max
    → decode before (encoded (x ∷ src)) in_max ≡ some (x ∷ src)
decode-of_encoded before in_max x src h small holds =
    let l = length-encoded (x ∷ src) in
    decode-groups before (encoded (x ∷ src)) in_max (suc (length src)) (omega arith)
      (decoded_len-encoded before x src h small) (omega arith)
    ∙ ap accepted (decode-encoded (x ∷ src) [] (suc (length src)) h (omega arith))

-- Encoding at least one and less than 2^62 bytes into a buffer with room for the text and its NUL gives
-- a text that decodes to the same bytes, whatever stands in front of it, as long as the decoder's
-- buffer holds them.
pub decode-encode :
    (before out_max in_max x : ℕ) (src : Bytes)
    → AreBytes (x ∷ src)
    → length src + 1 < 2 ^ 62
    → 4 * ((length src + 3) / 3) < out_max
    → length src + 1 ≤ in_max
    → (s : Bytes) × (encode (x ∷ src) out_max ≡ some s) × (decode before s in_max ≡ some (x ∷ src))
decode-encode before out_max in_max x src h small fits holds = (
  encoded (x ∷ src),
  encode-encoded (x ∷ src) out_max h (omega arith),
  decode-of_encoded before in_max x src h small holds,
)

-- On the empty text the result hangs on the byte in front of it: `src[len - 1]` lies outside.
pub decode_empty :
    (before in_max : ℕ)
    → in_max < 2 ^ 64 - 1
    → decode before [] in_max ≡ (if before == pad then none else some [])
unfolding decode decode_into decoded_len decode_groups
decode_empty before in_max h = ground arith
