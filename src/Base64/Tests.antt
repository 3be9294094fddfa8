-- ===== src/Base64/Tests.antt =====
-- Runs of the Base64 codec, and its theorems at small inputs.
use stream_data_pipline.Prelude.{
  ◌≤◌, ◌≡◌, ◌⊎◌, refl, false, length, some, none, [], arith, ◌==◌, if◌then◌else◌,
}
use stream_data_pipline.Prelude.Bytes.{Bytes, codes}
use stream_data_pipline.Base64.{
  encode, decode, decode_into, encode_groups, pad_from, b64_char, b64_index, digit, decode_groups,
  decoded_len, pad,
}
use stream_data_pipline.Base64.Length as Base64Length
use stream_data_pipline.Base64.Bounds as Base64Bounds

encode_text : encode (codes "clip") 100 ≡ some (codes "Y2xpcA==")
unfolding encode encode_groups pad_from b64_char
encode_text = refl

decode_text : decode b':' (codes "Y2xpcA==") 100 ≡ some (codes "clip")
unfolding decode decode_into digit b64_index decode_groups decoded_len
decode_text = refl

bad_text : decode b':' (codes "Y2x*") 100 ≡ none
unfolding decode decode_into digit b64_index decode_groups decoded_len
bad_text = refl

decode-encode_example :
    (s : Bytes) × (encode (codes "clip") 9 ≡ some s) × (decode b':' s 4 ≡ some (codes "clip"))
decode-encode_example =
    Base64Length.decode-encode b':' 9 4 b'c' (codes "lip") (omega arith) (omega arith) (omega arith)
      (omega arith)

decode_empty_example : decode b':' [] 1 ≡ (if b':' == pad then none else some [])
decode_empty_example = Base64Length.decode_empty b':' 1 (omega arith)

decode_into_within_example :
    let r = decode_into b':' (codes "Y2x*") 100 in
    (length (r.0) ≤ 100)
    × (length (r.0) ≤ 4)
    × ((r.1 ≡ false) ⊎ (length (r.0) ≡ decoded_len b':' (codes "Y2x*")))
decode_into_within_example = Base64Bounds.decode_into_within b':' (codes "Y2x*") 100 (omega arith)
