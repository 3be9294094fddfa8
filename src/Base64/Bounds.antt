-- ===== src/Base64/Bounds.antt =====
-- What `base64_decode` writes fits its buffer (lib/base64.c).
use stream_data_pipline.Prelude.{
  ℕ, suc, ◌+◌, ◌*◌, ◌/◌, ◌%◌, ◌^◌, ◌≤◌, ◌<◌, ◌-◌, ◌≡◌, ◌⊎◌, refl, Bool, true, false, Option, none,
  some, [], ◌∷◌, arith, ltb, not, ◌==◌, length, length-append, inl, inr, Bool-cases,
}
use stream_data_pipline.Prelude.Bytes.{Bytes}
use stream_data_pipline.Base64.{
  accepted, decode, decode_into, decode_groups, decode_triple, emit_triple, decoded_len, emit,
}

-- One byte more, if it fits.
emit_within :
    (ol : ℕ) (out : Bytes) (b : ℕ)
    → length out ≤ ol
    → let n = length (emit ol out b) in
      (n ≤ ol) × (n ≤ length out + 1) × ((n ≡ ol) ⊎ (n ≡ length out + 1))
emit_within ol out b h = ground (arith, length-append out (b ∷ []))

emit_triple_within :
    (ol : ℕ) (out : Bytes) (t : ℕ)
    → length out ≤ ol
    → let n = length (emit_triple ol out t) in
      (n ≤ ol) × (n ≤ length out + 3) × ((n ≡ ol) ⊎ (n ≡ length out + 3))
emit_triple_within ol out t h =
    let out1 = emit ol out (t / 2 ^ 16 % 256) in
    let out2 = emit ol out1 (t / 2 ^ 8 % 256) in
    let w1 = emit_within ol out (t / 2 ^ 16 % 256) h in
    let w2 = emit_within ol out1 (t / 2 ^ 8 % 256) w1.0 in
    let w3 = emit_within ol out2 (t % 256) w2.0 in ground (arith, w1, w2, w3)

-- How much is written: to the end of the loop, all that there is room for.
abbrev Written : ℕ → ℕ → ℕ → Bytes × Bool → Type 0
Written ol before n (out, ok) =
    (length out ≤ ol)
    × (length out ≤ before + n)
    × ((ok ≡ false) ⊎ (length out ≡ ol) ⊎ (length out ≡ before + n / 4 * 3))

group-Written :
    (ol n : ℕ) (out : Bytes) (f : Bytes → Bytes × Bool) (o : Option ℕ)
    → length out ≤ ol
    → ((t : ℕ) → Written ol (length (emit_triple ol out t)) n (f (emit_triple ol out t)))
    → Written ol
        (length out)
        (suc (suc (suc (suc n))))
        (elim o [ none ↦ (out, false) | some t ↦ f (emit_triple ol out t) ])
group-Written ol n out f none h k = (h, omega arith, inl refl)
group-Written ol n out f (some t) h k =
    let w = emit_triple_within ol out t h in
    let (r0, r1, r2) = k t in (r0, omega (arith, r1, w.1), ground (arith, w, r2))

decode_groups-Written :
    (ol : ℕ) (src out : Bytes)
    → length out ≤ ol
    → Written ol (length out) (length src) (decode_groups ol src out)
unfolding decode_groups
decode_groups-Written ol [] out h = (h, omega arith, inr (inr (omega arith)))
decode_groups-Written ol (c0 ∷ []) out h = (h, omega arith, inl refl)
decode_groups-Written ol (c0 ∷ c1 ∷ []) out h = (h, omega arith, inl refl)
decode_groups-Written ol (c0 ∷ c1 ∷ c2 ∷ []) out h = (h, omega arith, inl refl)
decode_groups-Written ol (c0 ∷ c1 ∷ c2 ∷ c3 ∷ rest) out h =
    group-Written ol (length rest) out (decode_groups ol rest) (decode_triple c0 c1 c2 c3) h
      (λ t. decode_groups-Written ol rest (emit_triple ol out t) (emit_triple_within ol out t h).0)

-- The text has three bytes for every four characters at most, unless it is empty and a '=' stands in
-- front of it.
decoded_len_le :
    (before : ℕ) (src : Bytes) (out_max : ℕ)
    → out_max < 2 ^ 64 - 1
    → decoded_len before src ≤ out_max
    → length src % 4 ≡ 0
    → decoded_len before src ≤ length src / 4 * 3
unfolding decoded_len
decoded_len_le before src out_max small h whole = ground arith

ends :
    {ol out_max n : ℕ} (r : Bytes × Bool)
    → Written ol 0 n r
    → ol ≤ out_max
    → ol ≤ n / 4 * 3
    → (length (r.0) ≤ out_max) × (length (r.0) ≤ n) × ((r.1 ≡ false) ⊎ (length (r.0) ≡ ol))
ends (out, ok) (w0, w1, inl e) le l = (omega arith, omega (arith, w1), inl e)
ends (out, ok) (w0, w1, inr (inl e)) le l = (omega arith, omega (arith, w1), inr e)
ends (out, ok) (w0, w1, inr (inr e)) le l = (omega arith, omega (arith, w1), inr (omega arith))

-- For a buffer of fewer than 2^64 - 1 bytes, whatever the text and also when it returns -1,
-- `base64_decode` writes no more bytes than the buffer has and no more than the text has characters; if
-- it returns 0, it has written exactly as many as it says in `*out_len`.
pub decode_into_within :
    (before : ℕ) (src : Bytes) (out_max : ℕ)
    → out_max < 2 ^ 64 - 1
    → let r = decode_into before src out_max in
      (length (r.0) ≤ out_max)
      × (length (r.0) ≤ length src)
      × ((r.1 ≡ false) ⊎ (length (r.0) ≡ decoded_len before src))
unfolding decode_into
decode_into_within before src out_max small = elim (Bool-cases (not (length src % 4 == 0))) [
  | inl bad ↦ rw (decode_into, bad) (omega arith, omega arith, inl refl)
  | inr whole ↦ elim (Bool-cases (ltb out_max (decoded_len before src))) [
    | inl full ↦ rw (decode_into, whole, full) (omega arith, omega arith, inl refl)
    | inr room ↦
        let w = decode_groups-Written (decoded_len before src) src [] (omega arith) in
        let l = decoded_len_le before src out_max small (ground arith) (ground arith) in
        let le : decoded_len before src ≤ out_max = ground arith in
        rw (decode_into, whole, room) (ends (decode_groups (decoded_len before src) src []) w le l)
  ]
]

accepted_within :
    (r : Bytes × Bool) (n : ℕ) {w : Bytes} → length (r.0) ≤ n → accepted r ≡ some w → length w ≤ n
accepted_within (out, true) n h e = ground arith
accepted_within (out, false) n h e = cc

-- The bytes that a caller gets are no more than the characters of the text.
pub decode_within :
    (before : ℕ) (src : Bytes) (out_max : ℕ) {w : Bytes}
    → out_max < 2 ^ 64 - 1
    → decode before src out_max ≡ some w
    → length w ≤ length src
unfolding decode
decode_within before src out_max small e =
    accepted_within (decode_into before src out_max) (length src)
      (decode_into_within before src out_max small).1 e
