-- ===== src/Base64/RoundTrip.antt =====
-- Decoding the encoded text gives the bytes back (lib/base64.c).
use stream_data_pipline.Prelude.{
  ℕ, zero, suc, ◌+◌, ◌-◌, ◌*◌, ◌/◌, ◌%◌, ◌^◌, ◌≤◌, ◌<◌, ◌≡◌, refl, sym, ap, ◌∙◌, Bool, true, some,
  [], ◌∷◌, ◌++◌, arith, length, set, append_assoc, length-append, append-nil,
}
use stream_data_pipline.Prelude.Bytes.{Bytes}
use stream_data_pipline.Base64.{
  pad, b64_char, triple_of, quad, encode_groups, pad_from, digit, emit, decode_triple, emit_triple,
  decode_groups,
}
use stream_data_pipline.Base64.Alphabet.{digit-b64_char, digit-pad}

-- Every element is a byte.
abbrev pub AreBytes : Bytes → Type 0
AreBytes [] = Unit
AreBytes (c ∷ cs) = (c < 256) × AreBytes cs

-- The encoded text, group by group.
abbrev pub encoded : Bytes → Bytes
encoded [] = []
encoded (a ∷ []) = b64_char (a / 4) ∷ b64_char (a % 4 * 16) ∷ pad ∷ pad ∷ []
encoded (a ∷ b ∷ []) =
    b64_char (a / 4) ∷ b64_char (a % 4 * 16 + b / 16) ∷ b64_char (b % 16 * 4) ∷ pad ∷ []
encoded (a ∷ b ∷ c ∷ rest) =
    b64_char (a / 4)
    ∷ b64_char (a % 4 * 16 + b / 16)
    ∷ b64_char (b % 16 * 4 + c / 64)
    ∷ b64_char (c % 64)
    ∷ encoded rest

-- The four six-bit digits of three octets.
quad_digits :
    (a b c : ℕ)
    → a < 256
    → b < 256
    → c < 256
    → let t = triple_of a b c in
      (t / 2 ^ 18 % 64 ≡ a / 4)
      × (t / 2 ^ 12 % 64 ≡ a % 4 * 16 + b / 16)
      × (t / 2 ^ 6 % 64 ≡ b % 16 * 4 + c / 64)
      × (t % 64 ≡ c % 64)
quad_digits a b c ha hb hc = (omega arith, omega arith, omega arith, omega arith)

-- Padding reaches only the last group.
pad_from_skip :
    (n i k x0 x1 x2 x3 : ℕ) (g : Bytes)
    → i + n ≤ k
    → pad_from n i (4 + k) (x0 ∷ x1 ∷ x2 ∷ x3 ∷ g) ≡ x0 ∷ x1 ∷ x2 ∷ x3 ∷ pad_from n i k g
unfolding pad_from
pad_from_skip zero i k x0 x1 x2 x3 g h = refl
pad_from_skip (suc n) i k x0 x1 x2 x3 g h =
    ap (λ (j : ℕ). pad_from n (i + 1) (4 + k) (set (x0 ∷ x1 ∷ x2 ∷ x3 ∷ g) j pad))
      {x = 4 + k - 1 - i} {y = suc (suc (suc (suc (k - 1 - i))))} (omega arith)
    ∙ pad_from_skip n (i + 1) k x0 x1 x2 x3 (set g (k - 1 - i) pad) (omega arith)

-- The text of `base64_encode`: the groups, and the padding over the end of the last one.
abbrev pub padded : Bytes → Bytes
padded src = pad_from ((3 - length src % 3) % 3) 0 (4 * ((length src + 2) / 3)) (encode_groups src)

pub padded-encoded : (src : Bytes) → AreBytes src → padded src ≡ encoded src
unfolding pad_from encode_groups
padded-encoded [] h = refl
padded-encoded (a ∷ []) h =
    let (e0, e1, _, _) = quad_digits a 0 0 h.0 (omega arith) (omega arith) in
    rw (e0, e1) (ap (λ (j : ℕ). b64_char (a / 4) ∷ b64_char j ∷ pad ∷ pad ∷ []) (omega arith))
padded-encoded (a ∷ b ∷ []) h =
    let (e0, e1, e2, _) = quad_digits a b 0 h.0 h.1.0 (omega arith) in
    rw (e0, e1, e2)
      (ap (λ (j : ℕ). b64_char (a / 4) ∷ b64_char (a % 4 * 16 + b / 16) ∷ b64_char j ∷ pad ∷ [])
        (omega arith))
padded-encoded (a ∷ b ∷ c ∷ rest) h =
    let (e0, e1, e2, e3) = quad_digits a b c h.0 h.1.0 h.1.1.0 in
    let n = length rest in
    let k = 4 * ((n + 2) / 3) in
    let g = quad (triple_of a b c) (encode_groups rest) in
    ap (λ (j : ℕ). pad_from j 0 (4 * ((suc (suc (suc n)) + 2) / 3)) g)
      {x = (3 - suc (suc (suc n)) % 3) % 3} {y = (3 - n % 3) % 3} (omega arith)
    ∙ ap (λ (j : ℕ). pad_from ((3 - n % 3) % 3) 0 j g) {x = 4 * ((suc (suc (suc n)) + 2) / 3)}
        {y = 4 + k} (omega arith)
    ∙ pad_from_skip ((3 - n % 3) % 3) 0 k _ _ _ _ (encode_groups rest) (omega arith)
    ∙ rw (e0, e1, e2, e3, padded-encoded rest h.1.1.1)

-- The octets of four six-bit digits.
octets :
    (a b c : ℕ)
    → a < 256
    → b < 256
    → c < 256
    → let t =
        a / 4 * 2 ^ 18 + (a % 4 * 16 + b / 16) * 2 ^ 12 + (b % 16 * 4 + c / 64) * 2 ^ 6 + c % 64 in
      (t / 2 ^ 16 % 256 ≡ a) × (t / 2 ^ 8 % 256 ≡ b) × (t % 256 ≡ c)
octets a b c ha hb hc = (omega arith, omega arith, omega arith)

emit-lt : (ol : ℕ) (out : Bytes) (x : ℕ) → length out < ol → emit ol out x ≡ out ++ x ∷ []
emit-lt ol out x h = ground arith

emit-eq : (ol : ℕ) (out : Bytes) (x : ℕ) → ol ≡ length out → emit ol out x ≡ out
emit-eq ol out x h = ground arith

length-concat : (out : Bytes) (x : ℕ) → length (out ++ x ∷ []) ≡ length out + 1
length-concat out x = omega (arith, length-append out (x ∷ []))

-- Three octets with room for all of them.
emit_three :
    (ol : ℕ) (out : Bytes) (a b c : ℕ)
    → length out + 3 ≤ ol
    → emit ol (emit ol (emit ol out a) b) c ≡ ((out ++ a ∷ []) ++ b ∷ []) ++ c ∷ []
emit_three ol out a b c h = rw (
  emit-lt ol out a (omega arith),
  emit-lt ol (out ++ a ∷ []) b (omega (arith, length-concat out a)),
  emit-lt ol ((out ++ a ∷ []) ++ b ∷ []) c
      (omega (arith, length-concat out a, length-concat (out ++ a ∷ []) b)),
)

regroup :
    (out : Bytes) (a b c : ℕ) (rest : Bytes)
    → (((out ++ a ∷ []) ++ b ∷ []) ++ c ∷ []) ++ rest ≡ out ++ a ∷ b ∷ c ∷ rest
regroup out a b c rest = simp append_assoc

-- One round of the decoding loop, on characters whose digits are known.
group_step :
    (ol : ℕ) (c0 c1 c2 c3 a b c d : ℕ) (rest out : Bytes)
    → digit c0 ≡ some a
    → digit c1 ≡ some b
    → digit c2 ≡ some c
    → digit c3 ≡ some d
    → decode_groups ol (c0 ∷ c1 ∷ c2 ∷ c3 ∷ rest) out
      ≡ decode_groups ol rest (emit_triple ol out (a * 2 ^ 18 + b * 2 ^ 12 + c * 2 ^ 6 + d))
unfolding decode_groups
group_step ol c0 c1 c2 c3 a b c d rest out e0 e1 e2 e3 =
    let t : decode_triple c0 c1 c2 c3 ≡ some (a * 2 ^ 18 + b * 2 ^ 12 + c * 2 ^ 6 + d) =
      rw (e0, e1, e2, e3) refl in
    rw (decode_groups, t)

-- The last octets are written, and nothing behind them.
emit_one :
    (ol : ℕ) (out : Bytes) (a w x y : ℕ)
    → ol ≡ length out + 1
    → w ≡ a
    → emit ol (emit ol (emit ol out w) x) y ≡ out ++ a ∷ []
emit_one ol out a w x y h e =
    let full : ol ≡ length (out ++ a ∷ []) = omega (arith, length-concat out a) in
    rw (
      e,
      emit-lt ol out a (omega arith),
      emit-eq ol (out ++ a ∷ []) x full,
      emit-eq ol (out ++ a ∷ []) y full,
    )

emit_two :
    (ol : ℕ) (out : Bytes) (a b v w x : ℕ)
    → ol ≡ length out + 2
    → v ≡ a
    → w ≡ b
    → emit ol (emit ol (emit ol out v) w) x ≡ (out ++ a ∷ []) ++ b ∷ []
emit_two ol out a b v w x h ea eb =
    let out1 = out ++ a ∷ [] in
    rw (
      ea,
      eb,
      emit-lt ol out a (omega arith),
      emit-lt ol out1 b (omega (arith, length-concat out a)),
      emit-eq ol (out1 ++ b ∷ []) x (omega (arith, length-concat out a, length-concat out1 b)),
    )

abbrev finished : Bytes → Bytes × Bool
finished out = (out, true)

pub decode-encoded :
    (src out : Bytes) (ol : ℕ)
    → AreBytes src
    → ol ≡ length out + length src
    → decode_groups ol (encoded src) out ≡ (out ++ src, true)
unfolding decode_groups
decode-encoded [] out ol h e = ap finished (sym (append-nil out))
decode-encoded (a ∷ []) out ol h e =
    group_step ol _ _ pad pad (a / 4) (a % 4 * 16) 0 0 [] out (digit-b64_char (a / 4) (omega arith))
      (digit-b64_char (a % 4 * 16) (omega arith)) digit-pad digit-pad
    ∙ ap finished (emit_one ol out a _ _ _ (omega arith) (omega arith))
decode-encoded (a ∷ b ∷ []) out ol h e =
    group_step ol _ _ _ pad (a / 4) (a % 4 * 16 + b / 16) (b % 16 * 4) 0 [] out
      (digit-b64_char (a / 4) (omega arith)) (digit-b64_char (a % 4 * 16 + b / 16) (omega arith))
      (digit-b64_char (b % 16 * 4) (omega arith)) digit-pad
    ∙ ap finished (emit_two ol out a b _ _ _ (omega arith) (omega arith) (omega arith))
    ∙ ap finished (append_assoc out (a ∷ []) (b ∷ []))
decode-encoded (a ∷ b ∷ c ∷ rest) out ol h e =
    let (ea, eb, ec) = octets a b c h.0 h.1.0 h.1.1.0 in
    let l3 : length (((out ++ a ∷ []) ++ b ∷ []) ++ c ∷ []) ≡ length out + 3 = omega (
      arith,
      length-concat out a,
      length-concat (out ++ a ∷ []) b,
      length-concat ((out ++ a ∷ []) ++ b ∷ []) c,
    ) in
    group_step ol _ _ _ _ (a / 4) (a % 4 * 16 + b / 16) (b % 16 * 4 + c / 64) (c % 64)
      (encoded rest) out (digit-b64_char (a / 4) (omega arith))
      (digit-b64_char (a % 4 * 16 + b / 16) (omega arith))
      (digit-b64_char (b % 16 * 4 + c / 64) (omega arith)) (digit-b64_char (c % 64) (omega arith))
    ∙ ap (decode_groups ol (encoded rest)) (rw (ea, eb, ec) (emit_three ol out a b c (omega arith)))
    ∙ decode-encoded rest (((out ++ a ∷ []) ++ b ∷ []) ++ c ∷ []) ol h.1.1.1 (omega arith)
    ∙ ap finished (regroup out a b c rest)
