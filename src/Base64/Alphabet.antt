-- ===== src/Base64/Alphabet.antt =====
-- The alphabet of lib/base64.c: `b64_index` inverts `b64_table`, and the padding is none of its characters.
use stream_data_pipline.Prelude.{
  ℕ, zero, suc, ◌<◌, ◌≡◌, refl, Bool, true, false, ◌&&◌, not, Option, none, some, arith, leb,
  leb→le, ◌≤◌, ◌==◌, if◌then◌else◌, &&_split,
}
use stream_data_pipline.Base64.{b64_char, b64_index, digit, pad}

-- A test of every index of the alphabet, by running it.
passes_upto : (ℕ → Bool) → ℕ → Bool
passes_upto test zero = true
passes_upto test (suc k) = if test k then passes_upto test k else false

passes_upto_at : (test : ℕ → Bool) (k i : ℕ) → i < k → passes_upto test k ≡ true → test i ≡ true
unfolding passes_upto
passes_upto_at test zero i below run = absurd (omega arith)
passes_upto_at test (suc k) i below run = ground (arith, passes_upto_at test k i)

abbrev is_some_of : Option ℕ → ℕ → Bool
is_some_of none i = false
is_some_of (some j) i = j == i

some_of : (o : Option ℕ) (i : ℕ) → is_some_of o i ≡ true → o ≡ some i
some_of none i h = cc
some_of (some j) i h = ground arith

-- A character of the alphabet is read back as its index.
abbrev reads_back : ℕ → Bool
reads_back i = is_some_of (digit (b64_char i)) i && not (b64_char i == pad)

alphabet : passes_upto reads_back 64 ≡ true
unfolding passes_upto b64_char digit b64_index
alphabet = refl

pub digit-b64_char : (i : ℕ) → i < 64 → digit (b64_char i) ≡ some i
digit-b64_char i h = some_of (digit (b64_char i)) i (
    (&&_split (is_some_of (digit (b64_char i)) i) (not (b64_char i == pad))
      (passes_upto_at reads_back 64 i h alphabet)).0)

pub b64_char-ne-pad : (i : ℕ) → i < 64 → (b64_char i == pad) ≡ false
b64_char-ne-pad i h = ground (
  arith,
  (&&_split (is_some_of (digit (b64_char i)) i) (not (b64_char i == pad))
      (passes_upto_at reads_back 64 i h alphabet)).1,
)

pub digit-pad : digit pad ≡ some 0
unfolding digit
digit-pad = refl

large : passes_upto (λ i. leb 43 (b64_char i)) 64 ≡ true
unfolding passes_upto b64_char
large = refl

pub b64_char_ge : (i : ℕ) → i < 64 → 43 ≤ b64_char i
b64_char_ge i h = leb→le 43 (b64_char i) (passes_upto_at _ 64 i h large)
