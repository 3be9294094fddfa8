-- ===== src/Json/Laws.antt =====
-- What the getters of lib/jsonl_codec.c accept: exactly the safe integers, and texts that fit.
use stream_data_pipline.Prelude.{
  ℕ, ◌-◌, ◌^◌, ◌<◌, ◌≡◌, ◌↔◌, sym, ◌∙◌, true, none, some, length, arith,
}
use stream_data_pipline.Prelude.Bytes.{Bytes}
use stream_data_pipline.Prelude.Int.{ℤ, pos, negsuc, pos_part, ltb_ℤ}
use stream_data_pipline.Json.{
  Cjson, View, null, array, object, boolean, number, text, max_safe, field, int64_of, uint64_of,
  get_int64, get_uint64, get_string, string_of,
}
use stream_data_pipline.Json.Numbers.{Double, IsSafe, IsIeee}

module _ {D : Type 0} (d : Double D) where
  -- The view is a number equal to the safe integer `v`.
  abbrev pub IsInteger : View D → ℤ → Type 0
  IsInteger (number x) v = (d.same (d.of_ℤ v) x ≡ true) × IsSafe v
  IsInteger _ v = ⊥

module _ {I D : Type 0} (c : Cjson I D) (d : Double D) (ieee : IsIeee d) where
  -- The range test of a number that equals an integer is the range test of the integer.
  in_range :
      (x : D) (v : ℤ)
      → d.same (d.of_ℤ v) x ≡ true
      → (d.lt x (d.of_ℤ (negsuc (max_safe - 1))) ≡ ltb_ℤ v (negsuc (max_safe - 1)))
        × (d.lt (d.of_ℤ (pos max_safe)) x ≡ ltb_ℤ (pos max_safe) v)
        × (d.lt x (d.of_ℤ (pos 0)) ≡ ltb_ℤ v (pos 0))
  in_range x v e =
      let low = d.of_ℤ (negsuc (max_safe - 1)) in
      let high = d.of_ℤ (pos max_safe) in
      (
        sym (ieee.same_lt (d.of_ℤ v) x low e).0
            ∙ (ieee.lt_safe (negsuc (max_safe - 1)) v (omega arith)).1,
        sym (ieee.same_lt (d.of_ℤ v) x high e).1 ∙ (ieee.lt_safe (pos max_safe) v (omega arith)).0,
        sym (ieee.same_lt (d.of_ℤ v) x (d.of_ℤ (pos 0)) e).0
            ∙ (ieee.lt_safe (pos 0) v (omega arith)).1,
      )

  int64_of_iff : (w : View D) (v : ℤ) → (int64_of c d w ≡ some v) ↔ IsInteger d w v
  int64_of_iff (number x) v = (
    λ h. ground (arith, in_range x (d.trunc x)),
    λ h. ground (arith, in_range x v h.0, ieee.trunc_same v x h.1 h.0),
  )
  int64_of_iff null v = (λ h. cc, λ h. absurd h)
  int64_of_iff array v = (λ h. cc, λ h. absurd h)
  int64_of_iff object v = (λ h. cc, λ h. absurd h)
  int64_of_iff (boolean b) v = (λ h. cc, λ h. absurd h)
  int64_of_iff (text s) v = (λ h. cc, λ h. absurd h)

  uint64_of_iff : (w : View D) (n : ℕ) → (uint64_of c d w ≡ some n) ↔ IsInteger d w (pos n)
  uint64_of_iff (number x) n = (
    λ h. ground (arith, in_range x (pos (pos_part (d.trunc x)))),
    λ h. ground (arith, in_range x (pos n) h.0, ieee.trunc_same (pos n) x h.1 h.0),
  )
  uint64_of_iff null n = (λ h. cc, λ h. absurd h)
  uint64_of_iff array n = (λ h. cc, λ h. absurd h)
  uint64_of_iff object n = (λ h. cc, λ h. absurd h)
  uint64_of_iff (boolean b) n = (λ h. cc, λ h. absurd h)
  uint64_of_iff (text s) n = (λ h. cc, λ h. absurd h)

  -- The signed getter gives `v` exactly if the line is an object whose field is a number equal to the
  -- integer `v`, and `v` is at most 2^53 - 1 in size: nothing rounded, no fraction, nothing out of range.
  -- The unsigned getter gives exactly what the signed one gives and is not negative.
  pub get_int64-IsInteger :
      (line key : Bytes)
      → ((v : ℤ) → (get_int64 c d line key ≡ some v) ↔ IsInteger d (field c line key) v)
        × ((n : ℕ) → (get_uint64 c d line key ≡ some n) ↔ (get_int64 c d line key ≡ some (pos n)))
  unfolding get_int64 get_uint64
  get_int64-IsInteger line key =
      let w = field c line key in
      (
        int64_of_iff w,
        λ n. (
          λ h. (int64_of_iff w (pos n)).1 ((uint64_of_iff w n).0 h),
          λ h. (uint64_of_iff w n).1 ((int64_of_iff w (pos n)).0 h),
        ),
      )

  IsSafe-IsInteger : (w : View D) (v : ℤ) → IsInteger d w v → IsSafe v
  IsSafe-IsInteger (number x) v h = h.1
  IsSafe-IsInteger null v h = absurd h
  IsSafe-IsInteger array v h = absurd h
  IsSafe-IsInteger object v h = absurd h
  IsSafe-IsInteger (boolean b) v h = absurd h
  IsSafe-IsInteger (text s) v h = absurd h

  pub get_int64-IsSafe : (line key : Bytes) (v : ℤ) → get_int64 c d line key ≡ some v → IsSafe v
  get_int64-IsSafe line key v h =
      IsSafe-IsInteger (field c line key) v (((get_int64-IsInteger line key).0 v).0 h)

  pub get_uint64_bound : (line key : Bytes) (n : ℕ) → get_uint64 c d line key ≡ some n → n < 2 ^ 53
  get_uint64_bound line key n h =
      omega (arith, get_int64-IsSafe line key (pos n) (((get_int64-IsInteger line key).1 n).0 h))

module _ {I D : Type 0} (c : Cjson I D) where
  string_of_iff :
      (n : ℕ) (w : View D) (s : Bytes)
      → (string_of c n w ≡ some s) ↔ ((w ≡ text (some s)) × (length s < n))
  string_of_iff n (text none) s = (λ h. cc, λ h. cc (h.0))
  string_of_iff n (text (some t)) s = (λ h. ground arith, λ h. ground arith)
  string_of_iff n (number x) s = (λ h. cc, λ h. cc (h.0))
  string_of_iff n null s = (λ h. cc, λ h. cc (h.0))
  string_of_iff n array s = (λ h. cc, λ h. cc (h.0))
  string_of_iff n object s = (λ h. cc, λ h. cc (h.0))
  string_of_iff n (boolean b) s = (λ h. cc, λ h. cc (h.0))

  -- The string getter gives a text exactly if the field is that string and it fits into the buffer of
  -- the caller with its NUL.
  pub get_string_iff :
      (line key : Bytes) (n : ℕ) (s : Bytes)
      → (get_string c line key n ≡ some s) ↔ ((field c line key ≡ text (some s)) × (length s < n))
  unfolding get_string
  get_string_iff line key n s = ground (arith, string_of_iff n (field c line key) s)
