-- ===== src/Dispatcher/Config/Ttl.antt =====
-- Numbers on the command line: `valid_uint_string` of applets/pipeline_dispatcher/pd_config.c, and the
-- reading of `--ttl` in applets/clip_store/clip_store.c, to which the dispatcher passes it on.
use stream_data_pipline.Prelude.{
  ◌+◌, ◌≡◌, refl, Bool, true, false, not, ◌||◌, none, some, [], ◌∷◌, arith, if◌then◌else◌,
}
use stream_data_pipline.Prelude.Bytes.{Bytes, is_empty}
use stream_data_pipline.Prelude.Int.{ℤ, pos, negsuc, ltb_ℤ}
use stream_data_pipline.Prelude.Decimal.{
  print_ℕ, print_long, IsLong, strtol-print, starts_digit, starts_digit-print,
}
use stream_data_pipline.Prelude.Unsigned.{strtoul-print, strtoul-minus}
use stream_data_pipline.ClipStore.Row.{is_zero_ℤ}
use stream_data_pipline.ClipStore.Main.{parse_ttl}
use stream_data_pipline.Dispatcher.Config.{valid_uint_string}

some_digit : (s : Bytes) → starts_digit s ≡ true → is_empty s ≡ false
some_digit [] h = cc
some_digit (c ∷ s) h = refl

-- The text of a `long` is valid, be the number negative or not, unless it is 0 and 0 is not allowed.
valid_uint_string-print :
    (z : ℤ) (allow_zero : Bool)
    → IsLong z
    → valid_uint_string (print_long z) allow_zero ≡ (allow_zero || not (is_zero_ℤ z))
unfolding valid_uint_string print_long
valid_uint_string-print (pos n) allow_zero h =
    rw (some_digit (print_ℕ n) (starts_digit-print n), strtoul-print n (omega arith)) (ground arith)
valid_uint_string-print (negsuc n) allow_zero h =
    rw (strtoul-minus (n + 1) (omega arith)) (ground arith)

-- The dispatcher takes the text of every `long` as a time to live, whether it is negative or not;
-- clip_store, which gets it, takes those that are not negative, as the numbers that they are, and
-- refuses the others.
pub valid_uint_string-parse_ttl :
    (z : ℤ)
    → IsLong z
    → (valid_uint_string (print_long z) true ≡ true)
      × (parse_ttl (print_long z) ≡ (if ltb_ℤ z (pos 0) then none else some z))
unfolding parse_ttl
valid_uint_string-parse_ttl z h =
    (valid_uint_string-print z true h, rw (parse_ttl, strtol-print z h) refl)
