-- ===== src/Json/Tests.antt =====
-- A small instance of the functions of cJSON, and the getters of lib/jsonl_codec.c on it: an object is
-- written as a brace and one digit for each number that a record has, `{1023`.
use stream_data_pipline.Prelude.{
  ℕ, ◌-◌, ◌*◌, ◌≡◌, ◌↔◌, refl, Option, none, some, [], ◌∷◌, ◌++◌, get_elem?, if◌then◌else◌,
}
use stream_data_pipline.Prelude.Bytes.{Bytes, codes, str_eq, starts_with}
use stream_data_pipline.Prelude.Decimal.{skip_spaces}
use stream_data_pipline.Prelude.Int.{ℤ, pos}
use stream_data_pipline.Json.{
  Cjson, View, number, text, object, field, get_int64, get_uint64, parse_object,
}
use stream_data_pipline.Json.Numbers.{halves, halves-IsIeee}
use stream_data_pipline.Json.Laws as JsonLaws

pub data Item : Type 0 where
  root str : Bytes → Item
  half : ℤ → Item

abbrev digit_at : ℕ → Bytes → ℤ
digit_at i line = elim (get_elem? line i) [ none ↦ pos 0 | some c ↦ pos ((c - b'0') * 2) ]

abbrev member_of : Item → Bytes → Option Item
member_of (root line) key =
    if str_eq key (codes "kind")
    then some (str (codes "data"))
    else if str_eq key (codes "sequence")
    then some (half (digit_at 1 line))
    else if str_eq key (codes "offset")
    then some (half (digit_at 2 line))
    else if str_eq key (codes "length")
    then some (half (digit_at 3 line))
    else if str_eq key (codes "session_id")
    then some (str (codes "s"))
    else if str_eq key (codes "ts")
    then some (half (digit_at 1 line))
    else if str_eq key (codes "path")
    then some (str (codes "up"))
    else if str_eq key (codes "ts_ms")
    then some (half (digit_at 4 line))
    else none
member_of (str s) key = none
member_of (half z) key = none

abbrev view_item : Item → View ℤ
view_item (root line) = object
view_item (str s) = text (some s)
view_item (half z) = number z

abbrev pub quoted : Bytes → Bytes
quoted s = b'"' ∷ (s ++ b'"' ∷ [])

abbrev print_one : Item → Option Bytes
print_one (root line) = some line
print_one (str s) = some (quoted s)
print_one (half z) = none

abbrev pub sample : Cjson Item ℤ
sample = record {
  parse = λ line. if starts_with (b'{' ∷ []) line then some (root line, []) else none;
  member = member_of;
  view = view_item;
  create_string = λ s. some (str s);
  print = print_one;
}

gets_sequence : get_uint64 sample halves (codes "{1023") (codes "sequence") ≡ some 1
unfolding get_uint64 field parse_object starts_with str_eq skip_spaces
gets_sequence = refl

get_int64-IsInteger_example :
    ((v : ℤ)
      → (get_int64 sample halves (codes "{1023") (codes "length") ≡ some v)
        ↔ JsonLaws.IsInteger halves (field sample (codes "{1023") (codes "length")) v)
    × ((n : ℕ)
        → (get_uint64 sample halves (codes "{1023") (codes "length") ≡ some n)
          ↔ (get_int64 sample halves (codes "{1023") (codes "length") ≡ some (pos n)))
get_int64-IsInteger_example =
    JsonLaws.get_int64-IsInteger sample halves halves-IsIeee (codes "{1023") (codes "length")
