-- ===== src/LogParse/Filter.antt =====
-- applets/log_parse/log_filter_expr.c: filter expressions and what they match. `log_t` is its names
-- and its values, position by position. The JSON reader is a parameter.
pub mod Laws
use stream_data_pipline.Prelude.{
  ℕ, Bool, true, false, not, ◌&&◌, Option, none, some, List, [], ◌∷◌, if◌then◌else◌, length, drop,
}
use stream_data_pipline.Prelude.Bytes.{Bytes, str_eq, is_empty, has_substr, starts_with, split_at}
use stream_data_pipline.Prelude.Int.{ℤ, ltb_ℤ}
use stream_data_pipline.Prelude.Decimal.{strtol, erange}

-- `log_t`, with `count` the number of names
pub record Log : Type 0 where
  pub names : List Bytes
  pub values : List Bytes

-- `filter_operator_t`
pub data FilterOperator : Type 0 where
  filter_equals : FilterOperator
  filter_not_equals : FilterOperator
  filter_greater_than : FilterOperator
  filter_contains : FilterOperator

-- `filter_t`; a filter without a key is `none` in its place.
pub record Filter : Type 0 where
  pub key : Bytes
  pub value : Bytes
  pub op : FilterOperator

-- The text before the first `p` and the text behind it: `strstr`, then the match overwritten by NUL.
unfoldable pub split_str : Bytes → Bytes → Option (Bytes × Bytes)
split_str p [] = none
split_str p (c ∷ s) =
    if starts_with p (c ∷ s)
    then some ([], drop (length p) (c ∷ s))
    else elim (split_str p s) [ none ↦ none | some (a, b) ↦ some (c ∷ a, b) ]

abbrev pub not_equals_text : Bytes
not_equals_text = b'!' ∷ b'=' ∷ []

-- The test at the end of `log_filter_parse`: neither part is empty.
abbrev pub checked : FilterOperator → Bytes × Bytes → Option Filter
checked op (key, value) =
    if not (is_empty key) && not (is_empty value)
    then some (record { key = key; value = value; op = op })
    else none

-- `log_filter_parse`, with `none` for -1
unfoldable pub log_filter_parse : Bytes → Option Filter
log_filter_parse expr = elim (split_str not_equals_text expr) [
  | some parts ↦ checked filter_not_equals parts
  | none ↦ elim (split_at b'>' expr) [
    | some parts ↦ checked filter_greater_than parts
    | none ↦ elim (split_at b'~' expr) [
      | some parts ↦ checked filter_contains parts
      | none ↦ elim (split_at b'=' expr) [ some parts ↦ checked filter_equals parts | none ↦ none ]
    ]
  ]
]

-- `parse_i64`
abbrev pub parse_i64 : Bytes → Option ℤ
parse_i64 s = elim (strtol s) [
  | none ↦ none
  | some (v, end) ↦ if not (is_empty end) then none else if erange s then none else some v
]

-- `log_get`
unfoldable pub log_get : List Bytes → List Bytes → Bytes → Option Bytes
log_get [] values key = none
log_get (name ∷ names) [] key = none
log_get (name ∷ names) (value ∷ values) key =
    if str_eq name key then some value else log_get names values key

abbrev pub greater : Option ℤ → Option ℤ → Bool
greater none rhs = false
greater (some a) none = false
greater (some a) (some b) = ltb_ℤ b a

abbrev pub match_value : FilterOperator → Bytes → Bytes → Bool
match_value filter_equals value arg = str_eq value arg
match_value filter_not_equals value arg = not (str_eq value arg)
match_value filter_contains value arg = has_substr arg value
match_value filter_greater_than value arg = greater (parse_i64 value) (parse_i64 arg)

abbrev pub match_found : Filter → Option Bytes → Bool
match_found filter none = false
match_found filter (some value) = match_value filter.op value filter.value

-- `log_filter_match_fields`
unfoldable pub log_filter_match_fields : Log → Option Filter → Bool
log_filter_match_fields log none = true
log_filter_match_fields log (some filter) =
    match_found filter (log_get log.names log.values filter.key)

-- The JSON reader of lib/jsonl_codec.c: `jsonl_is_object`, and two getters that answer `none` for -1.
pub record JsonReader : Type 0 where
  pub is_object : Bytes → Bool
  pub get_scalar_text : Bytes → Bytes → ℕ → Option Bytes
  pub get_int64 : Bytes → Bytes → Option ℤ

-- The tests of a scalar in `log_filter_match_jsonl`; the last one stands for `~`.
abbrev pub compare_scalar : FilterOperator → Bytes → Bytes → Bool
compare_scalar filter_equals value arg = str_eq value arg
compare_scalar filter_not_equals value arg = not (str_eq value arg)
compare_scalar filter_contains value arg = has_substr arg value
compare_scalar filter_greater_than value arg = has_substr arg value

abbrev pub compare_text : FilterOperator → Bytes → Option Bytes → Option Bool
compare_text op arg none = none
compare_text op arg (some value) = some (compare_scalar op value arg)

-- FILTER_GREATER_THAN in `log_filter_match_jsonl`: `*matched` stays 0 where a side is no integer.
abbrev pub compare_numbers : Option ℤ → Option ℤ → Bool
compare_numbers none rhs = false
compare_numbers (some lhs) none = false
compare_numbers (some lhs) (some rhs) = ltb_ℤ rhs lhs

abbrev pub match_line : JsonReader → Bytes → Filter → FilterOperator → Option Bool
match_line r line filter filter_greater_than =
    some (compare_numbers (r.get_int64 line filter.key) (parse_i64 filter.value))
match_line r line filter filter_equals =
    compare_text filter_equals filter.value (r.get_scalar_text line filter.key 1024)
match_line r line filter filter_not_equals =
    compare_text filter_not_equals filter.value (r.get_scalar_text line filter.key 1024)
match_line r line filter filter_contains =
    compare_text filter_contains filter.value (r.get_scalar_text line filter.key 1024)

-- `log_filter_match_jsonl`: `*matched`, or `none` for -1
unfoldable pub log_filter_match_jsonl : JsonReader → Bytes → Option Filter → Option Bool
log_filter_match_jsonl r line none = if r.is_object line then some true else none
log_filter_match_jsonl r line (some filter) =
    if r.is_object line then match_line r line filter filter.op else none
