-- ===== src/LogParse/Filter/Laws.antt =====
-- What filter expressions mean (log_filter_expr.c).
use mathlib.Core.Path.{subst}
use stream_data_pipline.Prelude.{
  ltb→lt, lt→ltb, ℕ, ◌≡◌, ◌≢◌, ◌↔◌, refl, sym, ap, ◌∙◌, true, false, Option, none, some, [], ◌∷◌,
  ◌++◌, arith, inl, inr, Bool-cases, ◌==◌,
}
use stream_data_pipline.Prelude.Bytes.{
  Bytes, str_eq_iff, str_eq_ne, is_empty, contains, contains-append, has_substr, starts_with,
  starts_with_sound, starts_with-append, split_at-append, split_at-none,
}
use stream_data_pipline.Prelude.Int.{ℤ, ◌<ℤ◌}
use stream_data_pipline.LogParse.Filter.{
  Log, FilterOperator, filter_equals, filter_not_equals, filter_greater_than, filter_contains,
  Filter, split_str, not_equals_text, checked, log_filter_parse, parse_i64, log_get, greater,
  match_value, match_found, log_filter_match_fields, JsonReader, compare_text, compare_numbers,
  match_line, log_filter_match_jsonl,
}

-- How an operator is written.
abbrev pub operator_text : FilterOperator → Bytes
operator_text filter_equals = b'=' ∷ []
operator_text filter_not_equals = b'!' ∷ b'=' ∷ []
operator_text filter_greater_than = b'>' ∷ []
operator_text filter_contains = b'~' ∷ []

-- No character that begins an operator of a higher rank than `=`.
abbrev pub IsUnranked : Bytes → Type 0
IsUnranked s = (contains b'!' s ≡ false) × (contains b'>' s ≡ false) × (contains b'~' s ≡ false)

split_str-none : (s : Bytes) → contains b'!' s ≡ false → split_str not_equals_text s ≡ none
unfolding split_str contains starts_with
split_str-none [] h = refl
split_str-none (c ∷ s) h = ground (arith, split_str-none s)

split_str-key :
    (key value : Bytes)
    → contains b'!' key ≡ false
    → split_str not_equals_text (key ++ b'!' ∷ b'=' ∷ value) ≡ some (key, value)
unfolding split_str contains starts_with
split_str-key [] value h = refl
split_str-key (c ∷ key) value h = ground (arith, split_str-key key value)

checked-some :
    (op : FilterOperator) (key value : Bytes)
    → is_empty key ≡ false
    → is_empty value ≡ false
    → checked op (key, value) ≡ some (record { key = key; value = value; op = op })
checked-some op key value hk hv = rw (hk, hv) refl

joined :
    (c d : ℕ) (key value : Bytes)
    → contains c key ≡ false
    → contains c value ≡ false
    → (d == c) ≡ false
    → contains c (key ++ d ∷ value) ≡ false
unfolding contains
joined c d key value hk hv hd = contains-append c key (d ∷ value) ∙ rw (hk, hd, hv) refl

-- An expression of a key without operator characters, an operator and a value without the characters
-- `!`, `>` and `~` is parsed into exactly these parts.
pub log_filter_parse-expression :
    (op : FilterOperator) (key value : Bytes)
    → IsUnranked key
    → contains b'=' key ≡ false
    → IsUnranked value
    → is_empty key ≡ false
    → is_empty value ≡ false
    → log_filter_parse (key ++ (operator_text op ++ value))
      ≡ some (record { key = key; value = value; op = op })
unfolding log_filter_parse
log_filter_parse-expression filter_not_equals key value k eq v hk hv =
    rw (log_filter_parse, split_str-key key value k.0)
      (checked-some filter_not_equals key value hk hv)
log_filter_parse-expression filter_greater_than key value k eq v hk hv =
    rw
      (
        log_filter_parse,
        split_str-none (key ++ b'>' ∷ value) (joined b'!' b'>' key value k.0 v.0 refl),
        split_at-append b'>' key value k.1,
      )
      (checked-some filter_greater_than key value hk hv)
log_filter_parse-expression filter_contains key value k eq v hk hv =
    rw
      (
        log_filter_parse,
        split_str-none (key ++ b'~' ∷ value) (joined b'!' b'~' key value k.0 v.0 refl),
        split_at-none b'>' (key ++ b'~' ∷ value) (joined b'>' b'~' key value k.1 v.1 refl),
        split_at-append b'~' key value k.2,
      )
      (checked-some filter_contains key value hk hv)
log_filter_parse-expression filter_equals key value k eq v hk hv =
    rw
      (
        log_filter_parse,
        split_str-none (key ++ b'=' ∷ value) (joined b'!' b'=' key value k.0 v.0 refl),
        split_at-none b'>' (key ++ b'=' ∷ value) (joined b'>' b'=' key value k.1 v.1 refl),
        split_at-none b'~' (key ++ b'=' ∷ value) (joined b'~' b'=' key value k.2 v.2 refl),
        split_at-append b'=' key value eq,
      )
      (checked-some filter_equals key value hk hv)

occurs : (p s : Bytes) → has_substr p s ≡ true → (a : Bytes) × (b : Bytes) × (s ≡ a ++ (p ++ b))
unfolding has_substr
occurs p [] h = let (b, e) = starts_with_sound p [] h in ([], b, e)
occurs p (c ∷ s) h = elim (Bool-cases (starts_with p (c ∷ s))) [
  | inl here ↦ let (b, e) = starts_with_sound p (c ∷ s) here in ([], b, e)
  | inr later ↦
      let (a, b, e) = occurs p s (ground (arith, h)) in (c ∷ a, b, ap (λ (t : Bytes). c ∷ t) e)
]

occurs_at : (p a b : Bytes) → has_substr p (a ++ (p ++ b)) ≡ true
unfolding has_substr
occurs_at p [] b = begins p b (p ++ b) (starts_with-append p b)
  where
    begins : (p b s : Bytes) → starts_with p s ≡ true → has_substr p s ≡ true
    begins p b [] h = h
    begins p b (c ∷ s) h = rw h refl
occurs_at p (c ∷ a) b = ground (arith, occurs_at p a b)

-- What a filter demands of the value of its field.
abbrev pub Holds : FilterOperator → Bytes → Bytes → Type 0
Holds filter_equals value arg = value ≡ arg
Holds filter_not_equals value arg = value ≢ arg
Holds filter_contains value arg = (a : Bytes) × (b : Bytes) × (value ≡ a ++ (arg ++ b))
Holds filter_greater_than value arg =
    (x : ℤ) × (y : ℤ) × (parse_i64 value ≡ some x) × (parse_i64 arg ≡ some y) × (y <ℤ x)

greater_sound :
    (a b : Option ℤ)
    → greater a b ≡ true
    → (x : ℤ) × (y : ℤ) × (a ≡ some x) × (b ≡ some y) × (y <ℤ x)
greater_sound none b h = cc
greater_sound (some x) none h = cc
greater_sound (some x) (some y) h = (x, y, refl, refl, ltb→lt _ _ h)

pub match_value_iff :
    (op : FilterOperator) (value arg : Bytes)
    → (match_value op value arg ≡ true) ↔ Holds op value arg
match_value_iff filter_equals value arg = str_eq_iff value arg
match_value_iff filter_not_equals value arg = (
  λ h e. absurd (ground (arith, h, (str_eq_iff value arg).1 e)),
  λ ne. ground (arith, str_eq_ne value arg ne),
)
match_value_iff filter_contains value arg =
    (occurs arg value, λ (a, b, e). ap (has_substr arg) e ∙ occurs_at arg a b)
match_value_iff filter_greater_than value arg = (
  greater_sound (parse_i64 value) (parse_i64 arg),
  λ (x, y, ex, ey, l). rw (ex, ey) (lt→ltb _ _ l),
)

match_found_iff :
    (f : Filter) (o : Option Bytes)
    → (match_found f o ≡ true) ↔ ((v : Bytes) × (o ≡ some v) × Holds f.op v f.value)
match_found_iff f none = (λ h. cc, λ (v, e, h). cc)
match_found_iff f (some w) = (
  λ h. (w, refl, (match_value_iff f.op w f.value).0 h),
  λ (v, e, h).
      (match_value_iff f.op w f.value).1
        (subst (λ (x : Bytes). Holds f.op x f.value) (sym (some_inj e)) h),
)
  where
    some_inj : {a b : Bytes} → some a ≡ some b → a ≡ b
    some_inj e = cc

-- A filter matches the fields of a line exactly if the line has the field and its value is equal to,
-- different from, greater than, or has as a part what the filter names; without a filter every line
-- matches.
pub log_filter_match_fields_iff :
    (log : Log)
    → (log_filter_match_fields log none ≡ true)
      × ((f : Filter)
          → (log_filter_match_fields log (some f) ≡ true)
            ↔ ((v : Bytes) × (log_get log.names log.values f.key ≡ some v) × Holds f.op v f.value))
unfolding log_filter_match_fields
log_filter_match_fields_iff log =
    (refl, λ f. match_found_iff f (log_get log.names log.values f.key))

compare_numbers-greater : (a b : Option ℤ) → compare_numbers a b ≡ greater a b
compare_numbers-greater none b = refl
compare_numbers-greater (some x) none = refl
compare_numbers-greater (some x) (some y) = refl

line_agrees :
    (r : JsonReader) (line : Bytes) (f : Filter) (op : FilterOperator) (v : Bytes)
    → r.get_scalar_text line f.key 1024 ≡ some v
    → r.get_int64 line f.key ≡ parse_i64 v
    → match_line r line f op ≡ some (match_value op v f.value)
line_agrees r line f filter_equals v t n = ap (compare_text filter_equals f.value) t
line_agrees r line f filter_not_equals v t n = ap (compare_text filter_not_equals f.value) t
line_agrees r line f filter_contains v t n = ap (compare_text filter_contains f.value) t
line_agrees r line f filter_greater_than v t n =
    ap (λ (o : Option ℤ). some (compare_numbers o (parse_i64 f.value))) n
    ∙ ap some (compare_numbers-greater (parse_i64 v) (parse_i64 f.value))

-- On an object whose member has the text, and as an integer the number, that the field of a log has,
-- the JSON filter answers what the filter of fields answers.
pub log_filter_match_jsonl-agrees :
    (r : JsonReader) (line : Bytes) (log : Log) (f : Filter) (v : Bytes)
    → r.is_object line ≡ true
    → log_get log.names log.values f.key ≡ some v
    → r.get_scalar_text line f.key 1024 ≡ some v
    → r.get_int64 line f.key ≡ parse_i64 v
    → log_filter_match_jsonl r line (some f) ≡ some (log_filter_match_fields log (some f))
unfolding log_filter_match_jsonl log_filter_match_fields
log_filter_match_jsonl-agrees r line log f v object field t n = rw object (
    line_agrees r line f f.op v t n ∙ ap (λ (o : Option Bytes). some (match_found f o)) (sym field))
