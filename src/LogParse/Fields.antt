-- ===== src/LogParse/Fields.antt =====
-- applets/log_parse/log_regex.c: the names of the fields, and the captures of a line. `regexec` and
-- what `calloc` and `malloc` grant are parameters. A match is its two offsets, or `none` where
-- `rm_so` is -1.
pub mod Laws
use stream_data_pipline.Prelude.{
  ℕ, suc, ◌+◌, ◌-◌, Bool, true, false, not, Option, none, some, List, [], ◌∷◌, ◌++◌, ltb, ◌==◌,
  if◌then◌else◌, length, take, drop,
}
use stream_data_pipline.Prelude.Bytes.{Bytes, is_empty}

-- The commas of the argument.
unfoldable pub commas : Bytes → ℕ
commas [] = 0
commas (c ∷ s) = if c == b',' then suc (commas s) else commas s

-- The calls of `strtok_r`: runs of commas are skipped. `cur` is the token so far.
unfoldable pub strtok : Bytes → Bytes → List Bytes
strtok cur [] = if is_empty cur then [] else cur ∷ []
strtok cur (c ∷ s) =
    if c == b','
    then (if is_empty cur then strtok [] s else cur ∷ strtok [] s)
    else strtok (cur ++ c ∷ []) s

-- `log_regex_split_fields`: the names, or `none` for -1
unfoldable pub log_regex_split_fields : (ℕ → Bool) → Bytes → Option (List Bytes)
log_regex_split_fields calloc_ok arg =
    let count = commas arg + 1 in
    if not (calloc_ok count)
    then none
    else if length (strtok [] arg) == count
    then some (strtok [] arg)
    else none

abbrev pub Match : Type 0
Match = Option (ℕ × ℕ)

-- What `log_regex_parse_line` returns: 0 with the values, 1, or -1.
pub data Line : Type 0 where
  line_parsed : List Bytes → Line
  line_skipped : Line
  line_failed : Line

abbrev pub with_first : Bytes → Line → Line
with_first v (line_parsed vs) = line_parsed (v ∷ vs)
with_first v line_skipped = line_skipped
with_first v line_failed = line_failed

-- The loop over the fields; the matches are those behind the first, one for each field.
unfoldable pub captures : (ℕ → Bool) → Bytes → List Bytes → List Match → Line
captures malloc_ok line [] matches = line_parsed []
captures malloc_ok line (n ∷ names) [] = line_skipped
captures malloc_ok line (n ∷ names) (none ∷ matches) = line_skipped
captures malloc_ok line (n ∷ names) (some (start, end) ∷ matches) =
    let rest = captures malloc_ok line names matches in
    if ltb end start
    then line_skipped
    else if malloc_ok (end - start + 1)
    then with_first (take (end - start) (drop start line)) rest
    else line_failed

abbrev pub on_match : (ℕ → Bool) → Bytes → List Bytes → Option (List Match) → Line
on_match malloc_ok line names none = line_skipped
on_match malloc_ok line names (some matches) = captures malloc_ok line names (drop 1 matches)

-- `log_regex_parse_line`
unfoldable pub log_regex_parse_line :
    (ℕ → Bool) → (ℕ → Bool) → (Bytes → ℕ → Option (List Match)) → Bytes → List Bytes → Line
log_regex_parse_line calloc_ok malloc_ok regexec line names =
    let nmatch = length names + 1 in
    if not (calloc_ok nmatch)
    then line_failed
    else on_match malloc_ok line names (regexec line nmatch)
