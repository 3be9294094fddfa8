-- ===== src/LogParse/Main/Records.antt =====
-- What applets/log_parse/log_parse.c prints with a regular expression: a line for each record.
use stream_data_pipline.Prelude.{
  ℕ, ◌+◌, ◌<◌, ◌≡◌, refl, ◌∙◌, Bool, true, false, Option, none, some, List, [], ◌∷◌, ◌++◌,
  if◌then◌else◌, ltb, ◌-◌, length, drop, Bool-cases, inl, inr,
}
use stream_data_pipline.Prelude.Bytes.{Bytes}
use stream_data_pipline.Buffer.{size_max}
use stream_data_pipline.Watch.{c_string}
use stream_data_pipline.LogParse.Filter.{Log, Filter, log_filter_match_fields}
use stream_data_pipline.LogParse.Fields.{
  Line, line_parsed, line_skipped, line_failed, Match, with_first, captures, on_match,
  log_regex_parse_line,
}
use stream_data_pipline.LogParse.Output.Csv.{csv_line}
use stream_data_pipline.LogParse.Output.Json.{json_line}
use stream_data_pipline.LogParse.Trim.{trim_line}
use stream_data_pipline.LogParse.Command.{
  OutputFormat, log_output_json, log_output_csv, log_output_count, Regexec,
}
use stream_data_pipline.LogParse.Main.{Host}

abbrev pub fails : Line → Bool
fails (line_parsed vs) = false
fails line_skipped = false
fails line_failed = true

fails-with_first : (v : Bytes) (l : Line) → fails (with_first v l) ≡ fails l
fails-with_first v (line_parsed vs) = refl
fails-with_first v line_skipped = refl
fails-with_first v line_failed = refl

captures_granted :
    (malloc_ok : ℕ → Bool) (line : Bytes) (names : List Bytes) (matches : List Match)
    → ((n : ℕ) → malloc_ok n ≡ true)
    → fails (captures malloc_ok line names matches) ≡ false
unfolding captures
captures_granted malloc_ok line [] matches all = refl
captures_granted malloc_ok line (n ∷ names) [] all = refl
captures_granted malloc_ok line (n ∷ names) (none ∷ matches) all = refl
captures_granted malloc_ok line (n ∷ names) (some (start, end) ∷ matches) all =
    elim (Bool-cases (ltb end start)) [
      | inl e ↦ rw e refl
      | inr e ↦
          rw (e, all (end - start + 1))
            (fails-with_first _ (captures malloc_ok line names matches)
              ∙ captures_granted malloc_ok line names matches all)
    ]

on_match_granted :
    (malloc_ok : ℕ → Bool) (line : Bytes) (names : List Bytes) (o : Option (List Match))
    → ((n : ℕ) → malloc_ok n ≡ true)
    → fails (on_match malloc_ok line names o) ≡ false
on_match_granted malloc_ok line names none all = refl
on_match_granted malloc_ok line names (some matches) all =
    captures_granted malloc_ok line names (drop 1 matches) all

abbrev pub is_text : OutputFormat → Bool
is_text log_output_json = true
is_text log_output_csv = true
is_text log_output_count = false

-- The record of a line, if it has one that matches, in front of others.
abbrev pub record_before : Option Filter → List Bytes → Line → List Log → List Log
record_before filter names line_failed rest = rest
record_before filter names line_skipped rest = rest
record_before filter names (line_parsed values) rest =
    let log : Log = record { names = names; values = values } in
    if log_filter_match_fields log filter then log ∷ rest else rest

-- The line that is printed for a record, where `quoted` gives the text of a JSON string.
abbrev pub text_of : (Bytes → Bytes) → OutputFormat → Log → Bytes
text_of quoted log_output_json log = json_line quoted log
text_of quoted log_output_csv log = csv_line log.values
text_of quoted log_output_count log = []

abbrev pub texts : (Bytes → Bytes) → OutputFormat → List Log → Bytes
texts quoted format [] = []
texts quoted format (log ∷ logs) = text_of quoted format log ++ texts quoted format logs

-- No line is longer than a buffer can be.
abbrev pub AllFit : (Bytes → Bytes) → OutputFormat → List Log → Type 0
AllFit quoted format [] = Unit
AllFit quoted format (log ∷ logs) =
    (length (text_of quoted format log) < size_max) × AllFit quoted format logs

module _ {I D : Type 0} (host : Host I D) where
  -- Memory is granted whenever it is asked for.
  abbrev pub Grants : Type 0
  Grants =
      ((n : ℕ) → host.calloc_ok n ≡ true)
      × ((n : ℕ) → host.malloc_ok n ≡ true)
      × ((n : ℕ) → host.alloc.grants n ≡ true)

  abbrev pub captured : Regexec → List Bytes → Bytes → Line
  captured regexec names line =
      log_regex_parse_line host.calloc_ok host.malloc_ok regexec line names

  pub captured_granted :
      (regexec : Regexec) (names : List Bytes) (line : Bytes)
      → Grants
      → fails (captured regexec names line) ≡ false
  unfolding log_regex_parse_line
  captured_granted regexec names line (c, m, a) =
      rw (c (length names + 1))
        (on_match_granted host.malloc_ok line names (regexec line (length names + 1)) m)

  -- The records of the lines that the expression matches, as far as they match the filter.
  unfoldable pub records : Option Filter → Regexec → List Bytes → List Bytes → List Log
  records filter regexec names [] = []
  records filter regexec names (raw ∷ lines) =
      record_before filter names (captured regexec names (trim_line (c_string raw)))
        (records filter regexec names lines)
