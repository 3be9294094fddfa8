-- ===== src/Pipeline/Passes.antt =====
-- log_parse with the filter of the dispatcher on what stream_merge prints: every line is passed on.
use stream_data_pipline.Prelude.{
  ℕ, suc, ◌^◌, ◌<◌, ◌≡◌, refl, sym, ap, ◌∙◌, true, false, none, some, List, [], ◌∷◌, ◌++◌, map,
  arith, append_assoc, if◌then◌else◌, length, length-append, length-map, take,
}
use stream_data_pipline.Prelude.Bytes.{
  Bytes, codes, contains, split_at, starts_with, is_empty, str_eq,
}
use stream_data_pipline.Prelude.Decimal.{is_space, skip_spaces}
use stream_data_pipline.Json.{
  Cjson, View, object, text, parse_object, is_object, get_scalar_text, field,
}
use stream_data_pipline.Watch.{c_string, byte_at}
use stream_data_pipline.ClipStore.Format.{newline}
use stream_data_pipline.ClipStore.Compact.Lines.{unlines}
use stream_data_pipline.LogParse.Filter.{
  Filter, filter_equals, log_filter_parse, split_str, log_filter_match_jsonl,
}
use stream_data_pipline.LogParse.Trim.{trim_line, cut_spaces}
use stream_data_pipline.LogParse.Command as LogCommand
use stream_data_pipline.LogParse.Main as LogMain
use stream_data_pipline.LogParse.Main.Kept.{matching}
use stream_data_pipline.LogParse.Main.Answers.{log_parse_main-answer}
use stream_data_pipline.Pipeline.Clips.{ended_line}

byte_at-append : (pre rest : Bytes) (c : ℕ) → byte_at (pre ++ c ∷ rest) (length pre) ≡ c
byte_at-append [] rest c = refl
byte_at-append (x ∷ pre) rest c = byte_at-append pre rest c

take-append : (pre rest : Bytes) (c : ℕ) → take (suc (length pre)) (pre ++ c ∷ rest) ≡ pre ++ c ∷ []
take-append [] rest c = refl
take-append (x ∷ pre) rest c = ap (λ (l : Bytes). x ∷ l) (take-append pre rest c)

cut_spaces-line :
    (pre : Bytes) (c : ℕ)
    → is_space c ≡ false
    → cut_spaces (length (pre ++ c ∷ newline ∷ [])) (pre ++ c ∷ newline ∷ []) ≡ pre ++ c ∷ []
unfolding cut_spaces
cut_spaces-line pre c plain =
    let start = pre ++ c ∷ newline ∷ [] in
    let longer = length-append pre (c ∷ newline ∷ []) in
    let end : byte_at start (suc (length pre)) ≡ newline =
      ap (byte_at start) {x = suc (length pre)} {y = length (pre ++ c ∷ [])}
        (omega (arith, length-append pre (c ∷ [])))
      ∙ ap (λ s. byte_at s (length (pre ++ c ∷ [])))
          (sym (append_assoc pre (c ∷ []) (newline ∷ [])))
      ∙ byte_at-append (pre ++ c ∷ []) [] newline in
    ap (λ n. cut_spaces n start) {x = length start} {y = suc (suc (length pre))}
      (omega (arith, longer))
    ∙ ap
        (λ b.
          if is_space b
          then (if is_space (byte_at start (length pre))
              then cut_spaces (length pre) start
              else take (suc (length pre)) start)
          else take (suc (suc (length pre))) start)
        end
    ∙ ap (λ b. if is_space b then cut_spaces (length pre) start else take (suc (length pre)) start)
        (byte_at-append pre (newline ∷ []) c)
    ∙ ap (λ z. if z then cut_spaces (length pre) start else take (suc (length pre)) start) plain
    ∙ take-append pre (newline ∷ []) c

pub c_string_same : (s : Bytes) → contains 0 s ≡ false → c_string s ≡ s
unfolding contains
c_string_same [] h = refl
c_string_same (x ∷ s) h = ground (arith, c_string_same s)

-- A line that begins and ends with a brace is trimmed of its end only.
pub trim_line-ended :
    (s middle : Bytes)
    → s ≡ b'{' ∷ (middle ++ b'}' ∷ [])
    → contains 0 (ended_line s) ≡ false
    → trim_line (c_string (ended_line s)) ≡ s
unfolding trim_line skip_spaces
trim_line-ended s middle braces clean =
    ap trim_line (c_string_same (ended_line s) clean)
    ∙ ap (λ t. trim_line (ended_line t)) braces
    ∙ ap (λ t. trim_line (b'{' ∷ t)) (append_assoc middle (b'}' ∷ []) (newline ∷ []))
    ∙ cut_spaces-line (b'{' ∷ middle) b'}' refl
    ∙ sym braces

-- cJSON reads the line as an object with nothing but white space behind it.
pub record IsObject {I D : Type 0} (c : Cjson I D) (line : Bytes) : Type 0 where
  pub root : I
  pub rest : Bytes
  pub parses : c.parse line ≡ some (root, rest)
  pub blank : is_empty (skip_spaces rest) ≡ true
  pub is : c.view root ≡ object

-- Under the key stands what the tests of cJSON find to be `w`.
pub record HasView {I D : Type 0} (c : Cjson I D) (root : I) (key : Bytes) (w : View D)
    : Type 0 where
  pub item : I
  pub stands : c.member root key ≡ some item
  pub reads : c.view item ≡ w

abbrev pub HasText : {I D : Type 0} → Cjson I D → I → Bytes → Bytes → Type 0
HasText c root key value = HasView c root key (text (some value))

module _ {I D : Type 0} (c : Cjson I D) (line : Bytes) (o : IsObject c line) where
  parse_object-root : parse_object c line ≡ some o.root
  unfolding parse_object
  parse_object-root = rw (o.parses, o.is, o.blank) refl

  pub field-HasView : (key : Bytes) (w : View D) → HasView c o.root key w → field c line key ≡ w
  unfolding field
  field-HasView key w h = rw (parse_object-root, h.stands) h.reads

  get_scalar_text-HasText :
      (key value : Bytes) (n : ℕ)
      → HasText c o.root key value
      → length value < n
      → get_scalar_text c line key n ≡ some value
  unfolding get_scalar_text
  get_scalar_text-HasText key value n h fits =
      rw (parse_object-root, h.stands, h.reads) (ground arith)

-- DEFAULT_FILTER of pd_config.c
abbrev pub default_filter : Bytes
default_filter = codes "type=clip"

-- The option that the dispatcher gives to log_parse.
abbrev pub default_opts : List LogCommand.Opt
default_opts = LogCommand.opt_filter default_filter ∷ []

abbrev clip_filter : Filter
clip_filter = record { key = codes "type"; value = codes "clip"; op = filter_equals }

abbrev pub filtering : LogCommand.Settings
filtering = record LogCommand.defaults { filter = some clip_filter }

parsed : LogCommand.parse_options default_opts LogCommand.defaults ≡ LogCommand.settings filtering
unfolding LogCommand.parse_options log_filter_parse split_str split_at starts_with
parsed = refl

json_format : LogCommand.parse_format none ≡ some LogCommand.log_output_json
unfolding LogCommand.parse_format
json_format = refl

-- A line that the filter of the dispatcher passes.
pub record IsPassed {I D : Type 0} (c : Cjson I D) (s : Bytes) : Type 0 where
  pub middle : Bytes
  pub braces : s ≡ b'{' ∷ (middle ++ b'}' ∷ [])
  pub clean : contains 0 (ended_line s) ≡ false
  pub is_object : IsObject c s
  pub kind : HasText c is_object.root (codes "type") (codes "clip")

module _ {I D : Type 0} (c : Cjson I D) where
  abbrev pub AllPassed : List Bytes → Type 0
  AllPassed [] = Unit
  AllPassed (s ∷ ss) = IsPassed c s × AllPassed ss

module _ {I D : Type 0} (host : LogMain.Host I D) where
  matches :
      (s : Bytes)
      → IsPassed host.cjson s
      → log_filter_match_jsonl (LogMain.reader host) s (some clip_filter) ≡ some true
  unfolding log_filter_match_jsonl is_object str_eq
  matches s h =
      rw
        (
          parse_object-root host.cjson s h.is_object,
          get_scalar_text-HasText host.cjson s h.is_object (codes "type") (codes "clip") 1024 h.kind
              (omega arith),
        )
        refl

  matching-all :
      (ss : List Bytes)
      → AllPassed host.cjson ss
      → matching host (some clip_filter) (map ended_line ss) ≡ ss
  unfolding matching
  matching-all [] h = refl
  matching-all (s ∷ ss) h =
      rw (trim_line-ended s h.0.middle h.0.braces h.0.clean, matches s h.0)
        (ap (λ (l : List Bytes). s ∷ l) (matching-all ss h.1))

module _ {I D : Type 0} (host : LogMain.Host I D) where
  -- `log_parse --filter type=clip` prints such lines again as they are.
  pub log_parse_main-passes :
      (ss : List Bytes)
      → AllPassed host.cjson ss
      → length ss < 2 ^ 64
      → host.read_error ≡ false
      → LogMain.log_parse_main (record host { input = map ended_line ss }) default_opts
        ≡ (0, unlines ss)
  log_parse_main-passes ss h small fine =
      log_parse_main-answer (record host { input = map ended_line ss }) default_opts filtering
        LogCommand.log_output_json parsed json_format refl refl refl
        (omega (arith, small, length-map ss ended_line)) fine
      ∙ ap (λ (l : List Bytes). (0, unlines l))
          (matching-all (record host { input = map ended_line ss }) ss h)
