-- ===== src/LogParse/Main/Kept.antt =====
-- The main loop of applets/log_parse/log_parse.c without a regular expression: which lines it keeps, and
-- what it collects from them.
use stream_data_pipline.Prelude.{
  ℕ, suc, ◌+◌, ◌^◌, ◌≤◌, ◌<◌, ◌≡◌, refl, ap, ◌∙◌, Bool, true, false, Option, none, some, List, [],
  ◌∷◌, arith, ◌==◌, if◌then◌else◌, length,
}
use stream_data_pipline.Prelude.Bytes.{Bytes}
use stream_data_pipline.Prelude.Int.{ℤ}
use stream_data_pipline.Json.{get_int64}
use stream_data_pipline.Watch.{c_string}
use stream_data_pipline.LogParse.Filter.{Filter, log_filter_match_jsonl}
use stream_data_pipline.LogParse.Trim.{trim_line}
use stream_data_pipline.LogParse.Command.{AggOp, OutputFormat, json_plan}
use stream_data_pipline.LogParse.Main.{
  Host, State, reader, run_lines, keep_line, on_matched, collect, collect_number,
}

abbrev pub is_true : Option Bool → Bool
is_true none = false
is_true (some b) = b

module _ {I D : Type 0} (host : Host I D) where
  -- The lines that match, without the white space around them.
  unfoldable pub matching : Option Filter → List Bytes → List Bytes
  matching filter [] = []
  matching filter (raw ∷ lines) =
      let line = trim_line (c_string raw) in
      let rest = matching filter lines in
      if is_true (log_filter_match_jsonl (reader host) line filter) then line ∷ rest else rest

  pub length-matching :
      (filter : Option Filter) (lines : List Bytes) → length (matching filter lines) ≤ length lines
  unfolding matching
  length-matching filter [] = omega arith
  length-matching filter (raw ∷ lines) = ground (arith, length-matching filter lines)

  module _ (format : OutputFormat) (aggregate : Option (AggOp × Bytes)) where
    abbrev pub keep_all : List Bytes → State D → State D
    keep_all [] s = s
    keep_all (line ∷ lines) s = keep_all lines (keep_line host format aggregate line s)

    kept :
        (o : Option Bool) (line : Bytes) (rest : List Bytes) (s : State D)
        → keep_all rest (on_matched host format aggregate line o s)
          ≡ keep_all (if is_true o then line ∷ rest else rest) s
    kept none line rest s = refl
    kept (some true) line rest s = refl
    kept (some false) line rest s = refl

    -- The loop ends with code 0 and takes the matching lines in, in their order.
    pub run_lines-keep_all :
        (filter : Option Filter) (lines : List Bytes) (s : State D)
        → run_lines host format filter (json_plan aggregate) lines s
          ≡ (0, keep_all (matching filter lines) s)
    unfolding run_lines matching
    run_lines-keep_all filter [] s = refl
    run_lines-keep_all filter (raw ∷ lines) s =
        let line = trim_line (c_string raw) in
        let o = log_filter_match_jsonl (reader host) line filter in
        run_lines-keep_all filter lines (on_matched host format aggregate line o s)
        ∙ ap (λ (t : State D). (0, t)) (kept o line (matching filter lines) s)

  abbrev pub number_before : Option ℤ → List D → List D
  number_before none vs = vs
  number_before (some z) vs = host.reals.double.of_ℤ z ∷ vs

  -- The values that a field has on the lines; a line without an integer there has none.
  abbrev pub values_in : Bytes → List Bytes → List D
  values_in field [] = []
  values_in field (line ∷ lines) =
      number_before (get_int64 host.cjson host.reals.double line field) (values_in field lines)

  shorter :
      (o : Option ℤ) (vs : List D) (n : ℕ) → length vs ≤ n → length (number_before o vs) ≤ suc n
  shorter none vs n h = omega arith
  shorter (some z) vs n h = omega arith

  pub length-values_in :
      (field : Bytes) (lines : List Bytes) → length (values_in field lines) ≤ length lines
  length-values_in field [] = omega arith
  length-values_in field (line ∷ lines) =
      shorter (get_int64 host.cjson host.reals.double line field) (values_in field lines)
        (length lines) (length-values_in field lines)

  abbrev pub collect_all : List D → State D → State D
  collect_all [] s = s
  collect_all (v ∷ vs) s = collect_all vs (collect host v s)

  collect_all-number :
      (o : Option ℤ) (vs : List D) (s : State D)
      → collect_all vs (collect_number host o s) ≡ collect_all (number_before o vs) s
  collect_all-number none vs s = refl
  collect_all-number (some z) vs s = refl

  pub keep_all-collect_all :
      (format : OutputFormat) (op : AggOp) (field : Bytes) (lines : List Bytes) (s : State D)
      → keep_all format (some (op, field)) lines s ≡ collect_all (values_in field lines) s
  keep_all-collect_all format op field [] s = refl
  keep_all-collect_all format op field (line ∷ lines) s =
      let o = get_int64 host.cjson host.reals.double line field in
      keep_all-collect_all format op field lines (collect_number host o s)
      ∙ collect_all-number o (values_in field lines) s

  abbrev pub total : D → List D → D
  total t [] = t
  total t (v ∷ vs) = total (host.reals.add t v) vs

  abbrev pub least_of : D → List D → D
  least_of m [] = m
  least_of m (v ∷ vs) = least_of (if host.reals.double.lt v m then v else m) vs

  abbrev pub greatest_of : D → List D → D
  greatest_of m [] = m
  greatest_of m (v ∷ vs) = greatest_of (if host.reals.double.lt m v then v else m) vs

  -- The counters behind values that were collected, behind at least one before.
  pub record Collected (vs : List D) (s after : State D) : Type 0 where
    pub sum : after.sum ≡ total s.sum vs
    pub least : after.least ≡ least_of s.least vs
    pub greatest : after.greatest ≡ greatest_of s.greatest vs
    pub count : after.count ≡ s.count + length vs
    pub out : after.out ≡ s.out

  pub collect_all-Collected :
      (vs : List D) (s : State D)
      → 0 < s.count
      → s.count + length vs < 2 ^ 64
      → Collected vs s (collect_all vs s)
  unfolding collect
  collect_all-Collected [] s h b = record {
    sum = refl;
    least = refl;
    greatest = refl;
    count = omega arith;
    out = refl;
  }
  collect_all-Collected (v ∷ vs) s h b =
      let r = collect_all-Collected vs (collect host v s) (omega arith) (omega arith) in
      let later : (s.count == 0) ≡ false = ground arith in
      record {
        sum = r.sum;
        least =
            r.least
            ∙ ap
                (λ z.
                  let m = if z then v else s.least in
                  least_of (if host.reals.double.lt v m then v else m) vs)
                later;
        greatest =
            r.greatest
            ∙ ap
                (λ z.
                  let m = if z then v else s.greatest in
                  greatest_of (if host.reals.double.lt m v then v else m) vs)
                later;
        count = omega (arith, r.count);
        out = r.out;
      }
