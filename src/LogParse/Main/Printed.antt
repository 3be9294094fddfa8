-- ===== src/LogParse/Main/Printed.antt =====
-- The main loop of applets/log_parse/log_parse.c with a regular expression prints its records, or stops
-- where memory runs out.
use mathlib.Core.Path.{subst}
use stream_data_pipline.Prelude.{
  ℕ, ◌<◌, ◌≡◌, refl, sym, ap, ◌∙◌, Bool, true, false, Option, none, List, [], ◌∷◌, ◌++◌,
  append_assoc, append-nil, if◌then◌else◌, length, inl, inr, ◌⊎◌,
}
use stream_data_pipline.Prelude.Bytes.{Bytes}
use stream_data_pipline.Buffer.{size_max}
use stream_data_pipline.Json.{write_string}
use stream_data_pipline.Json.Strings.{Prints, write_string-Adds}
use stream_data_pipline.Watch.{c_string}
use stream_data_pipline.LogParse.Filter.{Log, Filter, log_filter_match_fields}
use stream_data_pipline.LogParse.Fields.{Line, line_parsed, line_skipped, line_failed}
use stream_data_pipline.LogParse.Output.Csv.{log_output_emit_csv-line}
use stream_data_pipline.LogParse.Output.Json.{log_output_emit_json-line}
use stream_data_pipline.LogParse.Trim.{trim_line}
use stream_data_pipline.LogParse.Command.{
  OutputFormat, log_output_json, log_output_csv, log_output_count, Regexec, regex_plan,
}
use stream_data_pipline.LogParse.Main.{
  Host, State, emit_log, emit_text, print_text, on_captures, run_lines,
}
use stream_data_pipline.LogParse.Main.Records.{
  is_text, record_before, text_of, texts, AllFit, Grants, captured, captured_granted, fails,
  records,
}

not_false : true ≡ false → ⊥
not_false e = cc

module _ {I D : Type 0} (host : Host I D) (quoted : Bytes → Bytes)
    (prints : Prints host.cjson quoted) where
  -- A record is printed as its line, or not at all; with memory for everything it is printed.
  emit_text_of :
      (format : OutputFormat) (log : Log) (s : State D)
      → is_text format ≡ true
      → length (text_of quoted format log) < size_max
      → ((emit_log host format log s ≡ (false, s))
          ⊎ (emit_log host format log s ≡ (true, print_text (text_of quoted format log) s)))
        × (Grants host
            → emit_log host format log s ≡ (true, print_text (text_of quoted format log) s))
  emit_text_of log_output_count log s f fits = cc
  emit_text_of log_output_csv log s f fits =
      let (either, granted) = log_output_emit_csv-line host.alloc log fits in
      (
        elim either [
          | inl e ↦ inl (ap (λ o. emit_text o s) e)
          | inr e ↦ inr (ap (λ o. emit_text o s) e)
        ],
        λ g. ap (λ o. emit_text o s) (granted g.2),
      )
  emit_text_of log_output_json log s f fits =
      let (either, granted) =
        log_output_emit_json-line host.alloc (write_string host.cjson host.alloc) quoted
          (write_string-Adds host.cjson quoted prints host.alloc) log fits in
      (
        elim either [
          | inl e ↦ inl (ap (λ o. emit_text o s) e)
          | inr e ↦ inr (ap (λ o. emit_text o s) e)
        ],
        λ g. ap (λ o. emit_text o s) (granted g.2),
      )

  module _ (format : OutputFormat) (is : is_text format ≡ true) where
    -- How the loop ends: the records in front are printed; all of them, or memory ran out.
    pub record Wrote (recs : List Log) (s : State D) (r : ℕ × State D) : Type 0 where
      pub taken : List Log
      pub left : List Log
      pub joined : recs ≡ taken ++ left
      pub out : r.1.out ≡ s.out ++ texts quoted format taken
      pub code : ((r.0 ≡ 0) × (left ≡ [])) ⊎ (r.0 ≡ 2)
      pub granted : Grants host → r.0 ≡ 0

    stopped : (recs : List Log) (s : State D) → (Grants host → ⊥) → Wrote recs s (2, s)
    stopped recs s denied = record {
      taken = [];
      left = recs;
      joined = refl;
      out = sym (append-nil s.out);
      code = inr refl;
      granted = λ g. absurd (denied g);
    }

    abbrev proceed : Bool × State D → (State D → ℕ × State D) → ℕ × State D
    proceed (go, s) next = let rest = next s in if go then rest else (2, s)

    -- One more record in front.
    one_more_text :
        (log : Log) (recs : List Log) (s : State D) (r : ℕ × State D)
        → Wrote recs (print_text (text_of quoted format log) s) r
        → Wrote (log ∷ recs) s r
    one_more_text log recs s r w = record {
      taken = log ∷ w.taken;
      left = w.left;
      joined = ap (λ l. log ∷ l) w.joined;
      out = w.out ∙ append_assoc s.out (text_of quoted format log) (texts quoted format w.taken);
      code = w.code;
      granted = w.granted;
    }

    module _ (next : State D → ℕ × State D) (recs : List Log)
        (goes : (s : State D) → AllFit quoted format recs → Wrote recs s (next s)) where
      emitted :
          (log : Log) (s : State D)
          → AllFit quoted format (log ∷ recs)
          → Wrote (log ∷ recs) s (proceed (emit_log host format log s) next)
      emitted log s (fit, fits) =
          let (either, all) = emit_text_of format log s is fit in
          elim either [
            | inl e ↦
                subst (λ q. Wrote (log ∷ recs) s (proceed q next)) (sym e)
                  (stopped (log ∷ recs) s
                    (λ g. not_false (ap (λ (q : Bool × State D). q.0) (sym (all g) ∙ e))))
            | inr e ↦
                subst (λ q. Wrote (log ∷ recs) s (proceed q next)) (sym e)
                  (one_more_text log recs s _
                    (goes (print_text (text_of quoted format log) s) fits))
          ]

      emitted_if :
          (b : Bool) (log : Log) (s : State D)
          → AllFit quoted format (if b then log ∷ recs else recs)
          → Wrote
              (if b then log ∷ recs else recs)
              s
              (proceed (if b then emit_log host format log s else (true, s)) next)
      emitted_if true log s fits = emitted log s fits
      emitted_if false log s fits = goes s fits

      line_step :
          (filter : Option Filter) (names : List Bytes) (l : Line) (s : State D)
          → (Grants host → fails l ≡ false)
          → AllFit quoted format (record_before filter names l recs)
          → Wrote
              (record_before filter names l recs)
              s
              (proceed (on_captures host format filter names none l s) next)
      line_step filter names line_failed s f fits = stopped recs s (λ g. not_false (f g))
      line_step filter names line_skipped s f fits = goes s fits
      line_step filter names (line_parsed values) s f fits =
          let log : Log = record { names = names; values = values } in
          emitted_if (log_filter_match_fields log filter) log s fits

    pub run_lines-Wrote :
        (filter : Option Filter) (regexec : Regexec) (names lines : List Bytes) (s : State D)
        → AllFit quoted format (records host filter regexec names lines)
        → Wrote
            (records host filter regexec names lines)
            s
            (run_lines host format filter (regex_plan names regexec none) lines s)
    unfolding run_lines records
    run_lines-Wrote filter regexec names [] s fits = record {
      taken = [];
      left = [];
      joined = refl;
      out = sym (append-nil s.out);
      code = inl (refl, refl);
      granted = λ g. refl;
    }
    run_lines-Wrote filter regexec names (raw ∷ lines) s fits =
        line_step (run_lines host format filter (regex_plan names regexec none) lines)
          (records host filter regexec names lines)
          (λ s' f. run_lines-Wrote filter regexec names lines s' f) filter names
          (captured host regexec names (trim_line (c_string raw))) s
          (captured_granted host regexec names (trim_line (c_string raw))) fits
