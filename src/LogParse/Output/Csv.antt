-- ===== src/LogParse/Output/Csv.antt =====
-- The CSV lines of log_output_format.c: what is printed, and that a reader of CSV gets the values.
use stream_data_pipline.Prelude.{
  ℕ, suc, ◌+◌, ◌<◌, ◌≡◌, Bool, true, false, none, some, List, [], ◌∷◌, ◌++◌, arith, length,
  length-append, ◌⊎◌, inl, inr, Bool-cases, if◌then◌else◌, ◌==◌,
}
use stream_data_pipline.Prelude.Bytes.{Bytes}
use stream_data_pipline.Buffer.{Buffer, ok, Allocator, size_max, append_char, empty}
use stream_data_pipline.LogParse.Filter.{Log}
use stream_data_pipline.LogParse.Output.{
  quote, append_quoted, append_csv_field, append_fields, log_output_emit_csv,
}
use stream_data_pipline.Buffer.Steps.{
  comma_if, comma-Adds, Holds, Adds, append_char-Adds, append_str-Adds, done-Adds, try-Adds,
  empty-Holds, printed-Adds,
}

-- A text with every quote doubled.
abbrev pub doubled : Bytes → Bytes
doubled [] = []
doubled (c ∷ s) = (if c == b'"' then b'"' ∷ [] else []) ++ c ∷ doubled s

abbrev pub csv_field : Bytes → Bytes
csv_field s = if quote s then b'"' ∷ (doubled s ++ b'"' ∷ []) else s

abbrev pub csv_fields : Bool → List Bytes → Bytes
csv_fields first [] = []
csv_fields first (v ∷ vs) = comma_if first ++ (csv_field v ++ csv_fields false vs)

-- A line of CSV.
abbrev pub csv_line : List Bytes → Bytes
csv_line values = csv_fields true values ++ 10 ∷ []

module _ (m : Allocator) where
  -- A character that is added on a condition.
  if-Adds :
      (q : Bool) (d : ℕ) (bs : Bytes) (b : Buffer)
      → Holds bs b
      → length bs + length (if q then d ∷ [] else []) < size_max
      → Adds m bs (if q then d ∷ [] else []) (if q then append_char m b d else (ok, b))
  if-Adds true d bs b h fits = append_char-Adds m d bs b h (omega arith)
  if-Adds false d bs b h fits = done-Adds m bs b h

  append_quoted-Adds :
      (s bs : Bytes) (b : Buffer)
      → Holds bs b
      → length bs + length (doubled s) < size_max
      → Adds m bs (doubled s) (append_quoted m s b)
  unfolding append_quoted
  append_quoted-Adds [] bs b h fits = done-Adds m bs b h
  append_quoted-Adds (c ∷ s) bs b h fits =
      let pre : Bytes = if c == b'"' then b'"' ∷ [] else [] in
      let all = length-append pre (c ∷ doubled s) in
      let l1 = length-append bs pre in
      let l2 = length-append (bs ++ pre) (c ∷ []) in
      try-Adds m bs pre (c ∷ doubled s) _ _ (if-Adds (c == b'"') b'"' bs b h (omega (arith, all)))
        (λ b1 h1.
          try-Adds m (bs ++ pre) (c ∷ []) (doubled s) (append_char m b1 c) (append_quoted m s)
            (append_char-Adds m c (bs ++ pre) b1 h1 (omega (arith, all, l1)))
            (λ b2 h2.
              append_quoted-Adds s (bs ++ pre ++ c ∷ []) b2 h2 (omega (arith, all, l1, l2))))

  append_csv_field-Adds :
      (s bs : Bytes) (b : Buffer)
      → Holds bs b
      → length bs + length (csv_field s) < size_max
      → Adds m bs (csv_field s) (append_csv_field m s b)
  unfolding append_csv_field
  append_csv_field-Adds s bs b h fits = elim (Bool-cases (quote s)) [
    | inr plain ↦ rw plain (append_str-Adds m s bs b h (rw plain at fits))
    | inl quoted ↦
        let fits' : length bs + suc (length (doubled s ++ b'"' ∷ [])) < size_max =
          rw quoted at fits in
        let l = length-append (doubled s) (b'"' ∷ []) in
        let l1 = length-append bs (b'"' ∷ []) in
        let l2 = length-append (bs ++ b'"' ∷ []) (doubled s) in
        rw quoted (
          try-Adds m bs (b'"' ∷ []) (doubled s ++ b'"' ∷ []) (append_char m b b'"') _
            (append_char-Adds m b'"' bs b h (omega (arith, fits')))
            (λ b1 h1.
              try-Adds m (bs ++ b'"' ∷ []) (doubled s) (b'"' ∷ []) (append_quoted m s b1) _
                (append_quoted-Adds s (bs ++ b'"' ∷ []) b1 h1 (omega (arith, fits', l, l1)))
                (λ b2 h2.
                  append_char-Adds m b'"' (bs ++ b'"' ∷ [] ++ doubled s) b2 h2
                    (omega (arith, fits', l, l1, l2)))))
  ]

  append_fields-Adds :
      (first : Bool) (vs : List Bytes) (bs : Bytes) (b : Buffer)
      → Holds bs b
      → length bs + length (csv_fields first vs) < size_max
      → Adds m bs (csv_fields first vs) (append_fields m first vs b)
  unfolding append_fields
  append_fields-Adds first [] bs b h fits = done-Adds m bs b h
  append_fields-Adds first (v ∷ vs) bs b h fits =
      let pre = comma_if first in
      let rest = csv_fields false vs in
      let l = length-append pre (csv_field v ++ rest) in
      let l' = length-append (csv_field v) rest in
      let l1 = length-append bs pre in
      let l2 = length-append (bs ++ pre) (csv_field v) in
      try-Adds m bs pre (csv_field v ++ rest) _ _ (comma-Adds m first bs b h (omega (arith, l)))
        (λ b1 h1.
          try-Adds m (bs ++ pre) (csv_field v) rest (append_csv_field m v b1) _
            (append_csv_field-Adds v (bs ++ pre) b1 h1 (omega (arith, l, l', l1)))
            (λ b2 h2.
              append_fields-Adds false vs (bs ++ pre ++ csv_field v) b2 h2
                (omega (arith, l, l', l1, l2))))

  -- `log_output_emit_csv` prints the whole line of CSV or, when memory runs out, nothing; with memory
  -- for everything it prints the line.
  pub log_output_emit_csv-line :
      (log : Log)
      → length (csv_line log.values) < size_max
      → ((log_output_emit_csv m log ≡ none)
          ⊎ (log_output_emit_csv m log ≡ some (csv_line log.values)))
        × (((n : ℕ) → m.grants n ≡ true) → log_output_emit_csv m log ≡ some (csv_line log.values))
  unfolding log_output_emit_csv
  log_output_emit_csv-line log fits =
      let l = length-append (csv_fields true log.values) (10 ∷ []) in
      printed-Adds m (csv_line log.values) _ (
        try-Adds m [] (csv_fields true log.values) (10 ∷ []) _ _
          (append_fields-Adds true log.values [] empty (empty-Holds m) (omega (arith, l)))
          (λ b h. append_char-Adds m 10 (csv_fields true log.values) b h (omega (arith, l))))
