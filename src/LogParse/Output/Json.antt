-- ===== src/LogParse/Output/Json.antt =====
-- The JSON lines of log_output_format.c, over a writer of JSON strings.
use stream_data_pipline.Prelude.{
  ℕ, ◌+◌, ◌<◌, ◌≡◌, Bool, true, false, none, some, List, [], ◌∷◌, ◌++◌, arith, length,
  length-append, ◌⊎◌,
}
use stream_data_pipline.Prelude.Bytes.{Bytes}
use stream_data_pipline.Buffer.{Buffer, Allocator, size_max, append_char, empty}
use stream_data_pipline.LogParse.Filter.{Log}
use stream_data_pipline.LogParse.Output.{WriteString, append_members, log_output_emit_json}
use stream_data_pipline.Buffer.Steps.{
  comma_if, comma-Adds, Holds, Adds, append_char-Adds, append_str-Adds, done-Adds, try-Adds,
  empty-Holds, printed-Adds,
}

-- The members of an object, where `quoted` gives the text of a string.
abbrev pub members : (Bytes → Bytes) → Bool → List Bytes → List Bytes → Bytes
members quoted first [] values = []
members quoted first (n ∷ ns) [] = []
members quoted first (n ∷ ns) (v ∷ vs) =
    comma_if first ++ (quoted n ++ (b':' ∷ (quoted v ++ members quoted false ns vs)))

abbrev pub json_line : (Bytes → Bytes) → Log → Bytes
json_line quoted log = b'{' ∷ (members quoted true log.names log.values ++ b'}' ∷ 10 ∷ [])

module _ (m : Allocator) (write : WriteString) (quoted : Bytes → Bytes)
    (writes : (s bs : Bytes) (b : Buffer)
      → Holds bs b
      → length bs + length (quoted s) < size_max
      → Adds m bs (quoted s) (write s b)) where
  append_members-Adds :
      (first : Bool) (ns vs : List Bytes) (bs : Bytes) (b : Buffer)
      → Holds bs b
      → length bs + length (members quoted first ns vs) < size_max
      → Adds m bs (members quoted first ns vs) (append_members m write first ns vs b)
  unfolding append_members
  append_members-Adds first [] vs bs b h fits = done-Adds m bs b h
  append_members-Adds first (n ∷ ns) [] bs b h fits = done-Adds m bs b h
  append_members-Adds first (n ∷ ns) (v ∷ vs) bs b h fits =
      let rest = members quoted false ns vs in
      let pre = comma_if first in
      let b1s = bs ++ pre in
      let b2s = b1s ++ quoted n in
      let b3s = b2s ++ b':' ∷ [] in
      let b4s = b3s ++ quoted v in
      let l = length-append pre (quoted n ++ (b':' ∷ (quoted v ++ rest))) in
      let l' = length-append (quoted n) (b':' ∷ (quoted v ++ rest)) in
      let l'' = length-append (quoted v) rest in
      let l1 = length-append bs pre in
      let l2 = length-append b1s (quoted n) in
      let l3 = length-append b2s (b':' ∷ []) in
      let l4 = length-append b3s (quoted v) in
      try-Adds m bs pre (quoted n ++ (b':' ∷ (quoted v ++ rest))) _ _
        (comma-Adds m first bs b h (omega (arith, l)))
        (λ b1 h1.
          try-Adds m b1s (quoted n) (b':' ∷ (quoted v ++ rest)) (write n b1) _
            (writes n b1s b1 h1 (omega (arith, l, l', l1)))
            (λ b2 h2.
              try-Adds m b2s (b':' ∷ []) (quoted v ++ rest) (append_char m b2 b':') _
                (append_char-Adds m b':' b2s b2 h2 (omega (arith, l, l', l1, l2)))
                (λ b3 h3.
                  try-Adds m b3s (quoted v) rest (write v b3) _
                    (writes v b3s b3 h3 (omega (arith, l, l', l'', l1, l2, l3)))
                    (λ b4 h4.
                      append_members-Adds false ns vs b4s b4 h4
                        (omega (arith, l, l', l'', l1, l2, l3, l4))))))

  -- `log_output_emit_json` prints one object with the names and the values in their order, or nothing
  -- when memory runs out; with memory for everything it prints the object.
  pub log_output_emit_json-line :
      (log : Log)
      → length (json_line quoted log) < size_max
      → ((log_output_emit_json m write log ≡ none)
          ⊎ (log_output_emit_json m write log ≡ some (json_line quoted log)))
        × (((n : ℕ) → m.grants n ≡ true)
            → log_output_emit_json m write log ≡ some (json_line quoted log))
  unfolding log_output_emit_json
  log_output_emit_json-line log fits =
      let body = members quoted true log.names log.values in
      let l = length-append body (b'}' ∷ 10 ∷ []) in
      printed-Adds m (json_line quoted log) _ (
        try-Adds m [] (b'{' ∷ []) (body ++ b'}' ∷ 10 ∷ []) _ _
          (append_char-Adds m b'{' [] empty (empty-Holds m) (omega arith))
          (λ b1 h1.
            try-Adds m (b'{' ∷ []) body (b'}' ∷ 10 ∷ []) _ _
              (append_members-Adds true log.names log.values (b'{' ∷ []) b1 h1 (omega (arith, l)))
              (λ b2 h2. append_str-Adds m (b'}' ∷ 10 ∷ []) (b'{' ∷ body) b2 h2 (omega (arith, l)))))
