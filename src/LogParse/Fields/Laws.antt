-- ===== src/LogParse/Fields/Laws.antt =====
-- Which field lists are accepted, and what the captures of a line are (log_regex.c).
use mathlib.Core.Path.{subst}
use stream_data_pipline.Prelude.{
  ℕ, ◌+◌, ◌-◌, ◌≤◌, ◌<◌, ◌≡◌, ◌≢◌, refl, sym, ap, ◌∙◌, Bool, true, false, not, ◌&&◌, Option, none,
  some, List, [], ◌∷◌, ◌++◌, arith, ltb, ◌==◌, ==_iff, if◌then◌else◌, length, take, drop, inl, inr,
  Bool-cases,
}
use stream_data_pipline.Prelude.Bytes.{Bytes, is_empty}
use stream_data_pipline.LogParse.Fields.{
  commas, strtok, log_regex_split_fields, Match, Line, line_parsed, line_skipped, line_failed,
  with_first, captures, on_match, log_regex_parse_line,
}

-- All that stands between commas, empty parts included.
abbrev pub parts : Bytes → Bytes → List Bytes
parts cur [] = cur ∷ []
parts cur (c ∷ s) = if c == b',' then cur ∷ parts [] s else parts (cur ++ c ∷ []) s

abbrev pub all_full : List Bytes → Bool
all_full [] = true
all_full (v ∷ vs) = not (is_empty v) && all_full vs

abbrev full_parts : List Bytes → List Bytes
full_parts [] = []
full_parts (v ∷ vs) = if is_empty v then full_parts vs else v ∷ full_parts vs

length-parts : (cur s : Bytes) → length (parts cur s) ≡ commas s + 1
unfolding commas
length-parts cur [] = omega arith
length-parts cur (c ∷ s) = ground (arith, length-parts [] s, length-parts (cur ++ c ∷ []) s)

strtok-parts : (cur s : Bytes) → strtok cur s ≡ full_parts (parts cur s)
unfolding strtok
strtok-parts cur [] = refl
strtok-parts cur (c ∷ s) = ground (arith, strtok-parts [] s, strtok-parts (cur ++ c ∷ []) s)

full_parts_all : (vs : List Bytes) → all_full vs ≡ true → full_parts vs ≡ vs
full_parts_all [] h = refl
full_parts_all (v ∷ vs) h = ground (arith, full_parts_all vs)

length-full_parts : (vs : List Bytes) → length (full_parts vs) ≤ length vs
length-full_parts [] = omega arith
length-full_parts (v ∷ vs) = ground (arith, length-full_parts vs)

full_parts_fewer : (vs : List Bytes) → all_full vs ≡ false → length (full_parts vs) < length vs
full_parts_fewer [] h = cc
full_parts_fewer (v ∷ vs) h = ground (arith, full_parts_fewer vs, length-full_parts vs)

-- The field list is accepted exactly if nothing between its commas is empty, and then the names are
-- what stands between them: the count of the tokens tells a skipped empty part.
pub log_regex_split_fields-parts :
    (calloc_ok : ℕ → Bool) (arg : Bytes)
    → calloc_ok (commas arg + 1) ≡ true
    → log_regex_split_fields calloc_ok arg
      ≡ (if all_full (parts [] arg) then some (parts [] arg) else none)
unfolding log_regex_split_fields
log_regex_split_fields-parts calloc_ok arg ok =
    let tokens = strtok-parts [] arg in
    let l = length-parts [] arg in
    elim (Bool-cases (all_full (parts [] arg))) [
      | inl full ↦
          let same = full_parts_all (parts [] arg) full in
          let counted : (length (strtok [] arg) == (commas arg + 1)) ≡ true =
            (==_iff _ _).1 (ap length (tokens ∙ same) ∙ l) in
          rw (full, ok, counted) (ap some (tokens ∙ same))
      | inr gap ↦
          let fewer = full_parts_fewer (parts [] arg) gap in
          let counted : (length (strtok [] arg) == (commas arg + 1)) ≡ false =
            ground (arith, ap length tokens, l, fewer) in
          rw (gap, ok, counted) refl
    ]

-- The text of a capture.
abbrev pub IsCapture : Bytes → Match → Bytes → Type 0
IsCapture line none v = ⊥
IsCapture line (some (start, end)) v = (start ≤ end) × (v ≡ take (end - start) (drop start line))

-- One value for each name, each the text of its capture.
abbrev pub AreCaptures : Bytes → List Bytes → List Match → List Bytes → Type 0
AreCaptures line [] matches [] = Unit
AreCaptures line [] matches (v ∷ vs) = ⊥
AreCaptures line (n ∷ names) matches [] = ⊥
AreCaptures line (n ∷ names) [] (v ∷ vs) = ⊥
AreCaptures line (n ∷ names) (x ∷ matches) (v ∷ vs) =
    IsCapture line x v × AreCaptures line names matches vs

with_first_parsed :
    (v : Bytes) (l : Line) (vs : List Bytes)
    → with_first v l ≡ line_parsed vs
    → (ws : List Bytes) × (l ≡ line_parsed ws) × (vs ≡ v ∷ ws)
with_first_parsed v (line_parsed ws) vs h = (ws, refl, ground (arith, h))
with_first_parsed v line_skipped vs h = cc
with_first_parsed v line_failed vs h = cc

abbrev IsUnparsed : Line → Type 0
IsUnparsed (line_parsed vs) = ⊥
IsUnparsed line_skipped = Unit
IsUnparsed line_failed = Unit

not_parsed : (l : Line) (vs : List Bytes) → IsUnparsed l → l ≢ line_parsed vs
not_parsed (line_parsed ws) vs u e = u
not_parsed line_skipped vs u e = cc
not_parsed line_failed vs u e = cc

captures-AreCaptures :
    (malloc_ok : ℕ → Bool) (line : Bytes) (names : List Bytes) (matches : List Match)
    (vs : List Bytes)
    → captures malloc_ok line names matches ≡ line_parsed vs
    → AreCaptures line names matches vs
unfolding captures
captures-AreCaptures malloc_ok line [] matches [] h = tt
captures-AreCaptures malloc_ok line [] matches (v ∷ vs) h = cc
captures-AreCaptures malloc_ok line (n ∷ names) [] vs h = cc
captures-AreCaptures malloc_ok line (n ∷ names) (none ∷ matches) vs h = cc
captures-AreCaptures malloc_ok line (n ∷ names) (some (start, end) ∷ matches) vs h =
    let whole = captures malloc_ok line (n ∷ names) (some (start, end) ∷ matches) in
    let rest = captures malloc_ok line names matches in
    let v = take (end - start) (drop start line) in
    elim (Bool-cases (ltb end start)) [
      | inl bad ↦
          let e : whole ≡ line_skipped = rw bad refl in
          absurd (not_parsed line_skipped vs tt (sym e ∙ h))
      | inr fine ↦ elim (Bool-cases (malloc_ok (end - start + 1))) [
        | inr denied ↦
            let e : whole ≡ line_failed = rw (fine, denied) refl in
            absurd (not_parsed line_failed vs tt (sym e ∙ h))
        | inl granted ↦
            let e : whole ≡ with_first v rest = rw (fine, granted) refl in
            let (ws, r, q) = with_first_parsed v rest vs (sym e ∙ h) in
            subst (AreCaptures line (n ∷ names) (some (start, end) ∷ matches)) (sym q)
              ((ground (arith, fine), refl), captures-AreCaptures malloc_ok line names matches ws r)
      ]
    ]

-- If `log_regex_parse_line` returns 0 the expression matched, and there is one value for each name:
-- the text between the offsets of the group of that number.
pub log_regex_parse_line-AreCaptures :
    (calloc_ok malloc_ok : ℕ → Bool) (regexec : Bytes → ℕ → Option (List Match)) (line : Bytes)
    (names vs : List Bytes)
    → log_regex_parse_line calloc_ok malloc_ok regexec line names ≡ line_parsed vs
    → (matches : List Match) × (regexec line (length names + 1) ≡ some matches)
      × AreCaptures line names (drop 1 matches) vs
unfolding log_regex_parse_line
log_regex_parse_line-AreCaptures calloc_ok malloc_ok regexec line names vs h =
    elim (Bool-cases (calloc_ok (length names + 1))) [
      | inr denied ↦
          let e : log_regex_parse_line calloc_ok malloc_ok regexec line names ≡ line_failed =
            rw denied refl in
          absurd (not_parsed line_failed vs tt (sym e ∙ h))
      | inl granted ↦
          let e : log_regex_parse_line calloc_ok malloc_ok regexec line names
              ≡ on_match malloc_ok line names (regexec line (length names + 1)) =
            rw granted refl in
          matched (regexec line (length names + 1)) (sym e ∙ h)
    ]
  where
    matched :
        (o : Option (List Match))
        → on_match malloc_ok line names o ≡ line_parsed vs
        → (matches : List Match) × (o ≡ some matches) × AreCaptures line names (drop 1 matches) vs
    matched none e = absurd (not_parsed line_skipped vs tt e)
    matched (some matches) e =
        (matches, refl, captures-AreCaptures malloc_ok line names (drop 1 matches) vs e)
