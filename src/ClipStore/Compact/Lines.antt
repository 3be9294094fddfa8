-- ===== src/ClipStore/Compact/Lines.antt =====
-- Files that consist of whole lines, as `getline` reads them and `append_db_row` extends them.
use stream_data_pipline.Prelude.{
  ◌≡◌, refl, sym, ap, ◌∙◌, false, List, [], ◌∷◌, ◌++◌, arith, append_assoc,
}
use stream_data_pipline.Prelude.Bytes.{Bytes, contains, contains-append}
use stream_data_pipline.ClipStore.Format.{newline}
use stream_data_pipline.ClipStore.Load.{lines_of, chop}

-- The text of whole lines.
abbrev pub unlines : List Bytes → Bytes
unlines [] = []
unlines (l ∷ ls) = l ++ newline ∷ unlines ls

-- No byte at which a line is cut.
abbrev pub IsClean : Bytes → Type 0
IsClean s = (contains 0 s ≡ false) × (contains 13 s ≡ false) × (contains newline s ≡ false)

abbrev pub AreClean : List Bytes → Type 0
AreClean [] = Unit
AreClean (l ∷ ls) = IsClean l × AreClean ls

lines_of_line :
    (l rest : Bytes)
    → contains newline l ≡ false
    → lines_of (l ++ newline ∷ rest) ≡ l ∷ lines_of rest
unfolding lines_of contains
lines_of_line [] rest h = refl
lines_of_line (c ∷ l) rest h = ground (arith, lines_of_line l rest)

pub lines_of-unlines : (ls : List Bytes) → AreClean ls → lines_of (unlines ls) ≡ ls
unfolding lines_of
lines_of-unlines [] h = refl
lines_of-unlines (l ∷ ls) h =
    lines_of_line l (unlines ls) h.0.2 ∙ ap (λ (t : List Bytes). l ∷ t) (lines_of-unlines ls h.1)

pub unlines-append : (ls ms : List Bytes) → unlines (ls ++ ms) ≡ unlines ls ++ unlines ms
unlines-append [] ms = refl
unlines-append (l ∷ ls) ms =
    ap (λ (t : Bytes). l ++ newline ∷ t) (unlines-append ls ms)
    ∙ sym (append_assoc l (newline ∷ unlines ls) (unlines ms))

pub chop_clean : (s : Bytes) → IsClean s → chop s ≡ s
unfolding chop contains
chop_clean [] h = refl
chop_clean (c ∷ s) h = ground (arith, h.0, h.1, h.2, chop_clean s)

pub append-IsClean : (a b : Bytes) → IsClean a → IsClean b → IsClean (a ++ b)
append-IsClean a b h k = (
  contains-append 0 a b ∙ rw (h.0, k.0) refl,
  contains-append 13 a b ∙ rw (h.1, k.1) refl,
  contains-append newline a b ∙ rw (h.2, k.2) refl,
)
