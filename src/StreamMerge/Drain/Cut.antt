-- ===== src/StreamMerge/Drain/Cut.antt =====
-- Texts as their complete lines and the unfinished line behind them: how `drain_meta` of
-- applets/stream_merge/stream_merge.c splits what it has read.
use stream_data_pipline.Prelude.{
  ℕ, suc, ◌+◌, ◌≤◌, ◌≡◌, refl, ap, ◌∙◌, false, none, some, List, [], ◌∷◌, ◌++◌, ◌==◌, if◌then◌else◌,
  arith, length, length-append, drop, Bool-cases, Option-cases, inl, inr,
}
use stream_data_pipline.Prelude.Bytes.{Bytes, split_at, split_at_sound, contains}

-- A byte in front of the first line.
abbrev pub in_front : ℕ → List Bytes × Bytes → List Bytes × Bytes
in_front x ([], rest) = ([], x ∷ rest)
in_front x (line ∷ lines, rest) = ((x ∷ line) ∷ lines, rest)

-- The complete lines, without their ends, and the rest.
unfoldable pub cut : Bytes → List Bytes × Bytes
cut [] = ([], [])
cut (x ∷ s) =
    let (lines, rest) = cut s in if x == 10 then ([] ∷ lines, rest) else in_front x (lines, rest)

-- More complete lines in front.
abbrev pub behind : List Bytes → List Bytes × Bytes → List Bytes × Bytes
behind ls (lines, rest) = (ls ++ lines, rest)

in_front-behind :
    (x : ℕ) (p : List Bytes × Bytes) (s : Bytes)
    → (x == 10) ≡ false
    → in_front x (behind p.0 (cut (p.1 ++ s)))
      ≡ behind (in_front x p).0 (cut ((in_front x p).1 ++ s))
unfolding cut
in_front-behind x ([], rest) s n = rw n refl
in_front-behind x (line ∷ lines, rest) s n = refl

-- Cutting does not depend on where a text was broken: the unfinished line of the first part is taken
-- up with the second one.
pub cut-append : (a s : Bytes) → cut (a ++ s) ≡ behind (cut a).0 (cut ((cut a).1 ++ s))
unfolding cut
cut-append [] s = refl
cut-append (x ∷ a) s = elim (Bool-cases (x == 10)) [
  | inl e ↦ rw (e, cut-append a s) refl
  | inr n ↦ rw (n, cut-append a s) (in_front-behind x (cut a) s n)
]

pub cut_unfinished : (s : Bytes) → contains 10 s ≡ false → cut s ≡ ([], s)
unfolding cut contains
cut_unfinished [] h = refl
cut_unfinished (x ∷ s) h =
    let n : (x == 10) ≡ false = ground arith in rw (n, cut_unfinished s (ground arith)) refl

pub cut_line :
    (a b : Bytes) → contains 10 a ≡ false → cut (a ++ 10 ∷ b) ≡ (a ∷ (cut b).0, (cut b).1)
unfolding cut contains
cut_line [] b h = refl
cut_line (x ∷ a) b h =
    let n : (x == 10) ≡ false = ground arith in rw (n, cut_line a b (ground arith)) refl

contains-split_at : (s : Bytes) → split_at 10 s ≡ none → contains 10 s ≡ false
unfolding split_at contains
contains-split_at [] h = refl
contains-split_at (x ∷ s) h = elim (Bool-cases (x == 10)) [
  | inl e ↦ ground arith
  | inr n ↦ elim (Option-cases (split_at 10 s)) [
    | inl q ↦ ground (arith, contains-split_at s q)
    | inr (w, q) ↦ ground arith
  ]
]

drop_line : (a b : Bytes) → drop (length a + 1) (a ++ 10 ∷ b) ≡ b
drop_line [] b = refl
drop_line (x ∷ a) b =
    ap (λ k. drop k (x ∷ (a ++ 10 ∷ b))) {x = length (x ∷ a) + 1} {y = suc (length a + 1)}
      (omega arith)
    ∙ drop_line a b

-- Without a line end the text is unfinished.
pub cut_unended : (s : Bytes) → split_at 10 s ≡ none → cut s ≡ ([], s)
cut_unended s h = cut_unfinished s (contains-split_at s h)

-- What `memchr` finds is the end of the first complete line.
pub cut_first :
    (s a b : Bytes)
    → split_at 10 s ≡ some (a, b)
    → (cut s ≡ (a ∷ (cut b).0, (cut b).1))
      × (drop (length a + 1) s ≡ b)
      × (length s ≡ length a + 1 + length b)
cut_first s a b h =
    let (e, n) = split_at_sound 10 s h in
    (
      ap cut e ∙ cut_line a b n,
      ap (drop (length a + 1)) e ∙ drop_line a b,
      omega (arith, ap (λ (t : Bytes). length t) e, length-append a (10 ∷ b)),
    )

length-in_front : (x : ℕ) (p : List Bytes × Bytes) → length (in_front x p).1 ≤ suc (length p.1)
length-in_front x ([], rest) = omega arith
length-in_front x (line ∷ lines, rest) = omega arith

-- The unfinished line is a part of the text.
pub length-cut : (s : Bytes) → length (cut s).1 ≤ length s
unfolding cut
length-cut [] = omega arith
length-cut (x ∷ s) = elim (Bool-cases (x == 10)) [
  | inl e ↦ rw e (omega (arith, length-cut s))
  | inr n ↦ rw n (omega (arith, length-cut s, length-in_front x (cut s)))
]
