-- ===== src/LogParse/Trim.antt =====
-- applets/log_parse/log_parse.c: `trim_line`.
use stream_data_pipline.Prelude.{
  ℕ, zero, suc, ◌-◌, ◌≤◌, ◌<◌, ◌≡◌, refl, sym, ap, ◌∙◌, true, false, Bool-cases, inl, inr,
  append_assoc, append-nil, take_all, length-take, [], ◌∷◌, ◌++◌, arith, if◌then◌else◌, length,
  take,
}
use mathlib.Core.Path.{subst}
use stream_data_pipline.Prelude.Bytes.{Bytes}
use stream_data_pipline.Prelude.Decimal.{is_space, skip_spaces}
use stream_data_pipline.Watch.{byte_at}

-- The loop from the end: `len` bytes of the line are left.
unfoldable pub cut_spaces : ℕ → Bytes → Bytes
cut_spaces zero start = []
cut_spaces (suc len) start =
    let rest = cut_spaces len start in
    if is_space (byte_at start len) then rest else take (suc len) start

-- `trim_line` on a C string
unfoldable pub trim_line : Bytes → Bytes
unfolding skip_spaces cut_spaces
trim_line line = let start = skip_spaces line in cut_spaces (length start) start

-- Nothing but white space.
abbrev pub AreSpaces : Bytes → Type 0
AreSpaces [] = Unit
AreSpaces (c ∷ s) = (is_space c ≡ true) × AreSpaces s

skip_spaces-drops :
    (line : Bytes)
    → (before : Bytes) × (line ≡ before ++ skip_spaces line)
      × AreSpaces before
      × (is_space (byte_at (skip_spaces line) 0) ≡ false)
unfolding skip_spaces
skip_spaces-drops [] = ([], refl, tt, refl)
skip_spaces-drops (c ∷ s) = elim (Bool-cases (is_space c)) [
  | inl e ↦
      let (before, joined, spaces, first) = skip_spaces-drops s in
      rw e (c ∷ before, ap (λ l. c ∷ l) joined, (e, spaces), first)
  | inr e ↦ rw e ([], refl, tt, e)
]

take-suc-byte : (n : ℕ) (s : Bytes) → n < length s → take (suc n) s ≡ take n s ++ byte_at s n ∷ []
take-suc-byte n [] h = absurd (omega arith)
take-suc-byte zero (c ∷ s) h = refl
take-suc-byte (suc n) (c ∷ s) h = ap (λ l. c ∷ l) (take-suc-byte n s (omega arith))

byte_at-take : (n i : ℕ) (s : Bytes) → i < n → byte_at (take n s) i ≡ byte_at s i
byte_at-take zero i s h = absurd (omega arith)
byte_at-take (suc n) i [] h = refl
byte_at-take (suc n) zero (c ∷ s) h = refl
byte_at-take (suc n) (suc i) (c ∷ s) h = byte_at-take n i s (omega arith)

append-AreSpaces : (a : Bytes) (c : ℕ) → AreSpaces a → is_space c ≡ true → AreSpaces (a ++ c ∷ [])
append-AreSpaces [] c h e = (e, tt)
append-AreSpaces (x ∷ a) c h e = (h.0, append-AreSpaces a c h.1 e)

-- What is cut off behind, and that nothing is left at the end to be cut off.
cut_spaces-drops :
    (n : ℕ) (s : Bytes)
    → n ≤ length s
    → (kept : ℕ) × (after : Bytes) × (kept ≤ n)
      × (cut_spaces n s ≡ take kept s)
      × (take n s ≡ take kept s ++ after)
      × AreSpaces after
      × (is_space (byte_at (take kept s) (kept - 1)) ≡ false)
unfolding cut_spaces
cut_spaces-drops zero s h = (0, [], omega arith, refl, refl, tt, refl)
cut_spaces-drops (suc n) s h = elim (Bool-cases (is_space (byte_at s n))) [
  | inl e ↦
      let (kept, after, below, cut, joined, spaces, last) = cut_spaces-drops n s (omega arith) in
      rw e (
        kept,
        after ++ byte_at s n ∷ [],
        omega arith,
        cut,
        take-suc-byte n s (omega arith)
            ∙ ap (λ l. l ++ byte_at s n ∷ []) joined
            ∙ append_assoc (take kept s) after (byte_at s n ∷ []),
        append-AreSpaces after (byte_at s n) spaces e,
        last,
      )
  | inr e ↦ rw e (
    suc n,
    [],
    omega arith,
    refl,
    sym (append-nil (take (suc n) s)),
    tt,
    ap (λ k. is_space (byte_at (take (suc n) s) k)) {x = suc n - 1} {y = n} (omega arith)
        ∙ ap is_space (byte_at-take (suc n) n s (omega arith))
        ∙ e,
  )
]

-- A text that begins and ends with no white space.
abbrev pub IsTrimmed : Bytes → Type 0
IsTrimmed s = (is_space (byte_at s 0) ≡ false) × (is_space (byte_at s (length s - 1)) ≡ false)

first_kept :
    (kept : ℕ) (s : Bytes)
    → is_space (byte_at s 0) ≡ false
    → is_space (byte_at (take kept s) 0) ≡ false
first_kept zero s h = refl
first_kept (suc kept) s h = ap is_space (byte_at-take (suc kept) 0 s (omega arith)) ∙ h

-- `trim_line` takes white space away in front and behind, and leaves none there.
pub trim_line-IsTrimmed :
    (line : Bytes)
    → (before : Bytes) × (after : Bytes) × (line ≡ before ++ (trim_line line ++ after))
      × AreSpaces before
      × AreSpaces after
      × IsTrimmed (trim_line line)
unfolding trim_line
trim_line-IsTrimmed line =
    let start = skip_spaces line in
    let (before, front, spaces, first) = skip_spaces-drops line in
    let (kept, after, below, cut, joined, behind, last) =
      cut_spaces-drops (length start) start (omega arith) in
    (
      before,
      after,
      front
          ∙ ap (λ l. before ++ l)
              (sym (take_all (length start) start (omega arith))
                ∙ joined
                ∙ ap (λ l. l ++ after) (sym cut)),
      spaces,
      behind,
      subst IsTrimmed (sym cut) (
        first_kept kept start first,
        ap (λ n. is_space (byte_at (take kept start) (n - 1))) {x = length (take kept start)}
              {y = kept} (omega (arith, length-take kept start))
            ∙ last,
      ),
    )
