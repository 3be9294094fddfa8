-- ===== src/ClipStore/Index/Insert.antt =====
-- Storing a row in the bucket that `find_slot` gives (db_query.c): what is in the table afterwards.
use stream_data_pipline.Prelude.{
  ℕ, zero, suc, ◌^◌, ◌<◌, ◌≡◌, ◌≢◌, refl, ap, true, false, Option, none, some, [], ◌∷◌, arith, inl,
  inr, Bool-cases, if◌then◌else◌, length, set,
}
use stream_data_pipline.Prelude.Bytes.{Bytes, str_eq}
use stream_data_pipline.ClipStore.Row.{Row}
use stream_data_pipline.ClipStore.Index.{RowIndex, slot_at}
use stream_data_pipline.ClipStore.Index.Probe.{Slots, home, Reaches}

-- The number of `used` flags that are set.
abbrev pub used : Slots → ℕ
used [] = 0
used (none ∷ s) = used s
used (some r ∷ s) = suc (used s)

-- The row of a key, by looking through all buckets.
unfoldable pub view : Slots → Bytes → Option Row
view [] key = none
view (none ∷ s) key = view s key
view (some r ∷ s) key = if str_eq r.key key then some r else view s key

-- Every row can be reached from its home bucket, and the count is right.
pub record IsPlaced (t : RowIndex) : Type 0 where
  pub exponent : ℕ
  pub power : t.cap ≡ 2 ^ exponent
  pub sized : length t.slots ≡ t.cap
  pub counted : used t.slots ≡ t.len
  pub placed :
      (i : ℕ) (r : Row)
      → slot_at t.slots i ≡ some r
      → Reaches t.slots t.cap r.key (home r.key t.cap) i

-- Buckets, by position.

pub slot_at-set_self :
    (s : Slots) (i : ℕ) (o : Option Row) → i < length s → slot_at (set s i o) i ≡ o
slot_at-set_self [] i o h = absurd (omega arith)
slot_at-set_self (x ∷ s) zero o h = refl
slot_at-set_self (x ∷ s) (suc i) o h = slot_at-set_self s i o (omega arith)

pub slot_at-set_ne :
    (s : Slots) (i j : ℕ) (o : Option Row) → i ≢ j → slot_at (set s i o) j ≡ slot_at s j
slot_at-set_ne [] i j o h = refl
slot_at-set_ne (x ∷ s) zero zero o h = absurd (h refl)
slot_at-set_ne (x ∷ s) zero (suc j) o h = refl
slot_at-set_ne (x ∷ s) (suc i) zero o h = refl
slot_at-set_ne (x ∷ s) (suc i) (suc j) o h = slot_at-set_ne s i j o (omega arith)

pub slot_at_inside : (s : Slots) (i : ℕ) (r : Row) → slot_at s i ≡ some r → i < length s
slot_at_inside [] i r h = cc
slot_at_inside (x ∷ s) zero r h = omega arith
slot_at_inside (x ∷ s) (suc i) r h = omega (arith, slot_at_inside s i r h)

pub used-set_free :
    (s : Slots) (i : ℕ) (r : Row)
    → i < length s
    → slot_at s i ≡ none
    → used (set s i (some r)) ≡ suc (used s)
used-set_free [] i r h e = absurd (omega arith)
used-set_free (none ∷ s) zero r h e = refl
used-set_free (some x ∷ s) zero r h e = cc
used-set_free (none ∷ s) (suc i) r h e = used-set_free s i r (omega arith) e
used-set_free (some x ∷ s) (suc i) r h e = ap suc (used-set_free s i r (omega arith) e)

pub used-set_taken :
    (s : Slots) (i : ℕ) (r x : Row) → slot_at s i ≡ some x → used (set s i (some r)) ≡ used s
used-set_taken [] i r x e = cc
used-set_taken (none ∷ s) zero r x e = cc
used-set_taken (some y ∷ s) zero r x e = refl
used-set_taken (none ∷ s) (suc i) r x e = used-set_taken s i r x e
used-set_taken (some y ∷ s) (suc i) r x e = ap suc (used-set_taken s i r x e)

-- A table that is not full has a free bucket.
pub free_slot : (s : Slots) → used s < length s → (i : ℕ) × (i < length s) × (slot_at s i ≡ none)
free_slot [] h = absurd (omega arith)
free_slot (none ∷ s) h = (0, omega arith, refl)
free_slot (some r ∷ s) h = let (i, l, e) = free_slot s (omega arith) in (suc i, omega arith, e)

-- The view, by position.

pub view-some :
    (s : Slots) (key : Bytes) (r : Row)
    → view s key ≡ some r
    → (i : ℕ) × (slot_at s i ≡ some r) × (str_eq r.key key ≡ true)
unfolding view
view-some [] key r h = cc
view-some (none ∷ s) key r h = let (i, e, k) = view-some s key r h in (suc i, e, k)
view-some (some x ∷ s) key r h = elim (Bool-cases (str_eq x.key key)) [
  | inl same ↦ (0, ground arith, ground arith)
  | inr other ↦ let (i, e, k) = view-some s key r (ground arith) in (suc i, e, k)
]

pub view-set_other :
    (s : Slots) (i : ℕ) (row : Row) (key : Bytes)
    → str_eq row.key key ≡ false
    → ((r : Row) → slot_at s i ≡ some r → str_eq r.key key ≡ false)
    → view (set s i (some row)) key ≡ view s key
unfolding view
view-set_other [] i row key h free = refl
view-set_other (none ∷ s) zero row key h free = rw h
view-set_other (some x ∷ s) zero row key h free = rw (h, free x refl)
view-set_other (none ∷ s) (suc i) row key h free = view-set_other s i row key h free
view-set_other (some x ∷ s) (suc i) row key h free = rw (view-set_other s i row key h free)

pub view-set_same :
    (s : Slots) (i : ℕ) (row : Row) (key : Bytes)
    → i < length s
    → str_eq row.key key ≡ true
    → ((j : ℕ) (r : Row) → j ≢ i → slot_at s j ≡ some r → str_eq r.key key ≡ false)
    → view (set s i (some row)) key ≡ some row
unfolding view
view-set_same [] i row key l h only = absurd (omega arith)
view-set_same (x ∷ s) zero row key l h only = rw h
view-set_same (none ∷ s) (suc i) row key l h only =
    view-set_same s i row key (omega arith) h (λ j r ne e. only (suc j) r (omega arith) e)
view-set_same (some x ∷ s) (suc i) row key l h only =
    rw (only 0 x (omega arith) refl)
      (view-set_same s i row key (omega arith) h (λ j r ne e. only (suc j) r (omega arith) e))

pub view-none :
    (s : Slots) (key : Bytes) (i : ℕ) (r : Row)
    → view s key ≡ none
    → slot_at s i ≡ some r
    → str_eq r.key key ≡ false
unfolding view
view-none [] key i r h e = cc
view-none (none ∷ s) key zero r h e = cc
view-none (none ∷ s) key (suc i) r h e = view-none s key i r h e
view-none (some x ∷ s) key zero r h e = ground arith
view-none (some x ∷ s) key (suc i) r h e = view-none s key i r (ground arith) e
