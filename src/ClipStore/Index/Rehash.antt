-- ===== src/ClipStore/Index/Rehash.antt =====
-- `row_index_grow` of db_query.c: moving the rows into a larger table keeps every row under its key.
use stream_data_pipline.Prelude.{
  ℕ, zero, suc, ◌+◌, ◌*◌, ◌^◌, ◌≤◌, ◌<◌, ◌≡◌, refl, sym, ◌∙◌, true, false, Option, none, some, [],
  ◌∷◌, arith, inl, inr, Option-cases, Bool-cases, replicate, length-replicate,
}
use stream_data_pipline.Prelude.Bytes.{Bytes, str_eq, str_eq_iff, str_eq_refl, str_eq_comm}
use stream_data_pipline.ClipStore.Row.{Row}
use stream_data_pipline.ClipStore.Index.{
  RowIndex, size_max, slot_at, find_slot, fill, rehash, fresh_index, initial_buckets,
}
use stream_data_pipline.ClipStore.Index.Probe.{Slots, Finds, home}
use stream_data_pipline.ClipStore.Index.Insert.{used, view, IsPlaced, view-some, view-none}
use stream_data_pipline.ClipStore.Index.Placed.{find-Finds, found_at, view-stored, fill-IsPlaced}

-- A table in use: placed, not too full, and as large as memory allows at most.
pub record IsTable (t : RowIndex) : Type 0 where
  pub places : IsPlaced t
  pub large : initial_buckets ≤ t.cap
  pub load : t.len * 4 < t.cap * 3
  pub small : t.cap * 32 ≤ size_max

-- The row found first, or else the other one.
abbrev pub or_else : Option Row → Option Row → Option Row
or_else none o = o
or_else (some r) o = some r

-- No key stands twice.
abbrev pub Distinct : Slots → Type 0
Distinct [] = Unit
Distinct (none ∷ s) = Distinct s
Distinct (some r ∷ s) = (view s r.key ≡ none) × Distinct s

Distinct-of_unique :
    (s : Slots)
    → ((i j : ℕ) (r x : Row)
        → slot_at s i ≡ some r
        → slot_at s j ≡ some x
        → str_eq x.key r.key ≡ true
        → i ≡ j)
    → Distinct s
Distinct-of_unique [] u = tt
Distinct-of_unique (none ∷ s) u =
    Distinct-of_unique s (λ i j r x a b e. omega (arith, u (suc i) (suc j) r x a b e))
Distinct-of_unique (some r ∷ s) u = (
  elim (Option-cases (view s r.key)) [
    | inl e ↦ e
    | inr (x, e) ↦
        let (i, at, k) = view-some s r.key x e in absurd (omega (arith, u 0 (suc i) r x refl at k))
  ],
  Distinct-of_unique s (λ i j r x a b e. omega (arith, u (suc i) (suc j) r x a b e)),
)

pub slots-Distinct : (t : RowIndex) → IsPlaced t → t.len < t.cap → Distinct t.slots
slots-Distinct t p room = Distinct-of_unique t.slots (λ i j r x a b e.
    let f = find-Finds t r.key p room in
    (found_at t r.key p f i r a (str_eq_refl r.key)).1 ∙ sym (found_at t r.key p f j x b e).1)

pub view-replicate : (n : ℕ) (key : Bytes) → view (replicate n none) key ≡ none
unfolding view
view-replicate zero key = refl
view-replicate (suc n) key = view-replicate n key

used-replicate : (n : ℕ) → used (replicate n none) ≡ 0
used-replicate zero = refl
used-replicate (suc n) = used-replicate n

slot_at-replicate : (n i : ℕ) → slot_at (replicate n none) i ≡ none
slot_at-replicate zero i = refl
slot_at-replicate (suc n) zero = refl
slot_at-replicate (suc n) (suc i) = slot_at-replicate n i

pub fresh-IsPlaced : (k cap : ℕ) → cap ≡ 2 ^ k → IsPlaced (fresh_index cap)
fresh-IsPlaced k cap e = record {
  exponent = k;
  power = e;
  sized = length-replicate cap none;
  counted = used-replicate cap;
  placed = λ i r h. cc (slot_at-replicate cap i, h);
}

-- What moving the rows `xs` into `g` gives.
pub record Moves (g : RowIndex) (xs : Slots) (result : Option RowIndex) : Type 0 where
  pub after : RowIndex
  pub returns : result ≡ some after
  pub places : IsPlaced after
  pub same_cap : after.cap ≡ g.cap
  pub count : after.len ≡ g.len + used xs
  pub views : (key : Bytes) → view after.slots key ≡ or_else (view xs key) (view g.slots key)

-- The keys of `xs` are new to `g`.
abbrev pub New : RowIndex → Slots → Type 0
New g xs = (i : ℕ) (r : Row) → slot_at xs i ≡ some r → view g.slots r.key ≡ none

not_found :
    (g : RowIndex) (row : Row) (p : IsPlaced g)
    (f : Finds g.slots g.cap row.key (home row.key g.cap) (find_slot g row.key))
    → view g.slots row.key ≡ none
    → f.found ≡ false
not_found g row p f e = elim (Bool-cases f.found) [
  | inl hit ↦ let (r, at, k) = f.hit hit in cc (k, view-none g.slots row.key f.slot r e at)
  | inr miss ↦ miss
]

module _ (g : RowIndex) (row : Row) (xs : Slots) (p : IsPlaced g)
    (f : Finds g.slots g.cap row.key (home row.key g.cap) (find_slot g row.key))
    (d : view xs row.key ≡ none) where
  after-New : New g (some row ∷ xs) → New (fill g f.slot row) xs
  after-New new i r e =
      let other : str_eq row.key r.key ≡ false =
        str_eq_comm row.key r.key ∙ view-none xs row.key i r d e in
      view-stored g row p f r.key ∙ rw other (new (suc i) r e)

  views_after :
      (key : Bytes)
      → or_else (view xs key) (view (fill g f.slot row).slots key)
        ≡ or_else (view (some row ∷ xs) key) (view g.slots key)
  unfolding view
  views_after key = elim (Bool-cases (str_eq row.key key)) [
    | inl same ↦
        let none_left : view xs key ≡ none = rw ((str_eq_iff row.key key).0 same) at d in
        rw (view-stored g row p f key, same, none_left)
    | inr other ↦ rw (view-stored g row p f key, other)
  ]

pub rehash-Moves :
    (xs : Slots) (g : RowIndex)
    → IsPlaced g
    → g.len + used xs < g.cap
    → Distinct xs
    → New g xs
    → Moves g xs (rehash g xs)
unfolding rehash view
rehash-Moves [] g p room d new = record {
  after = g;
  returns = refl;
  places = p;
  same_cap = refl;
  count = omega arith;
  views = λ key. refl;
}
rehash-Moves (none ∷ xs) g p room d new =
    let r = rehash-Moves xs g p room d (λ i x e. new (suc i) x e) in
    record {
      after = r.after;
      returns = r.returns;
      places = r.places;
      same_cap = r.same_cap;
      count = r.count;
      views = r.views;
    }
rehash-Moves (some row ∷ xs) g p room d new =
    let f = find-Finds g row.key p (omega arith) in
    let absent : f.found ≡ false = not_found g row p f (new 0 row refl) in
    let g' = fill g f.slot row in
    let r =
      rehash-Moves xs g' (fill-IsPlaced g row p f absent) (omega arith) d.1
        (after-New g row xs p f d.0 new) in
    record {
      after = r.after;
      returns = rw (f.returns, rehash) r.returns;
      places = r.places;
      same_cap = r.same_cap;
      count = omega (arith, r.count);
      views = λ key. r.views key ∙ views_after g row xs p f d.0 key;
    }
