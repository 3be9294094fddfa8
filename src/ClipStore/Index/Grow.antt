-- ===== src/ClipStore/Index/Grow.antt =====
-- `row_index_grow` of db_query.c: the load stays below three quarters, and no row is lost.
use mathlib.Core.Path.{subst}
use native.Mathlib.Nat.{pow-suc}
use stream_data_pipline.Prelude.{
  ℕ, suc, ◌+◌, ◌*◌, ◌^◌, ◌≤◌, ◌<◌, ◌≡◌, refl, sym, ◌∙◌, ap, Bool, true, false, Option, none, some,
  [], arith, leb, leb→le, ◌==◌, inl, inr, Bool-cases, if◌then◌else◌, ◌⊎◌,
}
use stream_data_pipline.Prelude.Bytes.{Bytes}
use stream_data_pipline.ClipStore.Row.{Row}
use stream_data_pipline.ClipStore.Index.{
  RowIndex, Memory, size_max, zero_index, rehash, fresh_index, next_capacity, grow_to, grow,
  initial_buckets,
}
use stream_data_pipline.ClipStore.Index.Insert.{used, view}
use stream_data_pipline.ClipStore.Index.Rehash.{
  IsTable, Moves, rehash-Moves, fresh-IsPlaced, view-replicate, slots-Distinct, or_else, Distinct,
}

next_capacity_keep :
    (fuel n c : ℕ) → c * 3 < 2 ^ 64 → n * 4 < c * 3 → next_capacity (suc fuel) n c ≡ some c
unfolding next_capacity
next_capacity_keep fuel n c small room = ground arith

next_capacity_double :
    (fuel n c : ℕ)
    → c * 6 < 2 ^ 64
    → c * 3 ≤ n * 4
    → n * 4 < c * 6
    → next_capacity (suc (suc fuel)) n c ≡ some (c * 2)
unfolding next_capacity
next_capacity_double fuel n c small full room = ground arith

-- What `row_index_grow` leaves, with `n` the number of rows it is asked for.
pub record Grows (t : RowIndex) (n : ℕ) (result : Option (Bool × RowIndex)) : Type 0 where
  pub ok : Bool
  pub after : RowIndex
  pub returns : result ≡ some (ok, after)
  pub refused : ok ≡ false → after ≡ t
  pub table : ok ≡ true → IsTable after
  pub room : ok ≡ true → n * 4 < after.cap * 3
  pub same_len : after.len ≡ t.len
  pub same : (key : Bytes) → view after.slots key ≡ view t.slots key

module _ (m : Memory) (t : RowIndex) (n : ℕ) where
  kept : IsTable t → n * 4 < t.cap * 3 → grow m t n ≡ some (true, t) → Grows t n (grow m t n)
  kept it room e = record {
    ok = true;
    after = t;
    returns = e;
    refused = λ x. cc;
    table = λ x. it;
    room = λ x. room;
    same_len = refl;
    same = λ key. refl;
  }

  denied : grow m t n ≡ some (false, t) → Grows t n (grow m t n)
  denied e = record {
    ok = false;
    after = t;
    returns = e;
    refused = λ x. refl;
    table = λ x. cc;
    room = λ x. cc;
    same_len = refl;
    same = λ key. refl;
  }

  moved :
      (c : ℕ) (r : Moves (fresh_index c) t.slots (rehash (fresh_index c) t.slots))
      → used t.slots ≡ t.len
      → grow m t n ≡ some (true, r.after)
      → initial_buckets ≤ c
      → t.len * 4 < c * 3
      → n * 4 < c * 3
      → c * 32 ≤ size_max
      → Grows t n (grow m t n)
  moved c r counted e large load room small = record {
    ok = true;
    after = r.after;
    returns = e;
    refused = λ x. cc;
    table = λ x. record {
      places = r.places;
      large = omega (arith, r.same_cap);
      load = omega (arith, r.same_cap, r.count);
      small = omega (arith, r.same_cap);
    };
    room = λ x. omega (arith, r.same_cap);
    same_len = omega (arith, r.count);
    same = λ key. r.views key ∙ plain key;
  }
    where
      plain :
          (key : Bytes)
          → or_else (view t.slots key) (view (fresh_index c).slots key) ≡ view t.slots key
      plain key = go (view t.slots key) (view (fresh_index c).slots key) (view-replicate c key)
        where
          go : (a b : Option Row) → b ≡ none → or_else a b ≡ a
          go none b e' = e'
          go (some r') b e' = refl

  -- The capacity from which `row_index_grow` starts.
  abbrev start_cap : ℕ
  start_cap = if t.cap == 0 then initial_buckets else t.cap

  grow_to_eq : (c : ℕ) → next_capacity 64 n start_cap ≡ some c → grow m t n ≡ grow_to m t c
  unfolding grow
  grow_to_eq c e = rw (e, grow)

  grow_same : (c : ℕ) → c ≡ t.cap → grow_to m t c ≡ some (true, t)
  unfolding grow_to
  grow_same c e = ground arith

  grow_denied : (c : ℕ) → t.cap < c → m.calloc_ok c ≡ false → grow_to m t c ≡ some (false, t)
  unfolding grow_to
  grow_denied c l e = ground arith

  grow_moved :
      (c : ℕ) (g : RowIndex)
      → t.cap < c
      → m.calloc_ok c ≡ true
      → rehash (fresh_index c) t.slots ≡ some g
      → grow_to m t c ≡ some (true, g)
  unfolding grow_to
  grow_moved c g l e h = ground arith

  -- To a capacity that was not there before.
  larger :
      (c k : ℕ)
      → next_capacity 64 n start_cap ≡ some c
      → c ≡ 2 ^ k
      → t.cap < c
      → initial_buckets ≤ c
      → n * 4 < c * 3
      → n ≡ t.len + 1
      → used t.slots ≡ t.len
      → Distinct t.slots
      → Grows t n (grow m t n)
  larger c k next power more large room e counted d = elim (Bool-cases (m.calloc_ok c)) [
    | inr refused ↦ denied (grow_to_eq c next ∙ grow_denied c more refused)
    | inl granted ↦
        let r =
          rehash-Moves t.slots (fresh_index c) (fresh-IsPlaced k c power) (omega arith) d
            (λ i r x. view-replicate c r.key) in
        moved c r counted (grow_to_eq c next ∙ grow_moved c r.after more granted r.returns) large
          (omega arith) room (m.calloc_bound c granted)
  ]

  grow_table : IsTable t → n ≡ t.len + 1 → Grows t n (grow m t n)
  grow_table it e = elim (Bool-cases (leb (t.cap * 3) (n * 4))) [
    | inr roomy ↦
        let room : n * 4 < t.cap * 3 = ground arith in
        kept it room (
          grow_to_eq t.cap (
            ap (λ (c : ℕ). next_capacity 64 n c) (start_of_table it)
            ∙ next_capacity_keep 63 n t.cap (omega arith) room)
          ∙ grow_same t.cap refl)
    | inl full ↦
        let p = it.places in
        let over : t.cap * 3 ≤ n * 4 = leb→le (t.cap * 3) (n * 4) full in
        larger (t.cap * 2) (suc p.exponent)
          (ap (λ (c : ℕ). next_capacity 64 n c) (start_of_table it)
            ∙ next_capacity_double 62 n t.cap (omega arith) over (omega arith))
          (omega (arith, pow-suc 2 p.exponent)) (omega arith) (omega arith) (omega arith) e
          p.counted (slots-Distinct t p (omega arith))
  ]
    where
      start_of_table : IsTable t → start_cap ≡ t.cap
      start_of_table it' = ground arith

  grow_zero : t ≡ zero_index → n ≡ t.len + 1 → Grows t n (grow m t n)
  grow_zero z e =
      let cap : t.cap ≡ 0 = ap (λ (x : RowIndex). x.cap) z in
      let len : t.len ≡ 0 = ap (λ (x : RowIndex). x.len) z in
      let slots : t.slots ≡ [] = ap (λ (x : RowIndex). x.slots) z in
      larger initial_buckets 6
        (ap (λ (c : ℕ). next_capacity 64 n c) (start_of_zero cap)
          ∙ next_capacity_keep 63 n initial_buckets (omega arith) (omega arith))
        refl (omega arith) (omega arith) (omega arith) e (ap used slots ∙ sym len)
        (subst Distinct (sym slots) tt)
    where
      start_of_zero : t.cap ≡ 0 → start_cap ≡ initial_buckets
      start_of_zero h = ground arith

-- The index as it starts, or a table in use.
abbrev pub IsIndex : RowIndex → Type 0
IsIndex t = (t ≡ zero_index) ⊎ IsTable t

-- Making room for one more row: the load stays below three quarters and every key keeps its row, or
-- memory runs out and the index is as it was.
pub grow-Grows :
    (m : Memory) (t : RowIndex) → IsIndex t → Grows t (t.len + 1) (grow m t (t.len + 1))
grow-Grows m t (inl z) = grow_zero m t (t.len + 1) z refl
grow-Grows m t (inr it) = grow_table m t (t.len + 1) it refl
