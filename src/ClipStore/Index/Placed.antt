-- ===== src/ClipStore/Index/Placed.antt =====
-- The placement invariant of the hash index of db_query.c: a search finds a row exactly if the key
-- is in the table, and storing a row where the search ends keeps the invariant.
use native.Mathlib.Decide.{ℕ_discrete}
use native.Mathlib.Nat.{mod-lt}
use mathlib.Core.Path.{subst}
use stream_data_pipline.Prelude.{
  ℕ, ◌+◌, ◌%◌, ◌<◌, ◌≡◌, ◌≢◌, sym, ◌∙◌, ap, true, false, none, some, arith, ltb, ltb→lt, inl, inr,
  Option-cases, Bool-cases, if◌then◌else◌, length, set, length-set,
}
use stream_data_pipline.Prelude.Bytes.{Bytes, str_eq, str_eq_iff}
use stream_data_pipline.ClipStore.Row.{Row}
use stream_data_pipline.ClipStore.Index.{RowIndex, slot_at, find_slot, fill}
use stream_data_pipline.ClipStore.Index.Probe.{Slots, home, Other, Reaches, Finds, find_slot-Finds}
use stream_data_pipline.ClipStore.Index.Mask.{pow_pos}
use stream_data_pipline.ClipStore.Index.Insert.{
  view, IsPlaced, slot_at-set_self, slot_at-set_ne, slot_at_inside, used-set_free, used-set_taken,
  free_slot, view-some, view-none, view-set_other, view-set_same,
}

-- Every search in a placed table with a free bucket ends.
pub find-Finds :
    (t : RowIndex) (key : Bytes)
    → IsPlaced t
    → t.len < t.cap
    → Finds t.slots t.cap key (home key t.cap) (find_slot t key)
find-Finds t key p room =
    let (i, l, e) = free_slot t.slots (omega (arith, p.counted, p.sized)) in
    find_slot-Finds t p.exponent key i p.power (omega (arith, p.sized)) e

module _ (t : RowIndex) (key : Bytes) (p : IsPlaced t)
    (f : Finds t.slots t.cap key (home key t.cap) (find_slot t key)) where
  -- The bucket where the search ends holds no row of another key.
  ends_at :
      (r : Row) → slot_at t.slots f.slot ≡ some r → (f.found ≡ true) × (str_eq r.key key ≡ true)
  ends_at r e = elim (Bool-cases f.found) [
    | inl yes' ↦ (yes', ground (arith, f.hit yes'))
    | inr no' ↦ cc (f.miss no', e)
  ]

  -- A row of the key is where the search ends.
  pub found_at :
      (i : ℕ) (r : Row)
      → slot_at t.slots i ≡ some r
      → str_eq r.key key ≡ true
      → (f.found ≡ true) × (i ≡ f.slot)
  found_at i r e k =
      let same : r.key ≡ key = (str_eq_iff r.key key).0 k in
      by_steps (subst (λ x. Reaches t.slots t.cap x (home x t.cap) i) same (p.placed i r e))
    where
      by_steps : Reaches t.slots t.cap key (home key t.cap) i → (f.found ≡ true) × (i ≡ f.slot)
      by_steps ρ = elim (Bool-cases (ltb ρ.steps f.reaches.steps)) [
        | inl early ↦
            let (x, ex, ne) = f.reaches.passes ρ.steps (ltb→lt ρ.steps f.reaches.steps early) in
            cc (e, ap (λ (j : ℕ). slot_at t.slots j) ρ.lands, ex, ne, k)
        | inr late ↦ elim (Bool-cases (ltb f.reaches.steps ρ.steps)) [
          | inl before ↦
              let (x, ex, ne) = ρ.passes f.reaches.steps (ltb→lt f.reaches.steps ρ.steps before) in
              let (_, hit) = ends_at x (ap (λ (j : ℕ). slot_at t.slots j) f.reaches.lands ∙ ex) in
              cc (hit, ne)
          | inr equal ↦
              let steps : ρ.steps ≡ f.reaches.steps = ground arith in
              let here : i ≡ f.slot =
                ρ.lands
                ∙ ap (λ (n : ℕ). (home key t.cap + n) % t.cap) steps
                ∙ sym f.reaches.lands in
              ((ends_at r (ap (λ (j : ℕ). slot_at t.slots j) (sym here) ∙ e)).0, here)
        ]
      ]

  -- The search and the view agree.
  pub find-view : view t.slots key ≡ (if f.found then slot_at t.slots f.slot else none)
  find-view = elim (Option-cases (view t.slots key)) [
    | inl absent ↦ elim (Bool-cases f.found) [
      | inl yes' ↦ let (r, e, k) = f.hit yes' in cc (k, view-none t.slots key f.slot r absent e)
      | inr no' ↦ rw no' absent
    ]
    | inr (r, e) ↦
        let (i, at, k) = view-some t.slots key r e in
        let (yes', here) = found_at i r at k in rw (yes', ← here) (e ∙ sym at)
  ]

-- The table with `row` stored where the search for its key ended.
module _ (t : RowIndex) (row : Row) (p : IsPlaced t)
    (f : Finds t.slots t.cap row.key (home row.key t.cap) (find_slot t row.key)) where
  abbrev stored : Slots
  stored = set t.slots f.slot (some row)

  -- A bucket of another key stays one.
  Other-set :
      (key : Bytes) (x : ℕ)
      → (x ≡ f.slot → str_eq row.key key ≡ false)
      → Other key (slot_at t.slots x)
      → Other key (slot_at stored x)
  Other-set key x differs (r, e, ne) = elim (ℕ_discrete f.slot x) [
    | yes h ↦ (
      row,
      ap (λ (j : ℕ). slot_at stored j) (sym h)
          ∙ slot_at-set_self t.slots f.slot (some row)
              (slot_at_inside t.slots f.slot r (ap (λ (j : ℕ). slot_at t.slots j) h ∙ e)),
      differs (sym h),
    )
    | no h ↦ (r, slot_at-set_ne t.slots f.slot x (some row) h ∙ e, ne)
  ]

  -- A bucket that is passed on the way to a row of `key` still holds another key.
  Reaches-set :
      (key : Bytes) (i : ℕ)
      → Reaches t.slots t.cap key (home key t.cap) i
      → ((x : ℕ) (r : Row)
          → x ≡ f.slot
          → slot_at t.slots x ≡ some r
          → str_eq r.key key ≡ false
          → str_eq row.key key ≡ false)
      → Reaches stored t.cap key (home key t.cap) i
  Reaches-set key i ρ differs = record {
    steps = ρ.steps;
    lands = ρ.lands;
    passes = λ n l. passes ((home key t.cap + n) % t.cap) (ρ.passes n l);
  }
    where
      passes : (x : ℕ) → Other key (slot_at t.slots x) → Other key (slot_at stored x)
      passes x (r, e, ne) = Other-set key x (λ h. differs x r h e ne) (r, e, ne)

  -- On the way of another key, the bucket that is overwritten held a row of the same key.
  replaced :
      (key : Bytes) (x : ℕ) (r : Row)
      → x ≡ f.slot
      → slot_at t.slots x ≡ some r
      → str_eq r.key key ≡ false
      → str_eq row.key key ≡ false
  replaced key x r h e ne =
      let (_, hit) = ends_at t row.key p f r (ap (λ (j : ℕ). slot_at t.slots j) (sym h) ∙ e) in
      let same = (str_eq_iff r.key row.key).0 hit in subst (λ k. str_eq k key ≡ false) same ne

  pub slot-lt : f.slot < length t.slots
  slot-lt =
      rw (p.sized, f.reaches.lands)
        (mod-lt (home row.key t.cap + f.reaches.steps) (rw p.power (pow_pos p.exponent)))

  not_here :
      (x : ℕ) (r : Row)
      → x ≡ f.slot
      → slot_at t.slots x ≡ some r
      → str_eq r.key row.key ≡ false
      → str_eq row.key row.key ≡ false
  not_here x r h e ne =
      let (_, hit) = ends_at t row.key p f r (ap (λ (j : ℕ). slot_at t.slots j) (sym h) ∙ e) in
      cc (hit, ne)

  placed-set :
      (i : ℕ) (r : Row)
      → slot_at stored i ≡ some r
      → Reaches stored t.cap r.key (home r.key t.cap) i
  placed-set i r e = elim (ℕ_discrete f.slot i) [
    | yes h ↦
        let self = slot_at-set_self t.slots f.slot (some row) slot-lt in
        let same : row ≡ r = cc (self, ap (λ (j : ℕ). slot_at stored j) h, e) in
        subst (λ (x : Row). Reaches stored t.cap x.key (home x.key t.cap) i) same
          (subst (λ j. Reaches stored t.cap row.key (home row.key t.cap) j) h
            (Reaches-set row.key f.slot f.reaches (λ x r' h' e' ne. not_here x r' h' e' ne)))
    | no h ↦
        Reaches-set r.key i (p.placed i r (sym (slot_at-set_ne t.slots f.slot i (some row) h) ∙ e))
          (replaced r.key)
  ]

  elsewhere :
      (key : Bytes)
      → str_eq row.key key ≡ true
      → (j : ℕ) (r : Row) → j ≢ f.slot
      → slot_at t.slots j ≡ some r
      → str_eq r.key key ≡ false
  elsewhere key same j r ne e = elim (Bool-cases (str_eq r.key key)) [
    | inl k ↦
        let k' : str_eq r.key row.key ≡ true = rw ((str_eq_iff row.key key).0 same) k in
        absurd (ne (found_at t row.key p f j r e k').1)
    | inr k ↦ k
  ]

  held :
      (key : Bytes)
      → str_eq row.key key ≡ false
      → (r : Row) → slot_at t.slots f.slot ≡ some r
      → str_eq r.key key ≡ false
  held key other r e =
      let (_, hit) = ends_at t row.key p f r e in rw ((str_eq_iff r.key row.key).0 hit) other

  -- The view afterwards: the row under its key, and every other key as before.
  pub view-stored :
      (key : Bytes) → view stored key ≡ (if str_eq row.key key then some row else view t.slots key)
  view-stored key = elim (Bool-cases (str_eq row.key key)) [
    | inl same ↦ rw same (view-set_same t.slots f.slot row key slot-lt same (elsewhere key same))
    | inr other ↦ rw other (view-set_other t.slots f.slot row key other (λ r e. held key other r e))
  ]

  -- Storing keeps the invariant: with one row more in a free bucket, or in place of the old row.
  pub fill-IsPlaced : f.found ≡ false → IsPlaced (fill t f.slot row)
  fill-IsPlaced e = record {
    exponent = p.exponent;
    power = p.power;
    sized = length-set t.slots f.slot (some row) ∙ p.sized;
    counted = used-set_free t.slots f.slot row slot-lt (f.miss e) ∙ omega (arith, p.counted);
    placed = placed-set;
  }

  pub replace-IsPlaced : f.found ≡ true → IsPlaced (record t { slots = stored })
  replace-IsPlaced e =
      let (r, at, _) = f.hit e in
      record {
        exponent = p.exponent;
        power = p.power;
        sized = length-set t.slots f.slot (some row) ∙ p.sized;
        counted = used-set_taken t.slots f.slot row r at ∙ p.counted;
        placed = placed-set;
      }
