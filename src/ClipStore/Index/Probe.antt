-- ===== src/ClipStore/Index/Probe.antt =====
-- `find_slot` of db_query.c: the probe ends at the bucket of the key, or at the first free one.
use Prim.Native.Nat.{bit_and}
use native.Mathlib.Nat.{mod-lt, mod-add-mod, mod-eq_of_lt, add-mod_right}
use stream_data_pipline.Prelude.{
  ℕ, zero, suc, ◌+◌, ◌-◌, ◌%◌, ◌^◌, ◌<◌, ◌≡◌, sym, ◌∙◌, ap, Bool, true, false, Option, none, some,
  List, arith, leb, inl, inr, Option-cases, Bool-cases,
}
use stream_data_pipline.Prelude.Bytes.{Bytes, str_eq}
use stream_data_pipline.ClipStore.Row.{Row}
use stream_data_pipline.ClipStore.Index.{RowIndex, hash_key, slot_at, probe, find_slot}
use stream_data_pipline.ClipStore.Index.Mask.{bit_and-mask, pow_pos}

abbrev pub Slots : Type 0
Slots = List (Option Row)

-- The bucket where the search for a key begins.
abbrev pub home : Bytes → ℕ → ℕ
home key cap = hash_key key % cap

-- A bucket that is taken by a row of another key.
abbrev pub Other : Bytes → Option Row → Type 0
Other key o = (r : Row) × (o ≡ some r) × (str_eq r.key key ≡ false)

-- From bucket `start` on, every bucket before `slot` is taken by a row of another key.
pub record Reaches (slots : Slots) (cap : ℕ) (key : Bytes) (start slot : ℕ) : Type 0 where
  pub steps : ℕ
  pub lands : slot ≡ (start + steps) % cap
  pub passes : (n : ℕ) → n < steps → Other key (slot_at slots ((start + n) % cap))

-- The search stops behind buckets of other keys: at a row of the key, or at a free bucket.
pub record Finds (slots : Slots) (cap : ℕ) (key : Bytes) (start : ℕ) (result : Option (Bool × ℕ))
    : Type 0 where
  pub found : Bool
  pub slot : ℕ
  pub returns : result ≡ some (found, slot)
  pub reaches : Reaches slots cap key start slot
  pub hit : found ≡ true → (r : Row) × (slot_at slots slot ≡ some r) × (str_eq r.key key ≡ true)
  pub miss : found ≡ false → slot_at slots slot ≡ none

module _ (slots : Slots) (cap : ℕ) (key : Bytes) where
  stops :
      (start : ℕ) (result : Option (Bool × ℕ)) (found : Bool)
      → start < cap
      → result ≡ some (found, start)
      → (found ≡ true → (r : Row) × (slot_at slots start ≡ some r) × (str_eq r.key key ≡ true))
      → (found ≡ false → slot_at slots start ≡ none)
      → Finds slots cap key start result
  stops start result found h e hit miss = record {
    found = found;
    slot = start;
    returns = e;
    reaches = record {
      steps = 0;
      lands = sym (ap (λ (t : ℕ). t % cap) (omega arith) ∙ mod-eq_of_lt h);
      passes = λ n l. absurd (omega arith);
    };
    hit = hit;
    miss = miss;
  }

  shift : (start n : ℕ) → ((start + 1) % cap + n) % cap ≡ (start + suc n) % cap
  shift start n = mod-add-mod (start + 1) cap n ∙ ap (λ (t : ℕ). t % cap) (omega arith)

  passes_on :
      (start : ℕ) (result result' : Option (Bool × ℕ))
      → start < cap
      → result ≡ result'
      → Other key (slot_at slots start)
      → Finds slots cap key ((start + 1) % cap) result'
      → Finds slots cap key start result
  passes_on start result result' h e other f = record {
    found = f.found;
    slot = f.slot;
    returns = e ∙ f.returns;
    reaches = record {
      steps = suc f.reaches.steps;
      lands = f.reaches.lands ∙ shift start f.reaches.steps;
      passes = passes;
    };
    hit = f.hit;
    miss = f.miss;
  }
    where
      here : (start + 0) % cap ≡ start
      here = ap (λ (t : ℕ). t % cap) (omega arith) ∙ mod-eq_of_lt h

      passes : (n : ℕ) → n < suc f.reaches.steps → Other key (slot_at slots ((start + n) % cap))
      passes zero l = rw here other
      passes (suc n) l = rw (← shift start n) (f.reaches.passes n (omega arith))

ahead :
    (slots : Slots) (cap start d : ℕ) (r : Row)
    → start < cap
    → slot_at slots start ≡ some r
    → slot_at slots ((start + d) % cap) ≡ none
    → 0 < d
ahead slots cap start zero r h e free = cc (
  e,
  ap (λ (t : ℕ). slot_at slots t)
      (ap (λ (t : ℕ). t % cap) {x = start + 0} {y = start} (omega arith) ∙ mod-eq_of_lt h),
  free,
)
ahead slots cap start (suc d) r h e free = omega arith

-- With a free bucket `d` steps ahead the loop ends within `d + 1` rounds.
pub probe-Finds :
    (slots : Slots) (k : ℕ) (key : Bytes) (fuel start d : ℕ)
    → start < 2 ^ k
    → d < fuel
    → slot_at slots ((start + d) % 2 ^ k) ≡ none
    → Finds slots (2 ^ k) key start (probe fuel slots (2 ^ k - 1) key start)
unfolding probe
probe-Finds slots k key zero start d h l free = absurd (omega arith)
probe-Finds slots k key (suc fuel) start d h l free = elim (Option-cases (slot_at slots start)) [
  | inl e ↦ stops slots (2 ^ k) key start _ false h (rw (e, probe)) (λ x. cc) (λ x. e)
  | inr (r, e) ↦ elim (Bool-cases (str_eq r.key key)) [
    | inl same ↦
        stops slots (2 ^ k) key start _ true h (rw (e, probe, same)) (λ x. (r, e, same)) (λ x. cc)
    | inr other ↦
        let c = 2 ^ k in
        let pos : 0 < d = ahead slots c start d r h e free in
        let next = (start + 1) % c in
        let free' : slot_at slots ((next + (d - 1)) % c) ≡ none =
          ap (λ (t : ℕ). slot_at slots t)
            (shift slots c key start (d - 1) ∙ ap (λ (t : ℕ). t % c) (omega arith))
          ∙ free in
        passes_on slots c key start _ (probe fuel slots (c - 1) key next) h
          (rw (e, probe, other, bit_and-mask k (start + 1))) (r, e, other)
          (probe-Finds slots k key fuel next (d - 1) (mod-lt (start + 1) (pow_pos k)) (omega arith)
            free')
  ]
]

-- Every bucket lies less than a whole round ahead.
round_trip :
    (cap start free : ℕ)
    → start < cap
    → free < cap
    → (d : ℕ) × (d < cap) × ((start + d) % cap ≡ free)
round_trip cap start free hs hf = elim (Bool-cases (leb start free)) [
  | inl up ↦ (
    free - start,
    omega arith,
    ap (λ (t : ℕ). t % cap) {x = start + (free - start)} {y = free} (ground arith)
        ∙ mod-eq_of_lt hf,
  )
  | inr down ↦ (
    free + cap - start,
    ground arith,
    ap (λ (t : ℕ). t % cap) {x = start + (free + cap - start)} {y = free + cap} (omega arith)
        ∙ add-mod_right free cap
        ∙ mod-eq_of_lt hf,
  )
]

probe-home :
    (slots : Slots) (cap k : ℕ) (key : Bytes) (free : ℕ)
    → cap ≡ 2 ^ k
    → free < cap
    → slot_at slots free ≡ none
    → Finds slots cap key
        (home key cap)
        (probe cap slots (cap - 1) key (bit_and (hash_key key) (cap - 1)))
probe-home slots cap k key free e h empty =
    let start = home key cap in
    let inside : start < cap = mod-lt (hash_key key) (omega arith) in
    let (d, l, meets) = round_trip cap start free inside h in
    let ahead' : slot_at slots ((start + d) % cap) ≡ none =
      ap (λ (t : ℕ). slot_at slots t) meets ∙ empty in
    let mask : bit_and (hash_key key) (cap - 1) ≡ start = rw e (bit_and-mask k (hash_key key)) in
    rw mask (home_Finds start d inside l ahead')
  where
    home_Finds :
        (start d : ℕ)
        → start < cap
        → d < cap
        → slot_at slots ((start + d) % cap) ≡ none
        → Finds slots cap key start (probe cap slots (cap - 1) key start)
    home_Finds start d hs hd free' =
        let hs' : start < 2 ^ k = rw e at hs in
        let free'' : slot_at slots ((start + d) % 2 ^ k) ≡ none = rw e at free' in
        rw e (probe-Finds slots k key (2 ^ k) start d hs' (rw e at hd) free'')

-- A table with a free bucket answers every search.
pub find_slot-Finds :
    (t : RowIndex) (k : ℕ) (key : Bytes) (free : ℕ)
    → t.cap ≡ 2 ^ k
    → free < t.cap
    → slot_at t.slots free ≡ none
    → Finds t.slots t.cap key (home key t.cap) (find_slot t key)
unfolding find_slot
find_slot-Finds t k key free e h empty = probe-home t.slots t.cap k key free e h empty
