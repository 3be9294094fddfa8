-- ===== src/ClipStore/Index.antt =====
-- applets/clip_store/db_query.c: the hash index of the latest row of each key, with open addressing
-- and linear probing. A bucket is `none` where its `used` flag is 0. What `calloc` and `strdup`
-- grant is a parameter; a call that would never return is `none`.
pub mod Mask
pub mod Probe
pub mod Insert
pub mod Placed
pub mod Rehash
pub mod Grow
pub mod Refine
use Prim.Native.Nat.{bit_and, bit_xor}
use stream_data_pipline.Prelude.{
  ℕ, zero, suc, ◌+◌, ◌-◌, ◌*◌, ◌%◌, ◌^◌, ◌≤◌, ◌≡◌, Bool, true, false, Option, none, some, List, [],
  ◌∷◌, leb, ◌==◌, if◌then◌else◌, get_or, set, replicate,
}
use stream_data_pipline.Prelude.Bytes.{Bytes, str_eq}
use stream_data_pipline.ClipStore.Row.{Row}

abbrev pub size_max : ℕ
size_max = 2 ^ 64 - 1

-- `row_index_t`
pub record RowIndex : Type 0 where
  pub slots : List (Option Row)
  pub len : ℕ
  pub cap : ℕ

-- `calloc` grants no array whose size in bytes is no `size_t`; a `row_t` takes 32 bytes.
pub record Memory : Type 0 where
  pub calloc_ok : ℕ → Bool
  pub calloc_bound : (n : ℕ) → calloc_ok n ≡ true → n * 32 ≤ size_max
  pub strdup_ok : Bytes → Bool

-- `row_index_t rows = {0}`, and `row_index_free`
abbrev pub zero_index : RowIndex
zero_index = record { slots = []; len = 0; cap = 0 }

-- INITIAL_BUCKETS, FNV1A_64_OFFSET_BASIS and FNV1A_64_PRIME
abbrev pub initial_buckets : ℕ
initial_buckets = 64

abbrev pub fnv1a_64_offset_basis : ℕ
fnv1a_64_offset_basis = 14695981039346656037

abbrev pub fnv1a_64_prime : ℕ
fnv1a_64_prime = 1099511628211

hash_from : ℕ → Bytes → ℕ
hash_from h [] = h
hash_from h (c ∷ cs) = hash_from ((bit_xor h c * fnv1a_64_prime) % 2 ^ 64) cs

-- `hash_key`
abbrev pub hash_key : Bytes → ℕ
unfolding hash_from
hash_key = hash_from fnv1a_64_offset_basis

-- `index->rows[i]`, where `index->used[i]` is set.
abbrev pub slot_at : List (Option Row) → ℕ → Option Row
slot_at slots i = get_or slots i none

-- The loop of `find_slot`, on fuel. After as many rounds as there are buckets it is back where it
-- began, so a loop that takes more never ends.
pub probe : ℕ → List (Option Row) → ℕ → Bytes → ℕ → Option (Bool × ℕ)
probe zero slots mask key idx = none
probe (suc fuel) slots mask key idx =
    let rest = probe fuel slots mask key (bit_and (idx + 1) mask) in
    elim (slot_at slots idx) [
      | none ↦ some (false, idx)
      | some row ↦ if str_eq row.key key then some (true, idx) else rest
    ]

-- `find_slot`: whether the key is there, and its bucket or the one for it.
pub find_slot : RowIndex → Bytes → Option (Bool × ℕ)
find_slot index key =
    let mask = index.cap - 1 in probe index.cap index.slots mask key (bit_and (hash_key key) mask)

-- The loop of `row_index_grow` that looks for the next capacity, on fuel.
pub next_capacity : ℕ → ℕ → ℕ → Option ℕ
next_capacity zero next_len next_cap = none
next_capacity (suc fuel) next_len next_cap =
    let rest = next_capacity fuel next_len (next_cap * 2 % 2 ^ 64) in
    if leb (next_cap * 3 % 2 ^ 64) (next_len * 4 % 2 ^ 64) then rest else some next_cap

-- Storing a row in a bucket that was empty.
abbrev pub fill : RowIndex → ℕ → Row → RowIndex
fill index slot row = record index { slots = set index.slots slot (some row); len = index.len + 1 }

-- The loop of `row_index_grow` that moves the rows.
pub rehash : RowIndex → List (Option Row) → Option RowIndex
rehash grown [] = some grown
rehash grown (none ∷ slots) = rehash grown slots
rehash grown (some row ∷ slots) = elim (find_slot grown row.key) [
  | none ↦ none
  | some (found, slot) ↦ rehash (fill grown slot row) slots
]

-- `allocate_buckets`
abbrev pub fresh_index : ℕ → RowIndex
fresh_index cap = record { slots = replicate cap none; len = 0; cap = cap }

-- `row_index_grow` once the next capacity is known: whether it returned 0, and the index.
pub grow_to : Memory → RowIndex → ℕ → Option (Bool × RowIndex)
grow_to m index next_cap =
    let moved = rehash (fresh_index next_cap) index.slots in
    if next_cap == index.cap
    then some (true, index)
    else if m.calloc_ok next_cap
    then (elim moved [ none ↦ none | some grown ↦ some (true, grown) ])
    else some (false, index)

-- `row_index_grow`
pub grow : Memory → RowIndex → ℕ → Option (Bool × RowIndex)
grow m index next_len =
    elim (next_capacity 64 next_len (if index.cap == 0 then initial_buckets else index.cap)) [
      | none ↦ none
      | some next_cap ↦ grow_to m index next_cap
    ]

-- `replace_row` on a bucket: it copies the key and the value, and writes only if both are granted.
abbrev pub copies : Memory → Row → Bool
copies m row = if m.strdup_ok row.key then m.strdup_ok row.value else false

-- `row_index_put`
unfoldable pub put : Memory → RowIndex → Row → Option (Bool × RowIndex)
put m index row = elim (grow m index (index.len + 1)) [
  | none ↦ none
  | some (ok, index') ↦
      if ok
      then (elim (find_slot index' row.key) [
        | none ↦ none
        | some (found, slot) ↦
            if copies m row
            then (if found
                then some (true, record index' { slots = set index'.slots slot (some row) })
                else some (true, fill index' slot row))
            else some (false, index')
      ])
      else some (false, index')
]

-- `row_index_get`
unfoldable pub get : RowIndex → Bytes → Option (Option Row)
get index key = if index.cap == 0 then some none else (elim (find_slot index key) [
  | none ↦ none
  | some (found, slot) ↦ some (if found then slot_at index.slots slot else none)
])
