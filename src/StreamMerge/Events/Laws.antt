-- ===== src/StreamMerge/Events/Laws.antt =====
-- What the event set of sm_events.c guarantees: bounded, without duplicates, well-formed tags.
use stream_data_pipline.Prelude.{
  ◌≤◌, ◌<◌, ◌≡◌, refl, true, false, ◌||◌, [], ◌∷◌, ◌++◌, length, length-append, arith, Bool-cases,
  inl, inr,
}
use stream_data_pipline.Prelude.Bytes.{Bytes, str_eq, str_eq_refl, str_eq_comm, is_empty}
use stream_data_pipline.StreamMerge.Events.{EventSet, max_items, max_len, has_tag, add_tag, add_all}

-- A tag that the fixed slots can hold.
abbrev pub IsTag : Bytes → Type 0
IsTag tag = (is_empty tag ≡ false) × (length tag < max_len)

-- Every tag is well formed and differs from those behind it.
abbrev pub Distinct : EventSet → Type 0
Distinct [] = Unit
Distinct (x ∷ xs) = IsTag x × (has_tag xs x ≡ false) × Distinct xs

pub record IsValid (set : EventSet) : Type 0 where
  pub distinct : Distinct set
  pub bounded : length set ≤ max_items

pub has_tag-append :
    (xs ys : EventSet) (t : Bytes) → has_tag (xs ++ ys) t ≡ (has_tag xs t || has_tag ys t)
unfolding has_tag
has_tag-append [] ys t = refl
has_tag-append (x ∷ xs) ys t = ground (arith, has_tag-append xs ys t)

Distinct-append :
    (xs : EventSet) (t : Bytes)
    → Distinct xs
    → IsTag t
    → has_tag xs t ≡ false
    → Distinct (xs ++ t ∷ [])
unfolding has_tag
Distinct-append [] t d h n = (h, refl, tt)
Distinct-append (x ∷ xs) t d h n =
    ground (arith, Distinct-append xs t, has_tag-append xs (t ∷ []) x, str_eq_comm t x)

-- Adding a tag keeps the set valid, whatever the tag is and whichever branch is taken.
pub add_tag-IsValid : (set : EventSet) (tag : Bytes) → IsValid set → IsValid (add_tag set tag).1
unfolding add_tag
add_tag-IsValid set tag v = ground (arith, Distinct-append set tag, length-append set (tag ∷ []))

-- What adding reports is whether the tag is in the set afterwards, if it is a well-formed tag; a
-- refused tag leaves the set as it was.
pub add_tag_reports :
    (set : EventSet) (tag : Bytes)
    → IsTag tag
    → (has_tag (add_tag set tag).1 tag ≡ (add_tag set tag).0)
      × ((add_tag set tag).0 ≡ false → (add_tag set tag).1 ≡ set)
unfolding add_tag has_tag
add_tag_reports set tag h = ground (arith, has_tag-append set (tag ∷ []) tag, str_eq_refl tag)

-- A tag is added at most once: adding it again succeeds and changes nothing.
pub add_tag_idem :
    (set : EventSet) (tag : Bytes)
    → (add_tag set tag).0 ≡ true
    → add_tag (add_tag set tag).1 tag ≡ (true, (add_tag set tag).1)
unfolding add_tag has_tag
add_tag_idem set tag h = ground (arith, has_tag-append set (tag ∷ []) tag, str_eq_refl tag)

-- No other tag comes in or goes out.
pub has_tag-add_tag :
    (set : EventSet) (tag t : Bytes)
    → str_eq tag t ≡ false
    → has_tag (add_tag set tag).1 t ≡ has_tag set t
unfolding add_tag has_tag
has_tag-add_tag set tag t h = ground (arith, has_tag-append set (tag ∷ []) t)

pub add_all-IsValid : (dst src : EventSet) → IsValid dst → IsValid (add_all dst src).1
unfolding add_all
add_all-IsValid dst [] v = v
add_all-IsValid dst (t ∷ src) v = elim (Bool-cases (add_tag dst t).0) [
  | inl e ↦ rw e (add_all-IsValid (add_tag dst t).1 src (add_tag-IsValid dst t v))
  | inr e ↦ rw e (add_tag-IsValid dst t v)
]
