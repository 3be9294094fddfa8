-- ===== src/StreamMerge/Events.antt =====
-- applets/stream_merge/sm_events.c: the bounded set of event tags of a chunk or a clip.
-- The array `items[SM_EVENT_MAX_ITEMS][SM_EVENT_MAX_LEN]` with its `count` is the list of the
-- `count` tags stored, first slot first; the slots behind are never read. A pointer argument stands
-- for the object it points to, so the guards against NULL objects have no counterpart.
pub mod Json
pub mod Laws
use stream_data_pipline.Prelude.{
  ℕ, Bool, true, false, ◌||◌, List, [], ◌∷◌, ◌++◌, length, leb, if◌then◌else◌,
}
use stream_data_pipline.Prelude.Bytes.{Bytes, str_eq, is_empty}

-- SM_EVENT_MAX_ITEMS and SM_EVENT_MAX_LEN
abbrev pub max_items : ℕ
max_items = 16

abbrev pub max_len : ℕ
max_len = 64

-- `sm_event_set_t`
abbrev pub EventSet : Type 0
EventSet = List Bytes

-- `sm_event_set_reset`, and the zero-initialised set
abbrev pub no_events : EventSet
no_events = []

-- the search loop of `sm_event_set_add_tag`
unfoldable pub has_tag : EventSet → Bytes → Bool
unfolding str_eq
has_tag [] tag = false
has_tag (x ∷ xs) tag = str_eq x tag || has_tag xs tag

-- `sm_event_set_add_tag`: whether it returned 0, and the set that it leaves.
unfoldable pub add_tag : EventSet → Bytes → Bool × EventSet
add_tag set tag =
    if is_empty tag
    then (false, set)
    else if leb max_len (length tag)
    then (false, set)
    else if has_tag set tag
    then (true, set)
    else if leb max_items (length set)
    then (false, set)
    else (true, set ++ tag ∷ [])

-- `sm_event_set_add_all`: it stops at the first tag that is refused.
unfoldable pub add_all : EventSet → EventSet → Bool × EventSet
unfolding add_tag
add_all dst [] = (true, dst)
add_all dst (tag ∷ src) =
    let (done, dst') = add_tag dst tag in
    let rest = add_all dst' src in if done then rest else (false, dst')
