-- ===== src/StreamMerge/Events/Json.antt =====
-- `sm_event_set_append_json` of applets/stream_merge/sm_events.c: a set of tags as an array of JSON.
use stream_data_pipline.Prelude.{
  ◌+◌, ◌<◌, Bool, true, false, [], ◌∷◌, ◌++◌, arith, length, length-append, if◌then◌else◌,
}
use stream_data_pipline.Prelude.Bytes.{Bytes}
use stream_data_pipline.Buffer.{Buffer, Status, ok, Allocator, size_max, append_char}
use stream_data_pipline.Buffer.Steps.{
  Holds, Adds, try_dbuf, comma_if, comma-Adds, append_char-Adds, done-Adds, try-Adds,
}
use stream_data_pipline.Json.{Cjson, write_string}
use stream_data_pipline.Json.Strings.{Prints, write_string-Adds}
use stream_data_pipline.StreamMerge.Events.{EventSet}

module _ {I D : Type 0} (c : Cjson I D) (m : Allocator) where
  -- The loop of `sm_event_set_append_json`; `first` is `i == 0`.
  unfoldable pub append_tags : Bool → EventSet → Buffer → Status × Buffer
  append_tags first [] b = (ok, b)
  append_tags first (tag ∷ set) b =
      try_dbuf (if first then (ok, b) else append_char m b b',')
        (λ b1. try_dbuf (write_string c m tag b1) (append_tags false set))

  -- `sm_event_set_append_json`
  unfoldable pub append_json : EventSet → Buffer → Status × Buffer
  unfolding append_tags
  append_json set b =
      try_dbuf (append_char m b b'[')
        (λ b1. try_dbuf (append_tags true set b1) (λ b2. append_char m b2 b']'))

abbrev pub tags_text : (Bytes → Bytes) → Bool → EventSet → Bytes
tags_text quoted first [] = []
tags_text quoted first (tag ∷ set) = comma_if first ++ (quoted tag ++ tags_text quoted false set)

abbrev pub events_text : (Bytes → Bytes) → EventSet → Bytes
events_text quoted set = b'[' ∷ (tags_text quoted true set ++ b']' ∷ [])

module _ {I D : Type 0} (c : Cjson I D) (quoted : Bytes → Bytes) (prints : Prints c quoted)
    (m : Allocator) where
  append_tags-Adds :
      (first : Bool) (set : EventSet) (bs : Bytes) (b : Buffer)
      → Holds bs b
      → length bs + length (tags_text quoted first set) < size_max
      → Adds m bs (tags_text quoted first set) (append_tags c m first set b)
  unfolding append_tags
  append_tags-Adds first [] bs b h fits = done-Adds m bs b h
  append_tags-Adds first (tag ∷ set) bs b h fits =
      let pre = comma_if first in
      let rest = tags_text quoted false set in
      let l = length-append pre (quoted tag ++ rest) in
      let l' = length-append (quoted tag) rest in
      let l1 = length-append bs pre in
      let l2 = length-append (bs ++ pre) (quoted tag) in
      try-Adds m bs pre (quoted tag ++ rest) _ _ (comma-Adds m first bs b h (omega (arith, l)))
        (λ b1 h1.
          try-Adds m (bs ++ pre) (quoted tag) rest (write_string c m tag b1) _
            (write_string-Adds c quoted prints m tag (bs ++ pre) b1 h1 (omega (arith, l, l', l1)))
            (λ b2 h2.
              append_tags-Adds false set (bs ++ pre ++ quoted tag) b2 h2
                (omega (arith, l, l', l1, l2))))

  -- The whole array is appended, each tag quoted and in its order, or the call fails.
  pub append_json-Adds :
      (set : EventSet) (bs : Bytes) (b : Buffer)
      → Holds bs b
      → length bs + length (events_text quoted set) < size_max
      → Adds m bs (events_text quoted set) (append_json c m set b)
  unfolding append_json
  append_json-Adds set bs b h fits =
      let body = tags_text quoted true set in
      let l = length-append body (b']' ∷ []) in
      let l1 = length-append bs (b'[' ∷ []) in
      let l2 = length-append (bs ++ b'[' ∷ []) body in
      try-Adds m bs (b'[' ∷ []) (body ++ b']' ∷ []) _ _
        (append_char-Adds m b'[' bs b h (omega arith))
        (λ b1 h1.
          try-Adds m (bs ++ b'[' ∷ []) body (b']' ∷ []) _ _
            (append_tags-Adds true set (bs ++ b'[' ∷ []) b1 h1 (omega (arith, l, l1)))
            (λ b2 h2.
              append_char-Adds m b']' (bs ++ b'[' ∷ [] ++ body) b2 h2 (omega (arith, l, l1, l2))))
