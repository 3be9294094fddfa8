-- ===== src/Watch/Events.antt =====
-- What `lp_consume_inotify_events` of lib/libpipeline.c finds in what the kernel wrote.
use stream_data_pipline.Prelude.{
  ℕ, zero, suc, ◌+◌, ◌*◌, ◌/◌, ◌%◌, ◌^◌, ◌≤◌, ◌<◌, ◌≡◌, ◌==◌, ltb, refl, ap, ◌∙◌, Bool, true, false,
  ◌||◌, not, Option, none, some, List, [], ◌∷◌, ◌++◌, arith, length, length-append, drop,
  append_assoc,
}
use stream_data_pipline.Prelude.Bytes.{Bytes, contains}
use stream_data_pipline.Paths.{lp_is_completed_session}
use stream_data_pipline.Watch.{
  Answer, got, again, lp_consume_inotify_events, c_string, byte_at, header_size, name_len,
  walk_events, is_sentinel_event,
}

-- An event as the kernel writes it: the first three words of its header, and the name, if there is
-- one, with a NUL and padding behind it.
pub record Event : Type 0 where
  pub head : Bytes
  pub name : Option Bytes
  pub padding : Bytes

abbrev pub name_field : Option Bytes → Bytes → Bytes
name_field none padding = []
name_field (some name) padding = name ++ 0 ∷ padding

abbrev pub field : Event → Bytes
field ev = name_field ev.name ev.padding

-- A 32-bit word, lowest byte first.
abbrev pub le32 : ℕ → Bytes
le32 n = n % 256 ∷ n / 2 ^ 8 % 256 ∷ n / 2 ^ 16 % 256 ∷ n / 2 ^ 24 % 256 ∷ []

abbrev pub event_bytes : Event → Bytes
event_bytes ev = ev.head ++ (le32 (length (field ev)) ++ field ev)

abbrev pub is_plain : Option Bytes → Bool
is_plain none = true
is_plain (some name) = not (contains 0 name)

pub record IsEvent (ev : Event) : Type 0 where
  pub words : length ev.head ≡ 12
  pub plain : is_plain ev.name ≡ true
  pub fits : length (field ev) < 2 ^ 32

abbrev pub AreEvents : List Event → Type 0
AreEvents [] = Unit
AreEvents (ev ∷ evs) = IsEvent ev × AreEvents evs

abbrev pub all_bytes : List Event → Bytes
all_bytes [] = []
all_bytes (ev ∷ evs) = event_bytes ev ++ all_bytes evs

-- Whether one of the events names the sentinel.
abbrev pub marks : List Event → Bool
marks [] = false
marks (ev ∷ evs) = lp_is_completed_session ev.name || marks evs

byte_at-append : (a b : Bytes) (n i : ℕ) → n ≡ length a + i → byte_at (a ++ b) n ≡ byte_at b i
byte_at-append [] b n i e = ap (byte_at b) {x = n} {y = i} (omega arith)
byte_at-append (x ∷ a) b zero i e = absurd (omega arith)
byte_at-append (x ∷ a) b (suc n) i e = byte_at-append a b n i (omega arith)

drop-append : (a b : Bytes) (n k : ℕ) → n ≡ length a + k → drop n (a ++ b) ≡ drop k b
drop-append [] b n k e = ap (λ i. drop i b) {x = n} {y = k} (omega arith)
drop-append (x ∷ a) b zero k e = absurd (omega arith)
drop-append (x ∷ a) b (suc n) k e = drop-append a b n k (omega arith)

c_string-append : (name rest : Bytes) → contains 0 name ≡ false → c_string (name ++ 0 ∷ rest) ≡ name
unfolding contains
c_string-append [] rest h = refl
c_string-append (x ∷ name) rest h =
    let n : (x == 0) ≡ false = ground arith in rw (n, c_string-append name rest (ground arith)) refl

le32_sum :
    (n : ℕ)
    → n < 2 ^ 32
    → n % 256 + n / 2 ^ 8 % 256 * 2 ^ 8 + n / 2 ^ 16 % 256 * 2 ^ 16 + n / 2 ^ 24 % 256 * 2 ^ 24 ≡ n
le32_sum n h = omega arith

name_len_lem :
    (head rest : Bytes) (n : ℕ)
    → length head ≡ 12
    → n < 2 ^ 32
    → name_len (head ++ (le32 n ++ rest)) ≡ n
name_len_lem head rest n e fits =
    rw
      (
        byte_at-append head (le32 n ++ rest) 12 0 (omega arith),
        byte_at-append head (le32 n ++ rest) 13 1 (omega arith),
        byte_at-append head (le32 n ++ rest) 14 2 (omega arith),
        byte_at-append head (le32 n ++ rest) 15 3 (omega arith),
      )
      (le32_sum n fits)

drop_header :
    (head rest : Bytes) (n k : ℕ)
    → length head ≡ 12
    → drop (header_size + k) (head ++ (le32 n ++ rest)) ≡ drop k rest
drop_header head rest n k e =
    drop-append head (le32 n ++ rest) (header_size + k) (suc (suc (suc (suc k)))) (omega arith)

sentinel_lem :
    (head padding more : Bytes) (name : Option Bytes)
    → length head ≡ 12
    → is_plain name ≡ true
    → length (name_field name padding) < 2 ^ 32
    → is_sentinel_event
        (head ++ (le32 (length (name_field name padding)) ++ (name_field name padding ++ more)))
      ≡ lp_is_completed_session name
unfolding lp_is_completed_session
sentinel_lem head padding more none e p fits =
    rw (is_sentinel_event, name_len_lem head more 0 e fits) refl
sentinel_lem head padding more (some name) e p fits =
    let f = name ++ 0 ∷ padding in
    let l = length-append name (0 ∷ padding) in
    let positive : ltb 0 (length f) ≡ true = ground arith in
    rw
      (
        is_sentinel_event,
        name_len_lem head (f ++ more) (length f) e fits,
        positive,
        drop_header head (f ++ more) (length f) 0 e,
        append_assoc name (0 ∷ padding) more,
        c_string-append name (padding ++ more) (ground arith),
      )
      refl

or_assoc : (a b c : Bool) → ((a || b) || c) ≡ (a || (b || c))
or_assoc true b c = refl
or_assoc false b c = refl

-- What the loop finds where an event begins.
record Starts (ev : Event) (more buf : Bytes) : Type 0 where
  long : ltb (length buf) header_size ≡ false
  size : length buf ≡ header_size + length (field ev) + length more
  next : drop (header_size + name_len buf) buf ≡ more
  tested : is_sentinel_event buf ≡ lp_is_completed_session ev.name

event-Starts : (ev : Event) (more : Bytes) → IsEvent ev → Starts ev more (event_bytes ev ++ more)
event-Starts ev more is =
    let f = field ev in
    let size : length (ev.head ++ (le32 (length f) ++ (f ++ more)))
        ≡ header_size + length f + length more =
      omega (
        arith,
        is.words,
        length-append ev.head (le32 (length f) ++ (f ++ more)),
        length-append f more,
      ) in
    let n = name_len_lem ev.head (f ++ more) (length f) is.words is.fits in
    rw (append_assoc ev.head (le32 (length f) ++ f) more) (record {
      long = ground arith;
      size = size;
      next =
          ap (λ k. drop (header_size + k) (ev.head ++ (le32 (length f) ++ (f ++ more)))) n
          ∙ drop_header ev.head (f ++ more) (length f) (length f) is.words
          ∙ drop-append f more (length f) 0 (omega arith);
      tested = sentinel_lem ev.head ev.padding more ev.name is.words is.plain is.fits;
    })

-- The loop over what one `read` got, on at least as much fuel as there are bytes, finds the sentinel
-- exactly if one of the events names it.
walk_events-marks :
    (fuel : ℕ) (evs : List Event) (saw : Bool)
    → AreEvents evs
    → length (all_bytes evs) ≤ fuel
    → walk_events fuel (all_bytes evs) saw ≡ (saw || marks evs)
unfolding walk_events
walk_events-marks zero [] saw are le = ground arith
walk_events-marks (suc fuel) [] saw are le = ground arith
walk_events-marks zero (ev ∷ evs) saw are le =
    absurd (omega (arith, (event-Starts ev (all_bytes evs) are.0).size))
walk_events-marks (suc fuel) (ev ∷ evs) saw are le =
    let st = event-Starts ev (all_bytes evs) are.0 in
    rw (st.long, st.next, st.tested)
      (walk_events-marks fuel evs (saw || lp_is_completed_session ev.name) are.1
          (omega (arith, st.size))
        ∙ or_assoc saw (lp_is_completed_session ev.name) (marks evs))

-- What the answers of `read` give as events, and whether the last one is EAGAIN.
abbrev pub answers_of : List (List Event) → List Answer
answers_of [] = again ∷ []
answers_of (evs ∷ more) = got (all_bytes evs) ∷ answers_of more

abbrev pub AreReads : List (List Event) → Type 0
AreReads [] = Unit
AreReads (evs ∷ more) = (0 < length (all_bytes evs)) × AreEvents evs × AreReads more

abbrev pub any_marks : List (List Event) → Bool
any_marks [] = false
any_marks (evs ∷ more) = marks evs || any_marks more

got_bytes :
    (buf : Bytes) (answers : List Answer) (saw : Bool)
    → 0 < length buf
    → lp_consume_inotify_events (got buf ∷ answers) saw
      ≡ lp_consume_inotify_events answers (walk_events (length buf) buf saw)
unfolding lp_consume_inotify_events
got_bytes [] answers saw h = absurd (omega arith)
got_bytes (x ∷ buf) answers saw h = refl

-- All events that wait at the descriptor are taken, whatever reads they come in, and the flag of the
-- caller is set exactly if it was set or one of the events names the sentinel.
pub lp_consume_inotify_events-marks :
    (reads : List (List Event)) (saw : Bool)
    → AreReads reads
    → lp_consume_inotify_events (answers_of reads) saw ≡ (true, saw || any_marks reads)
unfolding lp_consume_inotify_events
lp_consume_inotify_events-marks [] true are = refl
lp_consume_inotify_events-marks [] false are = refl
lp_consume_inotify_events-marks (evs ∷ more) saw (some_bytes, es, are) =
    got_bytes (all_bytes evs) (answers_of more) saw some_bytes
    ∙ ap (lp_consume_inotify_events (answers_of more))
        (walk_events-marks (length (all_bytes evs)) evs saw es (omega arith))
    ∙ lp_consume_inotify_events-marks more (saw || marks evs) are
    ∙ ap (λ b. (true, b)) (or_assoc saw (marks evs) (any_marks more))
