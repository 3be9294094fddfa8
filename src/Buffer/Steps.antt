-- ===== src/Buffer/Steps.antt =====
-- Sequences of appends, each tested for 0 before the next, as log_output_format.c (TRY_DBUF) and
-- sm_events.c make them: what is in the buffer behind them.
use mathlib.Core.Path.{subst}
use stream_data_pipline.Prelude.{
  Bool, Option, if◌then◌else◌, ℕ, ◌+◌, ◌<◌, ◌≡◌, refl, sym, ap, ◌∙◌, true, false, none, some, [],
  ◌∷◌, ◌++◌, arith, length, length-append, append_assoc, append-nil, ◌⊎◌, inl, inr,
}
use stream_data_pipline.Prelude.Bytes.{Bytes}
use stream_data_pipline.Buffer.{
  Buffer, Status, ok, einval, eio, eoverflow, enomem, Allocator, size_max, append_char, append_str,
  append_mem, empty,
}
use stream_data_pipline.Buffer.Laws.{IsValid, contents, empty-IsValid}
use stream_data_pipline.Buffer.Append.{
  Appends, append_char-Appends, append_mem-Appends, append_mem_total, append_str-Appends,
  append_char_total, append_str_total,
}

-- TRY_DBUF of log_output_format.c: one call, and the next only behind a call that returned 0.
abbrev pub try_dbuf : Status × Buffer → (Buffer → Status × Buffer) → Status × Buffer
try_dbuf (ok, b) next = next b
try_dbuf (einval, b) next = (einval, b)
try_dbuf (eio, b) next = (eio, b)
try_dbuf (eoverflow, b) next = (eoverflow, b)
try_dbuf (enomem, b) next = (enomem, b)

-- What is printed, or `none` for -1.
abbrev pub printed : Status × Buffer → Option Bytes
printed (ok, b) = some (contents b)
printed (einval, b) = none
printed (eio, b) = none
printed (eoverflow, b) = none
printed (enomem, b) = none

abbrev pub comma_if : Bool → Bytes
comma_if first = if first then [] else b',' ∷ []

-- A buffer that works and holds these bytes.
pub record Holds (bs : Bytes) (b : Buffer) : Type 0 where
  pub valid : IsValid b
  pub live : b.failed ≡ false
  pub bytes : contents b ≡ bs
  pub long : b.len ≡ length bs

-- A call on such a buffer that adds `cs`, or reports a failure; with memory for everything it adds.
pub record Adds (m : Allocator) (bs cs : Bytes) (r : Status × Buffer) : Type 0 where
  pub adds : r.0 ≡ ok → Holds (bs ++ cs) r.1
  pub granted : ((n : ℕ) → m.grants n ≡ true) → r.0 ≡ ok

module _ (m : Allocator) where
  Holds-appended :
      (bs cs : Bytes) (b : Buffer) (r : Status × Buffer)
      → Holds bs b
      → Appends b cs r
      → r.0 ≡ ok
      → Holds (bs ++ cs) r.1
  Holds-appended bs cs b r h a e =
      let (c, l, f) = a.appended e in
      record {
        valid = a.valid;
        live = f ∙ h.live;
        bytes = c ∙ ap (λ (t : Bytes). t ++ cs) h.bytes;
        long = omega (arith, l, h.long, length-append bs cs);
      }

  pub append_char-Adds :
      (c : ℕ) (bs : Bytes) (b : Buffer)
      → Holds bs b
      → length bs + 1 < size_max
      → Adds m bs (c ∷ []) (append_char m b c)
  append_char-Adds c bs b h fits =
      let room : b.len + 1 < size_max = omega (arith, h.long) in
      record {
        adds =
            Holds-appended bs (c ∷ []) b (append_char m b c) h
              (append_char-Appends m b c h.valid h.live room);
        granted = λ all. append_char_total m b all h.valid h.live c room;
      }

  pub append_str-Adds :
      (s bs : Bytes) (b : Buffer)
      → Holds bs b
      → length bs + length s < size_max
      → Adds m bs s (append_str m b (some s))
  append_str-Adds s bs b h fits =
      let room : b.len + length s < size_max = omega (arith, h.long) in
      record {
        adds =
            Holds-appended bs s b (append_str m b (some s)) h
              (append_str-Appends m b s h.valid h.live room);
        granted = λ all. append_str_total m b all h.valid h.live s room;
      }

  pub append_mem-Adds :
      (s bs : Bytes) (b : Buffer)
      → Holds bs b
      → length bs + length s < size_max
      → Adds m bs s (append_mem m b (some s) (length s))
  append_mem-Adds s bs b h fits =
      let room : b.len + length s < size_max = omega (arith, h.long) in
      record {
        adds =
            Holds-appended bs s b (append_mem m b (some s) (length s)) h
              (append_mem-Appends m b s h.valid h.live room);
        granted = λ all. append_mem_total m b all h.valid h.live s room;
      }

  pub done-Adds : (bs : Bytes) (b : Buffer) → Holds bs b → Adds m bs [] (ok, b)
  done-Adds bs b h = record {
    adds = λ e. subst (λ (t : Bytes). Holds t b) (sym (append-nil bs)) h;
    granted = λ all. refl;
  }

  pub comma-Adds :
      (first : Bool) (bs : Bytes) (b : Buffer)
      → Holds bs b
      → length bs + length (comma_if first) < size_max
      → Adds m bs (comma_if first) (if first then (ok, b) else append_char m b b',')
  comma-Adds true bs b h fits = done-Adds bs b h
  comma-Adds false bs b h fits = append_char-Adds b',' bs b h (omega arith)

  -- One call after another.
  pub try-Adds :
      (bs cs ds : Bytes) (r : Status × Buffer) (next : Buffer → Status × Buffer)
      → Adds m bs cs r
      → ((b : Buffer) → Holds (bs ++ cs) b → Adds m (bs ++ cs) ds (next b))
      → Adds m bs (cs ++ ds) (try_dbuf r next)
  try-Adds bs cs ds (ok, b) next a go =
      let n = go b (a.adds refl) in
      record {
        adds = λ e. subst (λ (t : Bytes). Holds t (next b).1) (append_assoc bs cs ds) (n.adds e);
        granted = n.granted;
      }
  try-Adds bs cs ds (einval, b) next a go = record {
    adds = λ e. cc;
    granted = λ all. a.granted all;
  }
  try-Adds bs cs ds (eio, b) next a go = record { adds = λ e. cc; granted = λ all. a.granted all }
  try-Adds bs cs ds (eoverflow, b) next a go = record {
    adds = λ e. cc;
    granted = λ all. a.granted all;
  }
  try-Adds bs cs ds (enomem, b) next a go = record {
    adds = λ e. cc;
    granted = λ all. a.granted all;
  }

  pub empty-Holds : Holds [] empty
  empty-Holds = record { valid = empty-IsValid; live = refl; bytes = refl; long = refl }

  -- What is printed in the end: all of it or nothing.
  pub printed-Adds :
      (cs : Bytes) (r : Status × Buffer)
      → Adds m [] cs r
      → ((printed r ≡ none) ⊎ (printed r ≡ some cs))
        × (((n : ℕ) → m.grants n ≡ true) → printed r ≡ some cs)
  printed-Adds cs (ok, b) a =
      (inr (ap some (a.adds refl).bytes), λ all. ap some (a.adds refl).bytes)
  printed-Adds cs (einval, b) a = (inl refl, λ all. let e = a.granted all in cc)
  printed-Adds cs (eio, b) a = (inl refl, λ all. let e = a.granted all in cc)
  printed-Adds cs (eoverflow, b) a = (inl refl, λ all. let e = a.granted all in cc)
  printed-Adds cs (enomem, b) a = (inl refl, λ all. let e = a.granted all in cc)
