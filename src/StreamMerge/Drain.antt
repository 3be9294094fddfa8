-- ===== src/StreamMerge/Drain.antt =====
-- applets/stream_merge/stream_merge.c: `drain_meta`, which reads what the sidecar file has grown by
-- and hands the records of its complete lines to the clip state machine, and `check_idle`. What the
-- calls of `read` give is a list of answers, the first one first.
pub mod Cut
pub mod Discard
pub mod Feed
pub mod Lines
use stream_data_pipline.Prelude.{
  ℕ, zero, suc, ◌+◌, ◌-◌, Bool, true, false, ◌&&◌, Option, none, some, List, [], ◌∷◌, ◌==◌, length,
  take, drop, if◌then◌else◌,
}
use stream_data_pipline.Prelude.Bytes.{Bytes, codes, str_eq, split_at}
use stream_data_pipline.Buffer.{
  Buffer, Status, ok, einval, eio, eoverflow, enomem, append_mem, old_bytes, write_at,
}
use stream_data_pipline.Buffer.Laws.{contents}
use stream_data_pipline.Watch.{Answer, got, interrupted, again, failed, c_string}
use stream_data_pipline.StreamMerge.Fsm.{MetaRecord, Fsm, Outcome, process_record, check_idle}
use stream_data_pipline.StreamMerge.Fsm.Runs.{zero_clip}
use stream_data_pipline.StreamMerge.Output.{Env, and_then, handle_action}
use stream_data_pipline.StreamMerge.Reader.{parse_line}

-- What the applet has got to: the state machine, what is printed, and how often it read the clock.
pub record Machine : Type 0 where
  pub fsm : Fsm
  pub printed : Bytes
  pub readings : ℕ

-- The clock was read once more.
abbrev pub clock_read : Machine → Machine
clock_read k = record k { readings = suc k.readings }

-- The end of `drain_meta`'s loop: `memmove` of the rest, the length, and the NUL behind it.
unfoldable pub discard : Buffer → ℕ → Buffer
discard b n =
    let rest = b.len - n in
    record b {
      block = write_at (write_at b.block 0 (take rest (drop n (old_bytes b.block)))) rest (0 ∷ []);
      len = rest;
    }

abbrev pub read_next : Status × Buffer → (Buffer → Bool × Buffer) → Bool × Buffer
read_next (ok, b) next = next b
read_next (einval, b) next = (false, b)
read_next (eio, b) next = (false, b)
read_next (eoverflow, b) next = (false, b)
read_next (enomem, b) next = (false, b)

abbrev pub behind_line :
    Bool × Machine → Buffer → (Machine → Bool × Machine × Buffer) → Bool × Machine × Buffer
behind_line (true, k) b next = next k
behind_line (false, k) b next = (false, k, b)

-- Nothing more to do without a complete line.
abbrev pub with_line :
    Option (Bytes × Bytes)
    → Machine
    → Buffer
    → (Bytes → Bool × Machine × Buffer)
    → Bool × Machine × Buffer
with_line none k b next = (true, k, b)
with_line (some (line, rest)) k b next = next line

module _ {I D : Type 0} (e : Env I D) where
  -- The first loop of `drain_meta`. Reading nothing is the end of the file, and so is the end of the
  -- answers.
  unfoldable pub read_meta : List Answer → Buffer → Bool × Buffer
  read_meta [] b = (true, b)
  read_meta (got [] ∷ answers) b = (true, b)
  read_meta (got (x ∷ chunk) ∷ answers) b =
      read_next (append_mem e.alloc b (some (x ∷ chunk)) (length (x ∷ chunk))) (read_meta answers)
  read_meta (interrupted ∷ answers) b = read_meta answers b
  read_meta (again ∷ answers) b = (true, b)
  read_meta (failed ∷ answers) b = (false, b)

  -- The outcome of a call of the state machine, its action handled.
  unfoldable pub settle : Outcome → Machine → Bool × Machine
  settle r k =
      let (done, out) = handle_action e r.action r.out k.printed in
      (done, record { fsm = r.fsm; printed = out; readings = k.readings })

  unfoldable pub take_record : Option MetaRecord → Machine → Bool × Machine
  unfolding settle
  take_record none k = (true, k)
  take_record (some rec) k =
      let r =
        settle (process_record k.fsm rec e.clip_ms (e.clock k.readings) zero_clip) (clock_read k) in
      if rec.valid && str_eq rec.kind (codes "data") then r else (true, k)

  -- The work on one line in the second loop of `drain_meta`: an empty line is passed over.
  unfoldable pub take_line : Bytes → Machine → Bool × Machine
  unfolding take_record
  take_line [] k = (true, k)
  take_line (x ∷ line) k = take_record (parse_line e.cjson e.double (c_string (x ∷ line))) k

  -- The second loop of `drain_meta`, on fuel; `memchr` finds the end of a line.
  unfoldable pub drain_lines : ℕ → Machine → Buffer → Bool × Machine × Buffer
  unfolding take_line
  drain_lines zero k b = (true, k, b)
  drain_lines (suc fuel) k b = with_line (split_at 10 (contents b)) k b (λ line.
      behind_line (take_line line k) b (λ k'. drain_lines fuel k' (discard b (length line + 1))))

  abbrev pub behind_read : Bool × Buffer → Machine → Bool × Machine × Buffer
  behind_read (true, b) k = drain_lines b.len k b
  behind_read (false, b) k = (false, k, b)

  -- `drain_meta`. Every line takes at least its end from the buffer.
  unfoldable pub drain_meta : List Answer → Machine → Buffer → Bool × Machine × Buffer
  unfolding read_meta drain_lines
  drain_meta answers k b = behind_read (read_meta answers b) k

  -- `check_idle` of stream_merge.c
  unfoldable pub idle_check : Machine → Bool × Machine
  unfolding settle
  idle_check k = settle (check_idle k.fsm e.idle_ms (e.clock k.readings) zero_clip) (clock_read k)
