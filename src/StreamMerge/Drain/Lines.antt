-- ===== src/StreamMerge/Drain/Lines.antt =====
-- `drain_meta` of applets/stream_merge/stream_merge.c as the work on one complete line after another.
use mathlib.Core.Path.{subst}
use stream_data_pipline.Prelude.{
  ℕ, zero, suc, ◌+◌, ◌≤◌, ◌<◌, ◌≡◌, refl, Bool, true, false, List, [], ◌∷◌, ◌++◌, arith, length,
  Option-cases, inl, inr,
}
use stream_data_pipline.Prelude.Bytes.{Bytes, split_at}
use stream_data_pipline.Buffer.{Buffer, size_max}
use stream_data_pipline.Buffer.Steps.{Holds}
use stream_data_pipline.Watch.{Answer}
use stream_data_pipline.StreamMerge.Output.{Env, and_then}
use stream_data_pipline.StreamMerge.Drain.{
  Machine, read_meta, take_line, behind_line, drain_lines, drain_meta, behind_read, discard,
}
use stream_data_pipline.StreamMerge.Drain.Cut.{cut, cut_unended, cut_first}
use stream_data_pipline.StreamMerge.Drain.Discard.{discard-Holds}
use stream_data_pipline.StreamMerge.Drain.Feed.{read_text, reads_well, read_meta-Reads}

module _ {I D : Type 0} (e : Env I D) where
  -- The lines one after another, up to the first one that fails.
  unfoldable pub feed : List Bytes → Machine → Bool × Machine
  feed [] k = (true, k)
  feed (line ∷ lines) k = and_then (take_line e line k) (feed lines)

  -- A result that is that of `feed`, with `rest` in the buffer if it went well.
  pub record Drained (rest : Bytes) (q : Bool × Machine) (r : Bool × Machine × Buffer)
      : Type 0 where
    pub same : (r.0, r.1) ≡ q
    pub left : r.0 ≡ true → Holds rest r.2

  behind_line-Drained :
      (rest : Bytes) (lines : List Bytes) (q : Bool × Machine) (b : Buffer)
      (next : Machine → Bool × Machine × Buffer)
      → ((k : Machine) → Drained rest (feed lines k) (next k))
      → Drained rest (and_then q (feed lines)) (behind_line q b next)
  behind_line-Drained rest lines (true, k) b next go = go k
  behind_line-Drained rest lines (false, k) b next go = record { same = refl; left = λ h. cc }

  drain_lines-Drained :
      (fuel : ℕ) (bs : Bytes) (k : Machine) (b : Buffer)
      → Holds bs b
      → length bs ≤ fuel
      → Drained (cut bs).1 (feed (cut bs).0 k) (drain_lines e fuel k b)
  unfolding drain_lines feed cut split_at
  drain_lines-Drained zero [] k b h le = record { same = refl; left = λ _. h }
  drain_lines-Drained zero (x ∷ bs) k b h le = absurd (omega arith)
  drain_lines-Drained (suc fuel) bs k b h le = elim (Option-cases (split_at 10 bs)) [
    | inl n ↦ rw (drain_lines, h.bytes, n, cut_unended bs n) (record { same = refl; left = λ _. h })
    | inr ((line, rest), s) ↦
        let (c, d, l) = cut_first bs line rest s in
        rw (drain_lines, h.bytes, s, c)
          (behind_line-Drained (cut rest).1 (cut rest).0 (take_line e line k) b _ (λ k'.
            drain_lines-Drained fuel rest k' (discard b (length line + 1))
              (subst (λ (t : Bytes). Holds t (discard b (length line + 1))) d
                (discard-Holds bs b (length line + 1) h (omega arith) (omega (arith, l))))
              (omega (arith, l))))
  ]

  behind_read-Drained :
      (answers : List Answer) (bs : Bytes) (k : Machine) (r : Bool × Buffer)
      → r.0 ≡ reads_well answers
      → (r.0 ≡ true → Holds (bs ++ read_text answers) r.1)
      → let (lines, rest) = cut (bs ++ read_text answers) in
        (reads_well answers ≡ true → Drained rest (feed lines k) (behind_read e r k))
        × (reads_well answers ≡ false
            → ((behind_read e r k).0 ≡ false) × ((behind_read e r k).1 ≡ k))
  behind_read-Drained answers bs k (true, b) w h =
      let held = h refl in
      (
        λ _.
            drain_lines-Drained b.len (bs ++ read_text answers) k b held (omega (arith, held.long)),
        λ f. absurd (ground arith),
      )
  behind_read-Drained answers bs k (false, b) w h = (λ t. absurd (ground arith), λ f. (refl, refl))

  -- When every allocation is granted and the text has less than 2^64 - 1 bytes, `drain_meta` works on the
  -- complete lines of the text that was left in the buffer with what it has read behind it, one after
  -- another until one fails, and it leaves the unfinished line in the buffer if all went well; if a
  -- read fails it works on nothing and returns false.
  pub drain_meta-Drained :
      (answers : List Answer) (bs : Bytes) (k : Machine) (b : Buffer)
      → ((n : ℕ) → e.alloc.grants n ≡ true)
      → Holds bs b
      → length bs + length (read_text answers) < size_max
      → let (lines, rest) = cut (bs ++ read_text answers) in
        (reads_well answers ≡ true → Drained rest (feed lines k) (drain_meta e answers k b))
        × (reads_well answers ≡ false
            → ((drain_meta e answers k b).0 ≡ false) × ((drain_meta e answers k b).1 ≡ k))
  unfolding drain_meta
  drain_meta-Drained answers bs k b all h fits =
      let r = read_meta-Reads e answers bs b h fits in
      behind_read-Drained answers bs k (read_meta e answers b) (r.well all) r.holds
