-- ===== src/StreamMerge/Fsm/Laws.antt =====
-- The state of sm_fsm.c: its invariant, and what each call decides.
use stream_data_pipline.Prelude.{◌+◌, ◌^◌, ◌≤◌, ◌<◌, ◌≡◌, ◌≢◌, ◌⊎◌, ◌↔◌, refl, true, false, arith}
use stream_data_pipline.Prelude.Int.{ℤ, ◌-ℤ◌, ◌≤ℤ◌}
use stream_data_pipline.StreamMerge.Events.Laws
use stream_data_pipline.StreamMerge.Events.Laws.{add_all-IsValid}
use stream_data_pipline.StreamMerge.Fsm.{
  MetaRecord, ClipRecord, Fsm, nothing, reject_late, emit_complete, emit_partial, add_u64, reset,
  process_record, check_idle, flush_final, append_record, start_clip,
}

-- A record that the reader can produce.
pub record IsReadable (rec : MetaRecord) : Type 0 where
  pub seq_fits : rec.seq < 2 ^ 64
  pub offset_fits : rec.offset < 2 ^ 64
  pub length_fits : rec.length < 2 ^ 64
  pub tags : Laws.IsValid rec.events

-- The byte counter agrees with the offsets, the fields are 64-bit words, and the tags are bounded.
pub record IsConsistent (f : Fsm) : Type 0 where
  pub covers : f.expected_offset ≡ add_u64 f.start_offset f.total_length
  pub start_fits : f.start_offset < 2 ^ 64
  pub total_fits : f.total_length < 2 ^ 64
  pub seq_fits : f.expected_seq < 2 ^ 64
  pub tags : Laws.IsValid f.events
  pub idle_is_zero : f.active ≡ false → f ≡ reset

pub reset-IsConsistent : IsConsistent reset
reset-IsConsistent = record {
  covers = refl;
  start_fits = omega arith;
  total_fits = omega arith;
  seq_fits = omega arith;
  tags = record { distinct = tt; bounded = omega arith };
  idle_is_zero = λ _. refl;
}

-- Processing a readable record keeps the invariant, on every branch.
pub process_record-IsConsistent :
    (f : Fsm) (rec : MetaRecord) (clip_ms now_ms : ℤ) (out : ClipRecord)
    → IsConsistent f
    → IsReadable rec
    → IsConsistent (process_record f rec clip_ms now_ms out).fsm
unfolding process_record start_clip append_record
process_record-IsConsistent f rec clip_ms now_ms out c r = record {
  covers = ground arith;
  start_fits = ground arith;
  total_fits = ground arith;
  seq_fits = ground arith;
  tags = ground (arith, add_all-IsValid f.events rec.events);
  idle_is_zero = λ e. ground (arith, c.idle_is_zero);
}

pub check_idle-IsConsistent :
    (f : Fsm) (idle_ms now_ms : ℤ) (out : ClipRecord)
    → IsConsistent f
    → IsConsistent (check_idle f idle_ms now_ms out).fsm
unfolding check_idle
check_idle-IsConsistent f idle_ms now_ms out c = record {
  covers = ground arith;
  start_fits = ground arith;
  total_fits = ground arith;
  seq_fits = ground arith;
  tags = ground (arith, reset-IsConsistent);
  idle_is_zero = λ e. ground (arith, c.idle_is_zero);
}

pub flush_final-IsConsistent :
    (f : Fsm) (out : ClipRecord) → IsConsistent f → IsConsistent (flush_final f out).fsm
unfolding flush_final
flush_final-IsConsistent f out c = record {
  covers = ground arith;
  start_fits = ground arith;
  total_fits = ground arith;
  seq_fits = ground arith;
  tags = ground (arith, reset-IsConsistent);
  idle_is_zero = λ e. ground (arith, c.idle_is_zero);
}

-- A record is out of sequence when it is not the one awaited: bytes are missing before it.
abbrev pub IsGap : Fsm → MetaRecord → Type 0
IsGap f rec = (f.expected_seq < rec.seq) ⊎ (rec.offset ≢ f.expected_offset)

-- What each verdict on a record means for a machine that is collecting: it is refused exactly if
-- it is older than awaited, it cuts a partial clip exactly if it leaves a gap, it closes a complete
-- clip exactly if it comes next and the window is over, and a refusal leaves the machine as it was.
pub process_record_verdict :
    (f : Fsm) (rec : MetaRecord) (clip_ms now_ms : ℤ) (out : ClipRecord)
    → f.active ≡ true
    → rec.valid ≡ true
    → let r = process_record f rec clip_ms now_ms out in
      ((r.action ≡ reject_late) ↔ (rec.seq < f.expected_seq))
      × ((r.action ≡ emit_partial) ↔ ((f.expected_seq ≤ rec.seq) × IsGap f rec))
      × ((r.action ≡ emit_complete) ↔ (
          (rec.seq ≡ f.expected_seq)
          × (rec.offset ≡ f.expected_offset)
          × (clip_ms ≤ℤ rec.ts_ms -ℤ f.start_ts_ms)))
      × (r.action ≡ reject_late → r.fsm ≡ f)
unfolding process_record start_clip append_record
process_record_verdict f rec clip_ms now_ms out a v = (
  (λ h. ground arith, λ h. ground arith),
  (λ h. ground arith, λ h. ground arith),
  (λ h. ground arith, λ h. ground arith),
  λ h. ground arith,
)

-- A record that was just taken is refused when it comes again, and so is every older one.
pub process_record_duplicate :
    (f : Fsm) (rec old : MetaRecord) (clip_ms now_ms later_ms : ℤ) (out out' : ClipRecord)
    → rec.valid ≡ true
    → rec.seq + 1 < 2 ^ 64
    → (process_record f rec clip_ms now_ms out).action ≢ reject_late
    → old.valid ≡ true
    → old.seq ≤ rec.seq
    → let g = (process_record f rec clip_ms now_ms out).fsm in
      process_record g old clip_ms later_ms out'
      ≡ record { action = reject_late; fsm = g; out = out' }
unfolding process_record start_clip append_record
process_record_duplicate f rec old clip_ms now_ms later_ms out out' v fits taken ov le =
    ground arith

-- The idle check flushes exactly the clips whose last chunk is `idle_ms` old; what it flushes is
-- gone, and what it does not flush is untouched.
pub check_idle_verdict :
    (f : Fsm) (idle_ms now_ms : ℤ) (out : ClipRecord)
    → let r = check_idle f idle_ms now_ms out in
      ((r.action ≡ emit_partial)
        ↔ ((f.active ≡ true) × (idle_ms ≤ℤ now_ms -ℤ f.last_chunk_wall_ms)))
      × (r.action ≡ emit_partial → r.fsm ≡ reset)
      × (r.action ≢ emit_partial → (r.fsm ≡ f) × (r.out ≡ out) × (r.action ≡ nothing))
unfolding check_idle
check_idle_verdict f idle_ms now_ms out =
    ((λ h. ground arith, λ h. ground arith), λ h. ground arith, λ h. ground arith)
