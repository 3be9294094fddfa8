-- ===== src/StreamMerge/Fsm/Clips.antt =====
-- What a clip of sm_fsm.c promises: the records that it stands for, in order, without a gap.
use stream_data_pipline.Prelude.{ℕ, ◌≡◌, refl, ◌∙◌, true, List, [], ◌∷◌, ◌++◌}
use stream_data_pipline.Prelude.Int.{ℤ, ◌-ℤ◌, ◌<ℤ◌}
use stream_data_pipline.StreamMerge.Events.{EventSet, add_all}
use stream_data_pipline.StreamMerge.Fsm.{
  MetaRecord, ClipRecord, Fsm, add_u64, snapshot_clip, start_clip, append_record,
}

-- A non-empty run of records.
pub record Group : Type 0 where
  pub first : MetaRecord
  pub later : List MetaRecord

abbrev pub members : Group → List MetaRecord
members g = g.first ∷ g.later

abbrev pub last_of : MetaRecord → List MetaRecord → MetaRecord
last_of r [] = r
last_of r (x ∷ xs) = last_of x xs

-- The sum of the lengths, as `uint64_t` additions.
abbrev pub total_from : ℕ → List MetaRecord → ℕ
total_from n [] = n
total_from n (x ∷ xs) = total_from (add_u64 n x.length) xs

-- The tags of the records, each added to those before it.
abbrev pub tags_from : EventSet → List MetaRecord → EventSet
tags_from s [] = s
tags_from s (x ∷ xs) = tags_from (add_all s x.events).1 xs

-- `x` carries the bytes right behind those of `r`, and the next sequence number.
abbrev pub Follows : MetaRecord → MetaRecord → Type 0
Follows r x = (x.seq ≡ add_u64 r.seq 1) × (x.offset ≡ add_u64 r.offset r.length)

abbrev pub Gapless : MetaRecord → List MetaRecord → Type 0
Gapless r [] = Unit
Gapless r (x ∷ xs) = Follows r x × Gapless x xs

-- Every later record lies less than `clip_ms` behind the first one.
abbrev pub InWindow : ℤ → MetaRecord → List MetaRecord → Type 0
InWindow clip_ms r [] = Unit
InWindow clip_ms r (x ∷ xs) = (x.ts_ms -ℤ r.ts_ms <ℤ clip_ms) × InWindow clip_ms r xs

-- The clip `c` stands for the records of `g`.
pub record Covers (clip_ms : ℤ) (g : Group) (c : ClipRecord) : Type 0 where
  pub is_active : c.active ≡ true
  pub starts : c.start_ts_ms ≡ g.first.ts_ms
  pub ends : c.end_ts_ms ≡ (last_of g.first g.later).ts_ms
  pub from : c.start_offset ≡ g.first.offset
  pub total : c.total_length ≡ total_from g.first.length g.later
  pub tags : c.events ≡ tags_from g.first.events g.later
  pub gapless : Gapless g.first g.later
  pub in_window : InWindow clip_ms g.first g.later

-- The machine has collected the records of `g` and waits for the one behind them.
pub record Collects (clip_ms : ℤ) (g : Group) (f : Fsm) : Type 0 where
  pub covers : Covers clip_ms g (snapshot_clip f)
  pub next_seq : f.expected_seq ≡ add_u64 (last_of g.first g.later).seq 1
  pub next_offset :
      f.expected_offset ≡ add_u64 (last_of g.first g.later).offset (last_of g.first g.later).length

last_of-append :
    (r : MetaRecord) (xs : List MetaRecord) (x : MetaRecord) → last_of r (xs ++ x ∷ []) ≡ x
last_of-append r [] x = refl
last_of-append r (y ∷ ys) x = last_of-append y ys x

total_from-append :
    (n : ℕ) (xs : List MetaRecord) (x : MetaRecord)
    → total_from n (xs ++ x ∷ []) ≡ add_u64 (total_from n xs) x.length
total_from-append n [] x = refl
total_from-append n (y ∷ ys) x = total_from-append (add_u64 n y.length) ys x

tags_from-append :
    (s : EventSet) (xs : List MetaRecord) (x : MetaRecord)
    → tags_from s (xs ++ x ∷ []) ≡ (add_all (tags_from s xs) x.events).1
tags_from-append s [] x = refl
tags_from-append s (y ∷ ys) x = tags_from-append (add_all s y.events).1 ys x

Gapless-append :
    (r : MetaRecord) (xs : List MetaRecord) (x : MetaRecord)
    → Gapless r xs
    → Follows (last_of r xs) x
    → Gapless r (xs ++ x ∷ [])
Gapless-append r [] x g h = (h, tt)
Gapless-append r (y ∷ ys) x g h = (g.0, Gapless-append y ys x g.1 h)

InWindow-append :
    (clip_ms : ℤ) (r : MetaRecord) (xs : List MetaRecord) (x : MetaRecord)
    → InWindow clip_ms r xs
    → x.ts_ms -ℤ r.ts_ms <ℤ clip_ms
    → InWindow clip_ms r (xs ++ x ∷ [])
InWindow-append clip_ms r [] x g h = (h, tt)
InWindow-append clip_ms r (y ∷ ys) x g h = (g.0, InWindow-append clip_ms r ys x g.1 h)

abbrev pub single : MetaRecord → Group
single rec = record { first = rec; later = [] }

abbrev pub extend : Group → MetaRecord → Group
extend g rec = record g { later = g.later ++ rec ∷ [] }

-- A new window holds the record that opened it.
pub start_clip-Collects :
    (clip_ms now_ms : ℤ) (rec : MetaRecord) → Collects clip_ms (single rec) (start_clip rec now_ms)
unfolding start_clip snapshot_clip
start_clip-Collects clip_ms now_ms rec = record {
  covers = record {
    is_active = refl;
    starts = refl;
    ends = refl;
    from = refl;
    total = refl;
    tags = refl;
    gapless = tt;
    in_window = tt;
  };
  next_seq = refl;
  next_offset = refl;
}

-- A record that comes next, inside the window, extends the group.
pub append_record-Collects :
    (clip_ms now_ms : ℤ) (g : Group) (f : Fsm) (rec : MetaRecord)
    → Collects clip_ms g f
    → rec.seq ≡ f.expected_seq
    → rec.offset ≡ f.expected_offset
    → rec.ts_ms -ℤ f.start_ts_ms <ℤ clip_ms
    → Collects clip_ms (extend g rec) (append_record f rec now_ms)
unfolding append_record snapshot_clip
append_record-Collects clip_ms now_ms g f rec c hs ho hw = record {
  covers = record {
    is_active = c.covers.is_active;
    starts = c.covers.starts;
    ends = rw last_of-append;
    from = c.covers.from;
    total = rw (total_from-append, ← c.covers.total);
    tags = rw (tags_from-append, ← c.covers.tags);
    gapless =
        Gapless-append g.first g.later rec c.covers.gapless (hs ∙ c.next_seq, ho ∙ c.next_offset);
    in_window =
        InWindow-append clip_ms g.first g.later rec c.covers.in_window (rw (← c.covers.starts) hw);
  };
  next_seq = rw last_of-append;
  next_offset = rw last_of-append;
}
