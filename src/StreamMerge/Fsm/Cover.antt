-- ===== src/StreamMerge/Fsm/Cover.antt =====
-- The clips of a session of stream_merge against its records: the specification of the machine.
use stream_data_pipline.Prelude.{
  ◌≡◌, refl, ap, sym, ◌∙◌, Bool, true, false, not, ◌&&◌, List, [], ◌∷◌, ◌++◌, arith, append_assoc,
  append-nil, if◌then◌else◌, Option, none, some, Bool-cases, inl, inr, ◌||◌, ltb, ◌==◌,
}
use stream_data_pipline.Prelude.Int.{ℤ, leb_ℤ, ltb_ℤ, ◌-ℤ◌}
use stream_data_pipline.StreamMerge.Fsm.{
  MetaRecord, Fsm, Action, nothing, reject_late, emit_complete, emit_partial, reset, process_record,
  check_idle, flush_final, snapshot_clip, start_clip, append_record,
}
use stream_data_pipline.StreamMerge.Fsm.Clips.{
  Group, members, Covers, Collects, single, extend, start_clip-Collects, append_record-Collects,
}
use stream_data_pipline.StreamMerge.Fsm.Runs.{
  Input, meta, tick, finish, Emitted, emissions, step, run,
}

abbrev refused : Action → Bool
refused reject_late = true
refused nothing = false
refused emit_complete = false
refused emit_partial = false

abbrev pub flat : List Group → List MetaRecord
flat [] = []
flat (g ∷ gs) = members g ++ flat gs

-- Each emitted clip stands for the group at its place.
abbrev pub AllCover : ℤ → List Group → List Emitted → Type 0
AllCover clip_ms [] [] = Unit
AllCover clip_ms [] (e ∷ es) = ⊥
AllCover clip_ms (g ∷ gs) [] = ⊥
AllCover clip_ms (g ∷ gs) (e ∷ es) = Covers clip_ms g e.clip × AllCover clip_ms gs es

-- The group that is being collected, if there is one.
abbrev pub Pending : Type 0
Pending = Option Group

abbrev pub pending_members : Pending → List MetaRecord
pending_members none = []
pending_members (some g) = members g

abbrev pub Holds : ℤ → Pending → Fsm → Type 0
Holds clip_ms none f = f.active ≡ false
Holds clip_ms (some g) f = Collects clip_ms g f

AllCover-append :
    (clip_ms : ℤ) (gs hs : List Group) (es fs : List Emitted)
    → AllCover clip_ms gs es
    → AllCover clip_ms hs fs
    → AllCover clip_ms (gs ++ hs) (es ++ fs)
AllCover-append clip_ms [] hs [] fs a b = b
AllCover-append clip_ms [] hs (e ∷ es) fs a b = absurd a
AllCover-append clip_ms (g ∷ gs) hs [] fs a b = absurd a
AllCover-append clip_ms (g ∷ gs) hs (e ∷ es) fs a b =
    (a.0, AllCover-append clip_ms gs hs es fs a.1 b)

flat-append : (gs hs : List Group) → flat (gs ++ hs) ≡ flat gs ++ flat hs
flat-append [] hs = refl
flat-append (g ∷ gs) hs = simp (flat-append gs hs, append_assoc)

-- From a machine that holds `p`, the records `ts` have been taken and the clips `es` emitted: they
-- stand for `groups`, and the machine `f` holds the records that are left.
pub record Progress (clip_ms : ℤ) (p : Pending) (ts : List MetaRecord) (f : Fsm) (es : List Emitted)
    : Type 0 where
  pub groups : List Group
  pub pending : Pending
  pub covers : AllCover clip_ms groups es
  pub holds : Holds clip_ms pending f
  pub partition : pending_members p ++ ts ≡ flat groups ++ pending_members pending

module _ (clip_ms : ℤ) where
  stay : (p : Pending) (f : Fsm) → Holds clip_ms p f → Progress clip_ms p [] f []
  stay p f h = record { groups = []; pending = p; covers = tt; holds = h; partition = append-nil _ }

  opened :
      (now_ms : ℤ) (rec : MetaRecord) → Progress clip_ms none (rec ∷ []) (start_clip rec now_ms) []
  opened now_ms rec = record {
    groups = [];
    pending = some (single rec);
    covers = tt;
    holds = start_clip-Collects clip_ms now_ms rec;
    partition = refl;
  }

  extended :
      (now_ms : ℤ) (g : Group) (f : Fsm) (rec : MetaRecord)
      → Collects clip_ms (extend g rec) (append_record f rec now_ms)
      → Progress clip_ms (some g) (rec ∷ []) (append_record f rec now_ms) []
  extended now_ms g f rec c = record {
    groups = [];
    pending = some (extend g rec);
    covers = tt;
    holds = c;
    partition = refl;
  }

  cut :
      (now_ms : ℤ) (g : Group) (f : Fsm) (rec : MetaRecord) (complete : Bool)
      → Collects clip_ms g f
      → Progress clip_ms
          (some g)
          (rec ∷ [])
          (start_clip rec now_ms)
          (record { clip = snapshot_clip f; complete = complete } ∷ [])
  cut now_ms g f rec complete c = record {
    groups = g ∷ [];
    pending = some (single rec);
    covers = (c.covers, tt);
    holds = start_clip-Collects clip_ms now_ms rec;
    partition = rw append-nil;
  }

  closed :
      (g : Group) (f : Fsm) (complete : Bool)
      → Collects clip_ms g f
      → Progress clip_ms
          (some g)
          []
          reset
          (record { clip = snapshot_clip f; complete = complete } ∷ [])
  closed g f complete c = record {
    groups = g ∷ [];
    pending = none;
    covers = (c.covers, tt);
    holds = refl;
    partition = sym (append-nil (members g ++ []));
  }

  joined :
      (p : Pending) (ts us : List MetaRecord) (f f' : Fsm) (es fs : List Emitted)
      (a : Progress clip_ms p ts f es)
      → Progress clip_ms a.pending us f' fs
      → Progress clip_ms p (ts ++ us) f' (es ++ fs)
  joined p ts us f f' es fs a b = record {
    groups = a.groups ++ b.groups;
    pending = b.pending;
    covers = AllCover-append clip_ms a.groups b.groups es fs a.covers b.covers;
    holds = b.holds;
    partition =
        sym (append_assoc (pending_members p) ts us)
        ∙ ap (λ l. l ++ us) a.partition
        ∙ append_assoc (flat a.groups) (pending_members a.pending) us
        ∙ ap (λ l. flat a.groups ++ l) b.partition
        ∙ sym (append_assoc (flat a.groups) (flat b.groups) (pending_members b.pending))
        ∙ ap (λ l. l ++ pending_members b.pending) (sym (flat-append a.groups b.groups));
  }

module _ (clip_ms idle_ms : ℤ) where
  -- The records of an input that the machine takes: the valid ones that it does not refuse.
  unfoldable pub takes : Fsm → Input → List MetaRecord
  takes f (meta rec now_ms) =
      if rec.valid && not (refused (step clip_ms idle_ms f (meta rec now_ms)).action)
      then rec ∷ []
      else []
  takes f (tick now_ms) = []
  takes f finish = []

  unfoldable pub taken : Fsm → List Input → List MetaRecord
  unfolding takes
  taken f [] = []
  taken f (i ∷ is) = takes f i ++ taken (step clip_ms idle_ms f i).fsm is

  active_of_some : (g : Group) (f : Fsm) → Collects clip_ms g f → f.active ≡ true
  unfolding snapshot_clip
  active_of_some g f c = c.covers.is_active

  abbrev Advances : Pending → Fsm → Input → Type 0
  Advances p f i =
      let r = step clip_ms idle_ms f i in
      Progress clip_ms p (takes f i) r.fsm (emissions r.action r.out)

  step_idle : (f : Fsm) (i : Input) → f.active ≡ false → Advances none f i
  unfolding step takes emissions process_record check_idle flush_final
  step_idle f (meta rec now_ms) a = elim (Bool-cases rec.valid) [
    | inl v ↦ simp (v, a) (opened clip_ms now_ms rec)
    | inr v ↦ simp v (stay clip_ms none f a)
  ]
  step_idle f (tick now_ms) a = simp a (stay clip_ms none f a)
  step_idle f finish a = simp a (stay clip_ms none f a)

  step_meta :
      (g : Group) (f : Fsm) (rec : MetaRecord) (now_ms : ℤ)
      → Collects clip_ms g f
      → rec.valid ≡ true
      → Advances (some g) f (meta rec now_ms)
  unfolding step takes emissions process_record
  step_meta g f rec now_ms c v =
      let a = active_of_some g f c in
      elim (Bool-cases (ltb rec.seq f.expected_seq)) [
        | inl late ↦ simp (v, a, late) (stay clip_ms (some g) f c)
        | inr early ↦
            elim (Bool-cases
              (ltb f.expected_seq rec.seq || not (rec.offset == f.expected_offset))) [
                | inl gap ↦
                    simp (v, a, early, gap, c.covers.is_active) (cut clip_ms now_ms g f rec false c)
                | inr next ↦ elim (Bool-cases (leb_ℤ clip_ms (rec.ts_ms -ℤ f.start_ts_ms))) [
                  | inl over ↦
                      simp (v, a, early, next, over, c.covers.is_active)
                        (cut clip_ms now_ms g f rec true c)
                  | inr inside ↦
                      simp (v, a, early, next, inside)
                        (extended clip_ms now_ms g f rec (
                          append_record-Collects clip_ms now_ms g f rec c (ground arith)
                            (ground arith) (ground arith)))
                ]
              ]
      ]

  step_some : (g : Group) (f : Fsm) (i : Input) → Collects clip_ms g f → Advances (some g) f i
  unfolding step takes emissions process_record check_idle flush_final
  step_some g f (meta rec now_ms) c = elim (Bool-cases rec.valid) [
    | inl v ↦ step_meta g f rec now_ms c v
    | inr v ↦ simp v (stay clip_ms (some g) f c)
  ]
  step_some g f (tick now_ms) c =
      let a = active_of_some g f c in
      elim (Bool-cases (ltb_ℤ (now_ms -ℤ f.last_chunk_wall_ms) idle_ms)) [
        | inl early ↦ simp (a, early) (stay clip_ms (some g) f c)
        | inr late ↦ simp (a, late, c.covers.is_active) (closed clip_ms g f false c)
      ]
  step_some g f finish c =
      simp (active_of_some g f c, c.covers.is_active) (closed clip_ms g f true c)

  step-Progress : (p : Pending) (f : Fsm) (i : Input) → Holds clip_ms p f → Advances p f i
  step-Progress none f i h = step_idle f i h
  step-Progress (some g) f i h = step_some g f i h

  -- At every point of a session the clips emitted so far stand, each for a gapless group inside one
  -- window, for the records taken so far in their order, except those that the machine still holds.
  pub run-Progress :
      (is : List Input) (p : Pending) (f : Fsm)
      → Holds clip_ms p f
      → let (f', es) = run clip_ms idle_ms f is in Progress clip_ms p (taken f is) f' es
  unfolding run taken
  run-Progress [] p f h = stay clip_ms p f h
  run-Progress (i ∷ is) p f h =
      let a = step-Progress p f i h in
      joined clip_ms p _ _ _ _ _ _ a
        (run-Progress is a.pending (step clip_ms idle_ms f i).fsm a.holds)
