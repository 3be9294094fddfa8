-- ===== src/Dispatcher/Config/Starts.antt =====
-- When applets/pipeline_dispatcher/pipeline_dispatcher.c starts the pipeline.
use stream_data_pipline.Prelude.{
  ℕ, ◌+◌, ◌<◌, ◌≡◌, ◌≢◌, ◌↔◌, refl, ap, ◌∙◌, sym, Bool, true, false, not, ◌||◌, &&_split, Option,
  none, some, List, [], ◌∷◌, ◌++◌, if◌then◌else◌, Bool-cases, inl, inr, arith, length,
  length-append, ltb,
}
use stream_data_pipline.Prelude.Bytes.{Bytes, is_empty}
use stream_data_pipline.Paths.{slash}
use stream_data_pipline.Dispatcher.{
  ExitCode, pd_exit_ok, pd_exit_setup_error, pd_exit_child_error, pd_exit_interrupted, Action,
  pd_pipeline_run,
}
use stream_data_pipline.Dispatcher.Config.{
  installs, Config, Host, Opt, Parse, configured, helped, misused, sibling_path, in_dir,
  before_slash, base_path, valid_uint_string, pd_config_parse, pd_config_validate, exit_number,
  pd_exit_bad_args, numbered, with_config, pipeline_dispatcher_main,
}

-- What is known of a configuration that is valid.
pub record IsSound (host : Host) (cfg : Config) : Type 0 where
  pub session : is_empty cfg.session_id ≡ false
  pub source : is_empty cfg.src_dir ≡ false
  pub db : is_empty cfg.db_path ≡ false
  pub dir : host.is_dir cfg.src_dir ≡ true
  pub ttl : valid_uint_string cfg.ttl true ≡ true
  pub clip_secs : valid_uint_string cfg.clip_secs false ≡ true
  pub idle_secs : valid_uint_string cfg.idle_secs false ≡ true
  pub can_merge : host.is_executable cfg.bin_stream_merge ≡ true
  pub can_parse : host.is_executable cfg.bin_log_parse ≡ true
  pub can_store : host.is_executable cfg.bin_clip_store ≡ true

passed : (b x : Bool) → (if b then false else x) ≡ true → (b ≡ false) × (x ≡ true)
passed true x h = cc
passed false x h = (refl, h)

neither : (a b : Bool) → (a || b) ≡ false → (a ≡ false) × (b ≡ false)
neither true b h = cc
neither false b h = (refl, h)

negated : (a : Bool) → not a ≡ false → a ≡ true
negated true h = refl
negated false h = cc

pd_config_validate-IsSound :
    (host : Host) (cfg : Config) → pd_config_validate host cfg ≡ true → IsSound host cfg
unfolding pd_config_validate
pd_config_validate-IsSound host cfg h =
    let (filled, h1) = passed _ _ h in
    let (dir, h2) = passed _ _ h1 in
    let (ttl, h3) = passed _ _ h2 in
    let (clip, h4) = passed _ _ h3 in
    let (idle, h5) = passed _ _ h4 in
    let (first, db) = neither _ _ filled in
    let (session, source) = neither _ _ first in
    let (merge, h6) = &&_split _ _ h5 in
    let (parse, store) = &&_split _ _ h6 in
    record {
      session = session;
      source = source;
      db = db;
      dir = negated _ dir;
      ttl = negated _ ttl;
      clip_secs = negated _ clip;
      idle_secs = negated _ idle;
      can_merge = merge;
      can_parse = parse;
      can_store = store;
    }

some_same : (a b : Bytes) → some a ≡ some b → a ≡ b
some_same a b h = ap (λ o. elim o [ none ↦ a | some t ↦ t ]) h

-- A text that is given on one branch of a test.
given :
    (b side : Bool) (text path : Bytes)
    → (if b then (if side then some text else none) else (if side then none else some text))
      ≡ some path
    → (b ≡ side) × (text ≡ path)
given true true text path h = (refl, some_same text path h)
given true false text path h = cc
given false true text path h = cc
given false false text path h = (refl, some_same text path h)

-- `sibling_path` gives a path that fits, with its NUL, and ends in a slash and the name.
pub sibling_path_within :
    (link : Option Bytes) (out_size : ℕ) (argv0 name path : Bytes)
    → sibling_path link out_size argv0 name ≡ some path
    → (length path < out_size) × (dir : Bytes) × (path ≡ dir ++ slash ∷ name)
unfolding sibling_path
sibling_path_within link out_size argv0 name path = within (before_slash (base_path link argv0))
  where
    within :
        (d : Option Bytes)
        → in_dir out_size d name ≡ some path
        → (length path < out_size) × (dir : Bytes) × (path ≡ dir ++ slash ∷ name)
    within none h =
        let text = b'.' ∷ slash ∷ name in
        let (fits, same) = given (ltb (length text) out_size) true text path h in
        (ground (arith, fits, ap length same), b'.' ∷ [], sym same)
    within (some dir) h =
        let text = dir ++ slash ∷ name in
        let l = length-append dir (slash ∷ name) in
        let (fits, same) =
          given (ltb out_size (length dir + 1 + length name + 1)) false text path h in
        (ground (arith, fits, l, ap length same), dir, sym same)

module _ (host : Host) (argv0 : Bytes) (opts : List Opt) (arguments : List Bytes) where
  -- If `pipeline_dispatcher_main` asks anything of the operating system for the pipeline, its options and
  -- arguments make a configuration that is valid: its three arguments are not empty, the second
  -- is a directory, the numbers are valid and the applets can be executed; the signal handlers are
  -- installed; and it runs the pipeline and exits with its exit code.
  pub pipeline_dispatcher_main-IsSound :
      (pipeline_dispatcher_main host argv0 opts arguments).1 ≢ []
      → (cfg : Config) × (pd_config_parse host.link argv0 opts arguments ≡ configured cfg)
        × IsSound host cfg
        × (installs host ≡ true)
        × (pipeline_dispatcher_main host argv0 opts arguments ≡ numbered (pd_pipeline_run host.os))
  unfolding pipeline_dispatcher_main
  pipeline_dispatcher_main-IsSound = started (pd_config_parse host.link argv0 opts arguments)
    where
      started :
          (q : Parse)
          → (with_config host q).1 ≢ []
          → (cfg : Config) × (q ≡ configured cfg)
            × IsSound host cfg
            × (installs host ≡ true)
            × (with_config host q ≡ numbered (pd_pipeline_run host.os))
      started helped h = absurd (h refl)
      started misused h = absurd (h refl)
      started (configured cfg) h = elim (Bool-cases (pd_config_validate host cfg)) [
        | inr bad ↦ absurd (h (ap (λ b. (gate b (installs host)).1) bad))
        | inl good ↦ elim (Bool-cases (installs host)) [
          | inr bad ↦
              absurd (h (ap (λ b. (gate b (installs host)).1) good ∙ ap (λ b. (gate true b).1) bad))
          | inl installed ↦ (
            cfg,
            refl,
            pd_config_validate-IsSound host cfg good,
            installed,
            ap (λ b. gate b (installs host)) good ∙ ap (gate true) installed,
          )
        ]
      ]
        where
          gate : Bool → Bool → ℕ × List Action
          gate valid handled =
              if not valid
              then (exit_number pd_exit_setup_error, [])
              else if not handled
              then (exit_number pd_exit_setup_error, [])
              else numbered (pd_pipeline_run host.os)

  other_number : (code : ExitCode) → exit_number code ≢ pd_exit_bad_args
  other_number pd_exit_ok h = omega arith
  other_number pd_exit_setup_error h = omega arith
  other_number pd_exit_child_error h = omega arith
  other_number pd_exit_interrupted h = omega arith

  -- `pipeline_dispatcher_main` exits with the code for bad arguments exactly if `pd_config_parse` returns
  -- -1.
  pub pipeline_dispatcher_main-misused :
      ((pipeline_dispatcher_main host argv0 opts arguments).0 ≡ pd_exit_bad_args)
      ↔ (pd_config_parse host.link argv0 opts arguments ≡ misused)
  unfolding pipeline_dispatcher_main
  pipeline_dispatcher_main-misused = (
    told (pd_config_parse host.link argv0 opts arguments),
    λ e. ap (λ q. (with_config host q).0) e,
  )
    where
      refused :
          (valid handled : Bool)
          → (if not valid
              then (exit_number pd_exit_setup_error, [])
              else if not handled
              then (exit_number pd_exit_setup_error, [])
              else numbered (pd_pipeline_run host.os)).0
            ≢ pd_exit_bad_args
      refused false handled = other_number pd_exit_setup_error
      refused true false = other_number pd_exit_setup_error
      refused true true = other_number (pd_pipeline_run host.os).0

      told : (q : Parse) → (with_config host q).0 ≡ pd_exit_bad_args → q ≡ misused
      told misused h = refl
      told helped h = absurd (other_number pd_exit_ok h)
      told (configured cfg) h = absurd (refused (pd_config_validate host cfg) (installs host) h)
