-- ===== src/Dispatcher/Signal.antt =====
-- applets/pipeline_dispatcher/pd_signal.c. The flag `interrupted` is a Boolean, and the signals with the
-- handler of this file are a test on signals.
use stream_data_pipline.Prelude.{
  ◌≡◌, refl, Bool, true, false, not, ◌||◌, Option, none, some, if◌then◌else◌,
}

pub data Signal : Type 0 where
  sigint sigterm : Signal

abbrev pub same_signal : Signal → Signal → Bool
same_signal sigint sigint = true
same_signal sigterm sigterm = true
same_signal sigint sigterm = false
same_signal sigterm sigint = false

-- `handle_signal` on the flag.
abbrev pub handle_signal : Bool → Bool
handle_signal interrupted = true

abbrev handled_too : Signal → (Signal → Bool) → Signal → Bool
handled_too signal handled s = same_signal s signal || handled s

-- The two calls of `sigaction`, by whether they go well.
abbrev after_calls : Bool → Bool → (Signal → Bool) → Bool × (Signal → Bool)
after_calls first second handled =
    if not first
    then (false, handled)
    else if not second
    then (false, handled_too sigint handled)
    else (true, handled_too sigterm (handled_too sigint handled))

-- `pd_signal_install`, with true for 0, and the signals that are handled then; `sigaction_ok` is what
-- `sigaction` answers.
abbrev pub pd_signal_install : (Signal → Bool) → (Signal → Bool) → Bool × (Signal → Bool)
pd_signal_install sigaction_ok handled =
    after_calls (sigaction_ok sigint) (sigaction_ok sigterm) handled

-- A signal that arrives: the flag behind the handler, or the end of the process.
abbrev pub arrives : (Signal → Bool) → Signal → Bool → Option Bool
arrives handled signal interrupted =
    if handled signal then some (handle_signal interrupted) else none

calls-arrives :
    (first second : Bool) (handled : Signal → Bool) (signal : Signal) (interrupted : Bool)
    → (after_calls first second handled).0 ≡ true
    → arrives (after_calls first second handled).1 signal interrupted ≡ some true
calls-arrives false second handled signal interrupted h = cc
calls-arrives true false handled signal interrupted h = cc
calls-arrives true true handled sigint interrupted h = refl
calls-arrives true true handled sigterm interrupted h = refl

-- Once the handlers are installed, neither signal ends the process, and each sets the flag.
pd_signal_install-arrives :
    (sigaction_ok handled : Signal → Bool) (signal : Signal) (interrupted : Bool)
    → (pd_signal_install sigaction_ok handled).0 ≡ true
    → arrives (pd_signal_install sigaction_ok handled).1 signal interrupted ≡ some true
pd_signal_install-arrives sigaction_ok handled signal interrupted h =
    calls-arrives (sigaction_ok sigint) (sigaction_ok sigterm) handled signal interrupted h
