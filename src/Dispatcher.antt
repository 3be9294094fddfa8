-- ===== src/Dispatcher.antt =====
-- applets/pipeline_dispatcher: pd_pipeline.c and pd_spawn.c. The dispatcher opens two pipes, starts
-- three children, closes its ends of the pipes and waits. What the operating system answers is a
-- parameter; what the dispatcher asks of it is a list of actions. A descriptor or a pid of -1 is
-- `none`, and a pid that `fork` returns to the parent is positive.
pub mod Wait
pub mod Resources
pub mod Reaping
pub mod Config
pub mod Spawn
pub mod Signal
mod Tests
use stream_data_pipline.Prelude.{
  ℕ, zero, suc, Bool, true, false, Option, none, some, List, [], ◌∷◌, ◌++◌, map, ◌==◌,
  if◌then◌else◌,
}

-- `pd_exit_code_t`, as far as these two files return it
pub data ExitCode : Type 0 where
  pd_exit_ok pd_exit_setup_error pd_exit_child_error pd_exit_interrupted : ExitCode

-- What `waitpid` answers for a child; `wait_interrupted` is EINTR while the interrupt flag is set.
pub data WaitAnswer : Type 0 where
  exited : ℕ → WaitAnswer
  killed : ℕ → WaitAnswer
  wait_failed : WaitAnswer
  wait_interrupted : WaitAnswer

pub data Action : Type 0 where
  opened closed spawned signalled reaped : ℕ → Action

-- `collected` is how the loop around `waitpid` in `pd_kill_children` ends.
pub record Os : Type 0 where
  pub pipe1 : Option (ℕ × ℕ)
  pub pipe2 : Option (ℕ × ℕ)
  pub fork : ℕ → Option ℕ
  pub interrupted : Bool
  pub wait : ℕ → WaitAnswer
  pub collected : ℕ → Bool

abbrev pub Children : Type 0
Children = List (Option ℕ)

-- The children as `pd_pipeline_init` leaves them; their names are left out.
abbrev pub pd_pipeline_init : Children
pd_pipeline_init = none ∷ none ∷ none ∷ []

-- The first loop of `pd_kill_children`.
pub signals : Children → List Action
signals [] = []
signals (none ∷ children) = signals children
signals (some pid ∷ children) = signalled pid ∷ signals children

-- The second loop of `pd_kill_children`.
pub reapings : Os → Children → List Action
reapings os [] = []
reapings os (none ∷ children) = reapings os children
reapings os (some pid ∷ children) =
    if os.collected pid then reaped pid ∷ reapings os children else reapings os children

-- `pd_kill_children`
pub pd_kill_children : Os → Children → List Action
pd_kill_children os children = signals children ++ reapings os children

abbrev pub then_do : Action → ExitCode × List Action → ExitCode × List Action
then_do a (code, trace) = (code, a ∷ trace)

abbrev pub on_exit : ℕ → ExitCode → ExitCode
on_exit zero rc = rc
on_exit (suc code) rc = pd_exit_child_error

-- A round of the loop of `pd_wait_children` on what `waitpid` answers, and the rounds after it. `seen`
-- are the children in front, with -1 for those waited for.
abbrev pub on_wait :
    Os
    → ℕ
    → Children
    → ExitCode
    → Children
    → (Children → ExitCode → ExitCode × List Action)
    → WaitAnswer
    → ExitCode × List Action
on_wait os pid seen rc children next (exited code) =
    then_do (reaped pid) (next (seen ++ none ∷ []) (on_exit code rc))
on_wait os pid seen rc children next (killed signal) =
    then_do (reaped pid) (next (seen ++ none ∷ []) pd_exit_child_error)
on_wait os pid seen rc children next wait_failed = next (seen ++ some pid ∷ []) pd_exit_child_error
on_wait os pid seen rc children next wait_interrupted =
    (pd_exit_interrupted, pd_kill_children os (seen ++ some pid ∷ children))

pub wait_loop : Os → Children → ExitCode → Children → ExitCode × List Action
wait_loop os seen rc [] = (rc, [])
wait_loop os seen rc (none ∷ children) = wait_loop os (seen ++ none ∷ []) rc children
wait_loop os seen rc (some pid ∷ children) =
    on_wait os pid seen rc children (λ seen' rc'. wait_loop os seen' rc' children) (os.wait pid)

-- `pd_wait_children`
pub pd_wait_children : Os → Children → ExitCode × List Action
pd_wait_children os children = wait_loop os [] pd_exit_ok children

-- The four descriptors in `pd_pipeline_t`.
abbrev pub Pipes : Type 0
Pipes = List (Option ℕ)

-- `close_pipe_fds`: each descriptor that is not -1 is closed and set to -1.
pub close_pipe_fds : Pipes → List Action × Pipes
close_pipe_fds [] = ([], [])
close_pipe_fds (none ∷ fds) = let (trace, rest) = close_pipe_fds fds in (trace, none ∷ rest)
close_pipe_fds (some fd ∷ fds) =
    let (trace, rest) = close_pipe_fds fds in (closed fd ∷ trace, none ∷ rest)

-- `pd_pipeline_cleanup`
abbrev pub cleanup : Os → Pipes → Children → List Action
cleanup os fds children = (close_pipe_fds fds).0 ++ pd_kill_children os children

-- `pd_pipeline_run` behind the starting of the children, on whether the interrupt flag is set.
abbrev pub supervise : Os → Pipes → Children → Bool → ExitCode × List Action
supervise os fds children true =
    let (trace, left) = close_pipe_fds fds in
    (pd_exit_interrupted, trace ++ cleanup os left children)
supervise os fds children false =
    let (trace, left) = close_pipe_fds fds in
    let (code, more) = pd_wait_children os children in (code, trace ++ more)

-- The three calls of `pd_spawn_child`, the last one first, each on what `fork` answers.
abbrev pub start_third : Os → Pipes → ℕ → ℕ → Option ℕ → ExitCode × List Action
start_third os fds p0 p1 none =
    (pd_exit_setup_error, cleanup os fds (some p0 ∷ some p1 ∷ none ∷ []))
start_third os fds p0 p1 (some p2) =
    then_do (spawned p2) (supervise os fds (some p0 ∷ some p1 ∷ some p2 ∷ []) os.interrupted)

abbrev pub start_second : Os → Pipes → ℕ → Option ℕ → ExitCode × List Action
start_second os fds p0 none = (pd_exit_setup_error, cleanup os fds (some p0 ∷ none ∷ none ∷ []))
start_second os fds p0 (some p1) = then_do (spawned p1) (start_third os fds p0 p1 (os.fork 2))

abbrev pub start_first : Os → Pipes → Option ℕ → ExitCode × List Action
start_first os fds none = (pd_exit_setup_error, cleanup os fds pd_pipeline_init)
start_first os fds (some p0) = then_do (spawned p0) (start_second os fds p0 (os.fork 1))

-- The two calls of `pipe`, the second one first.
abbrev pub open_second : Os → ℕ → ℕ → Option (ℕ × ℕ) → ExitCode × List Action
open_second os r1 w1 none =
    (pd_exit_setup_error, (close_pipe_fds (some r1 ∷ some w1 ∷ none ∷ none ∷ [])).0)
open_second os r1 w1 (some (r2, w2)) =
    then_do (opened r2) (
      then_do (opened w2) (start_first os (some r1 ∷ some w1 ∷ some r2 ∷ some w2 ∷ []) (os.fork 0)))

abbrev pub open_first : Os → Option (ℕ × ℕ) → ExitCode × List Action
open_first os none = (pd_exit_setup_error, [])
open_first os (some (r1, w1)) =
    then_do (opened r1) (then_do (opened w1) (open_second os r1 w1 os.pipe2))

-- `pd_pipeline_run`: the exit code, and all that was asked of the operating system.
unfoldable pub pd_pipeline_run : Os → ExitCode × List Action
pd_pipeline_run os = open_first os os.pipe1
