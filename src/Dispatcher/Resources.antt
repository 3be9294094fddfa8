-- ===== src/Dispatcher/Resources.antt =====
-- The dispatcher gives back what it takes (pd_pipeline.c and pd_spawn.c): descriptors are closed and
-- children are reaped, on every path.
use stream_data_pipline.Prelude.{
  ℕ, suc, ◌+◌, ◌≡◌, refl, ◌∙◌, Bool, true, false, ◌&&◌, Option, none, some, List, [], ◌∷◌, ◌++◌,
  arith, ◌==◌, if◌then◌else◌, Bool-cases, inl, inr,
}
use stream_data_pipline.Dispatcher.{
  ExitCode, pd_exit_ok, pd_exit_child_error, WaitAnswer, exited, killed, wait_failed,
  wait_interrupted, Os, Children, Action, opened, closed, spawned, signalled, reaped, on_exit,
  on_wait, wait_loop, pd_wait_children, signals, reapings, pd_kill_children, close_pipe_fds, Pipes,
  cleanup, supervise, start_first, start_second, start_third, open_first, open_second,
  pd_pipeline_run,
}

abbrev kind : Action → ℕ × ℕ
kind (opened n) = (0, n)
kind (closed n) = (1, n)
kind (spawned n) = (2, n)
kind (signalled n) = (3, n)
kind (reaped n) = (4, n)

abbrev pub is_action : Action → Action → Bool
is_action a b = (kind a).0 == (kind b).0 && (kind a).1 == (kind b).1

-- How often an action stands in a list of actions.
abbrev pub count : Action → List Action → ℕ
count a [] = 0
count a (x ∷ xs) = if is_action a x then suc (count a xs) else count a xs

pub count-append : (a : Action) (xs ys : List Action) → count a (xs ++ ys) ≡ count a xs + count a ys
count-append a [] ys = omega arith
count-append a (x ∷ xs) ys = ground (arith, count-append a xs ys)

-- Actions that neither open nor close this descriptor.
abbrev IsQuiet : ℕ → List Action → Type 0
IsQuiet fd t = (count (opened fd) t ≡ 0) × (count (closed fd) t ≡ 0)

append-IsQuiet :
    (fd : ℕ) (xs ys : List Action) → IsQuiet fd xs → IsQuiet fd ys → IsQuiet fd (xs ++ ys)
append-IsQuiet fd xs ys h k = (
  omega (arith, count-append (opened fd) xs ys, h.0, k.0),
  omega (arith, count-append (closed fd) xs ys, h.1, k.1),
)

signals-IsQuiet : (fd : ℕ) (cs : Children) → IsQuiet fd (signals cs)
unfolding signals
signals-IsQuiet fd [] = (refl, refl)
signals-IsQuiet fd (none ∷ cs) = signals-IsQuiet fd cs
signals-IsQuiet fd (some pid ∷ cs) = signals-IsQuiet fd cs

reapings-IsQuiet : (fd : ℕ) (os : Os) (cs : Children) → IsQuiet fd (reapings os cs)
unfolding reapings
reapings-IsQuiet fd os [] = (refl, refl)
reapings-IsQuiet fd os (none ∷ cs) = reapings-IsQuiet fd os cs
reapings-IsQuiet fd os (some pid ∷ cs) = elim (Bool-cases (os.collected pid)) [
  | inl yes' ↦ rw yes' (reapings-IsQuiet fd os cs)
  | inr no' ↦ rw no' (reapings-IsQuiet fd os cs)
]

kill-IsQuiet : (fd : ℕ) (os : Os) (cs : Children) → IsQuiet fd (pd_kill_children os cs)
unfolding pd_kill_children
kill-IsQuiet fd os cs =
    append-IsQuiet fd (signals cs) (reapings os cs) (signals-IsQuiet fd cs)
      (reapings-IsQuiet fd os cs)

round-IsQuiet :
    (fd : ℕ) (os : Os) (pid : ℕ) (seen : Children) (rc : ExitCode) (cs : Children)
    (next : Children → ExitCode → ExitCode × List Action) (a : WaitAnswer)
    → ((s : Children) (c : ExitCode) → IsQuiet fd (next s c).1)
    → IsQuiet fd (on_wait os pid seen rc cs next a).1
round-IsQuiet fd os pid seen rc cs next (exited n) ih = ih (seen ++ none ∷ []) (on_exit n rc)
round-IsQuiet fd os pid seen rc cs next (killed n) ih = ih (seen ++ none ∷ []) pd_exit_child_error
round-IsQuiet fd os pid seen rc cs next wait_failed ih =
    ih (seen ++ some pid ∷ []) pd_exit_child_error
round-IsQuiet fd os pid seen rc cs next wait_interrupted ih =
    kill-IsQuiet fd os (seen ++ some pid ∷ cs)

loop-IsQuiet :
    (fd : ℕ) (os : Os) (seen : Children) (rc : ExitCode) (cs : Children)
    → IsQuiet fd (wait_loop os seen rc cs).1
unfolding wait_loop
loop-IsQuiet fd os seen rc [] = (refl, refl)
loop-IsQuiet fd os seen rc (none ∷ cs) = loop-IsQuiet fd os (seen ++ none ∷ []) rc cs
loop-IsQuiet fd os seen rc (some pid ∷ cs) =
    round-IsQuiet fd os pid seen rc cs (λ s c. wait_loop os s c cs) (os.wait pid)
      (λ s c. loop-IsQuiet fd os s c cs)

-- How often a descriptor stands among those that are open.
abbrev held : ℕ → Pipes → ℕ
held fd [] = 0
held fd (none ∷ fds) = held fd fds
held fd (some x ∷ fds) = if fd == x then suc (held fd fds) else held fd fds

-- The descriptors are closed once each, and none is opened.
abbrev Closes : ℕ → Pipes → List Action → Type 0
Closes fd fds t = (count (opened fd) t ≡ 0) × (count (closed fd) t ≡ held fd fds)

closed_all : (fd : ℕ) (fds : Pipes) → Closes fd fds (close_pipe_fds fds).0
unfolding close_pipe_fds
closed_all fd [] = (refl, refl)
closed_all fd (none ∷ xs) = closed_all fd xs
closed_all fd (some x ∷ xs) = let c = closed_all fd xs in ground (arith, c.0, c.1)

-- Behind that none is open.
none_held : (fd : ℕ) (fds : Pipes) → held fd (close_pipe_fds fds).1 ≡ 0
unfolding close_pipe_fds
none_held fd [] = refl
none_held fd (none ∷ xs) = none_held fd xs
none_held fd (some x ∷ xs) = none_held fd xs

Closes-then :
    (fd : ℕ) (fds : Pipes) (t : List Action)
    → IsQuiet fd t
    → Closes fd fds ((close_pipe_fds fds).0 ++ t)
Closes-then fd fds t q =
    let trace = (close_pipe_fds fds).0 in
    let c = closed_all fd fds in
    (
      omega (arith, count-append (opened fd) trace t, c.0, q.0),
      omega (arith, count-append (closed fd) trace t, c.1, q.1),
    )

cleanup-Closes :
    (fd : ℕ) (os : Os) (fds : Pipes) (cs : Children) → Closes fd fds (cleanup os fds cs)
cleanup-Closes fd os fds cs = Closes-then fd fds (pd_kill_children os cs) (kill-IsQuiet fd os cs)

supervise-Closes :
    (fd : ℕ) (os : Os) (fds : Pipes) (cs : Children) (stop : Bool)
    → Closes fd fds (supervise os fds cs stop).1
unfolding pd_wait_children
supervise-Closes fd os fds cs true =
    let (trace, left) = close_pipe_fds fds in
    let c = cleanup-Closes fd os left cs in
    Closes-then fd fds (cleanup os left cs) (c.0, c.1 ∙ none_held fd fds)
supervise-Closes fd os fds cs false =
    Closes-then fd fds (wait_loop os [] pd_exit_ok cs).1 (loop-IsQuiet fd os [] pd_exit_ok cs)

third-Closes :
    (fd : ℕ) (os : Os) (fds : Pipes) (p0 p1 : ℕ) (o : Option ℕ)
    → Closes fd fds (start_third os fds p0 p1 o).1
third-Closes fd os fds p0 p1 none = cleanup-Closes fd os fds (some p0 ∷ some p1 ∷ none ∷ [])
third-Closes fd os fds p0 p1 (some p2) =
    supervise-Closes fd os fds (some p0 ∷ some p1 ∷ some p2 ∷ []) os.interrupted

second-Closes :
    (fd : ℕ) (os : Os) (fds : Pipes) (p0 : ℕ) (o : Option ℕ)
    → Closes fd fds (start_second os fds p0 o).1
second-Closes fd os fds p0 none = cleanup-Closes fd os fds (some p0 ∷ none ∷ none ∷ [])
second-Closes fd os fds p0 (some p1) = third-Closes fd os fds p0 p1 (os.fork 2)

first-Closes :
    (fd : ℕ) (os : Os) (fds : Pipes) (o : Option ℕ) → Closes fd fds (start_first os fds o).1
first-Closes fd os fds none = cleanup-Closes fd os fds (none ∷ none ∷ none ∷ [])
first-Closes fd os fds (some p0) = second-Closes fd os fds p0 (os.fork 1)

open_second_even :
    (fd : ℕ) (os : Os) (r1 w1 : ℕ) (o : Option (ℕ × ℕ))
    → count (opened fd) (opened r1 ∷ opened w1 ∷ (open_second os r1 w1 o).1)
      ≡ count (closed fd) (open_second os r1 w1 o).1
unfolding close_pipe_fds
open_second_even fd os r1 w1 none = ground arith
open_second_even fd os r1 w1 (some (r2, w2)) =
    let c = first-Closes fd os (some r1 ∷ some w1 ∷ some r2 ∷ some w2 ∷ []) (os.fork 0) in
    ground (arith, c.0, c.1)

open_first_even :
    (fd : ℕ) (os : Os) (o : Option (ℕ × ℕ))
    → count (opened fd) (open_first os o).1 ≡ count (closed fd) (open_first os o).1
open_first_even fd os none = refl
open_first_even fd os (some (r1, w1)) = open_second_even fd os r1 w1 os.pipe2

-- Whatever the operating system answers, and on whatever path it ends, a run closes every descriptor
-- exactly as often as it was opened.
pub pd_pipeline_run_closes :
    (os : Os) (fd : ℕ)
    → count (opened fd) (pd_pipeline_run os).1 ≡ count (closed fd) (pd_pipeline_run os).1
unfolding pd_pipeline_run
pd_pipeline_run_closes os fd = open_first_even fd os os.pipe1
