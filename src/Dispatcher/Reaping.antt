-- ===== src/Dispatcher/Reaping.antt =====
-- The dispatcher leaves no child behind (pd_pipeline.c and pd_spawn.c).
use stream_data_pipline.Prelude.{
  ℕ, suc, ◌+◌, ◌≡◌, ◌≢◌, refl, Bool, true, false, Option, none, some, List, [], ◌∷◌, ◌++◌, arith,
  ◌==◌, if◌then◌else◌,
}
use stream_data_pipline.Dispatcher.{
  ExitCode, pd_exit_ok, pd_exit_child_error, WaitAnswer, exited, killed, wait_failed,
  wait_interrupted, Os, Children, Action, spawned, reaped, on_exit, on_wait, wait_loop,
  pd_wait_children, signals, reapings, pd_kill_children, close_pipe_fds, Pipes, cleanup, supervise,
  start_first, start_second, start_third, open_first, open_second, pd_pipeline_run,
}
use stream_data_pipline.Dispatcher.Resources.{count, count-append}

-- How often a pid stands among the children.
abbrev pids : ℕ → Children → ℕ
pids p [] = 0
pids p (none ∷ cs) = pids p cs
pids p (some q ∷ cs) = if p == q then suc (pids p cs) else pids p cs

pids-append : (p : ℕ) (xs ys : Children) → pids p (xs ++ ys) ≡ pids p xs + pids p ys
pids-append p [] ys = omega arith
pids-append p (none ∷ xs) ys = pids-append p xs ys
pids-append p (some q ∷ xs) ys = ground (arith, pids-append p xs ys)

-- Nothing is started, and the pid is reaped this often.
abbrev Reaps : ℕ → ℕ → List Action → Type 0
Reaps p n t = (count (spawned p) t ≡ 0) × (count (reaped p) t ≡ n)

append-Reaps :
    (p n k : ℕ) (xs ys : List Action) → Reaps p n xs → Reaps p k ys → Reaps p (n + k) (xs ++ ys)
append-Reaps p n k xs ys h l = (
  omega (arith, count-append (spawned p) xs ys, h.0, l.0),
  omega (arith, count-append (reaped p) xs ys, h.1, l.1),
)

signals-Reaps : (p : ℕ) (cs : Children) → Reaps p 0 (signals cs)
unfolding signals
signals-Reaps p [] = (refl, refl)
signals-Reaps p (none ∷ cs) = signals-Reaps p cs
signals-Reaps p (some q ∷ cs) = signals-Reaps p cs

close-Reaps : (p : ℕ) (fds : Pipes) → Reaps p 0 (close_pipe_fds fds).0
unfolding close_pipe_fds
close-Reaps p [] = (refl, refl)
close-Reaps p (none ∷ fds) = close-Reaps p fds
close-Reaps p (some fd ∷ fds) = close-Reaps p fds

module _ (os : Os) (collects : (pid : ℕ) → os.collected pid ≡ true)
    (waits : (pid : ℕ) → os.wait pid ≢ wait_failed) (p : ℕ) where
  reapings-Reaps : (cs : Children) → Reaps p (pids p cs) (reapings os cs)
  unfolding reapings
  reapings-Reaps [] = (refl, refl)
  reapings-Reaps (none ∷ cs) = reapings-Reaps cs
  reapings-Reaps (some q ∷ cs) = let r = reapings-Reaps cs in ground (arith, collects q, r.0, r.1)

  kill-Reaps : (cs : Children) → Reaps p (pids p cs) (pd_kill_children os cs)
  unfolding pd_kill_children
  kill-Reaps cs =
      let r =
        append-Reaps p 0 (pids p cs) (signals cs) (reapings os cs) (signals-Reaps p cs)
          (reapings-Reaps cs) in
      (r.0, omega (arith, r.1))

  -- The children in front have all been waited for.
  abbrev Sound : (Children → ExitCode → ExitCode × List Action) → Children → Type 0
  Sound next cs =
      (seen : Children) (rc : ExitCode) → pids p seen ≡ 0 → Reaps p (pids p cs) (next seen rc).1

  round-Reaps :
      (q : ℕ) (seen : Children) (rc : ExitCode) (cs : Children)
      (next : Children → ExitCode → ExitCode × List Action) (a : WaitAnswer)
      → a ≢ wait_failed
      → pids p seen ≡ 0
      → Sound next cs
      → Reaps p (pids p (some q ∷ cs)) (on_wait os q seen rc cs next a).1
  round-Reaps q seen rc cs next (exited n) ok none_left ih =
      let r =
        ih (seen ++ none ∷ []) (on_exit n rc)
          (omega (arith, pids-append p seen (none ∷ []), none_left)) in
      ground (arith, r.0, r.1)
  round-Reaps q seen rc cs next (killed n) ok none_left ih =
      let r =
        ih (seen ++ none ∷ []) pd_exit_child_error
          (omega (arith, pids-append p seen (none ∷ []), none_left)) in
      ground (arith, r.0, r.1)
  round-Reaps q seen rc cs next wait_failed ok none_left ih = absurd (ok refl)
  round-Reaps q seen rc cs next wait_interrupted ok none_left ih =
      let r = kill-Reaps (seen ++ some q ∷ cs) in
      (r.0, omega (arith, r.1, pids-append p seen (some q ∷ cs), none_left))

  loop-Reaps : (cs : Children) → Sound (λ seen rc. wait_loop os seen rc cs) cs
  unfolding wait_loop
  loop-Reaps [] seen rc none_left = (refl, refl)
  loop-Reaps (none ∷ cs) seen rc none_left =
      loop-Reaps cs (seen ++ none ∷ []) rc
        (omega (arith, pids-append p seen (none ∷ []), none_left))
  loop-Reaps (some q ∷ cs) seen rc none_left =
      round-Reaps q seen rc cs (λ s c. wait_loop os s c cs) (os.wait q) (waits q) none_left
        (loop-Reaps cs)

  closed_and :
      (fds : Pipes) (n : ℕ) (t : List Action)
      → Reaps p n t
      → Reaps p n ((close_pipe_fds fds).0 ++ t)
  closed_and fds n t r =
      let s = append-Reaps p 0 n (close_pipe_fds fds).0 t (close-Reaps p fds) r in
      (s.0, omega (arith, s.1))

  cleaned : (fds : Pipes) (cs : Children) → Reaps p (pids p cs) (cleanup os fds cs)
  cleaned fds cs = closed_and fds (pids p cs) (pd_kill_children os cs) (kill-Reaps cs)

  supervise-Reaps :
      (fds : Pipes) (cs : Children) (stop : Bool) → Reaps p (pids p cs) (supervise os fds cs stop).1
  unfolding pd_wait_children
  supervise-Reaps fds cs true =
      let left = (close_pipe_fds fds).1 in
      closed_and fds (pids p cs) (cleanup os left cs) (cleaned left cs)
  supervise-Reaps fds cs false =
      closed_and fds (pids p cs) (wait_loop os [] pd_exit_ok cs).1
        (loop-Reaps cs [] pd_exit_ok refl)

  -- What is reaped behind a point of the run: what is started behind it, and these children.
  abbrev Settles : Children → List Action → Type 0
  Settles cs t = count (reaped p) t ≡ count (spawned p) t + pids p cs

  third-Settles :
      (fds : Pipes) (p0 p1 : ℕ) (o : Option ℕ)
      → Settles (some p0 ∷ some p1 ∷ []) (start_third os fds p0 p1 o).1
  third-Settles fds p0 p1 none =
      let r = cleaned fds (some p0 ∷ some p1 ∷ none ∷ []) in ground (arith, r.0, r.1)
  third-Settles fds p0 p1 (some p2) =
      let r = supervise-Reaps fds (some p0 ∷ some p1 ∷ some p2 ∷ []) os.interrupted in
      ground (arith, r.0, r.1)

  second-Settles :
      (fds : Pipes) (p0 : ℕ) (o : Option ℕ) → Settles (some p0 ∷ []) (start_second os fds p0 o).1
  second-Settles fds p0 none =
      let r = cleaned fds (some p0 ∷ none ∷ none ∷ []) in ground (arith, r.0, r.1)
  second-Settles fds p0 (some p1) = let r = third-Settles fds p0 p1 (os.fork 2) in ground (arith, r)

  first-Settles : (fds : Pipes) (o : Option ℕ) → Settles [] (start_first os fds o).1
  first-Settles fds none = let r = cleaned fds (none ∷ none ∷ none ∷ []) in ground (arith, r.0, r.1)
  first-Settles fds (some p0) = let r = second-Settles fds p0 (os.fork 1) in ground (arith, r)

  second_pipe-Settles : (r1 w1 : ℕ) (o : Option (ℕ × ℕ)) → Settles [] (open_second os r1 w1 o).1
  second_pipe-Settles r1 w1 none =
      let r = close-Reaps p (some r1 ∷ some w1 ∷ none ∷ none ∷ []) in omega (arith, r.0, r.1)
  second_pipe-Settles r1 w1 (some (r2, w2)) =
      first-Settles (some r1 ∷ some w1 ∷ some r2 ∷ some w2 ∷ []) (os.fork 0)

  first_pipe-Settles : (o : Option (ℕ × ℕ)) → Settles [] (open_first os o).1
  first_pipe-Settles none = omega arith
  first_pipe-Settles (some (r1, w1)) = second_pipe-Settles r1 w1 os.pipe2

-- As long as no `waitpid` fails, a run reaps every child exactly as often as it started it, whether a
-- later step of the set-up fails, an interrupt comes, or all children end by themselves.
pub pd_pipeline_run_reaps :
    (os : Os) (pid : ℕ)
    → ((q : ℕ) → os.collected q ≡ true)
    → ((q : ℕ) → os.wait q ≢ wait_failed)
    → count (reaped pid) (pd_pipeline_run os).1 ≡ count (spawned pid) (pd_pipeline_run os).1
unfolding pd_pipeline_run
pd_pipeline_run_reaps os pid collects waits =
    let r = first_pipe-Settles os collects waits pid os.pipe1 in omega (arith, r)
