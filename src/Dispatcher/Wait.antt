-- ===== src/Dispatcher/Wait.antt =====
-- What the exit code of the dispatcher says of its children (pd_spawn.c).
use stream_data_pipline.Prelude.{ℕ, zero, suc, ◌≡◌, ◌↔◌, refl, none, some, List, [], ◌∷◌, ◌++◌}
use stream_data_pipline.Dispatcher.{
  ExitCode, pd_exit_ok, pd_exit_child_error, WaitAnswer, exited, killed, wait_failed,
  wait_interrupted, Os, Children, Action, on_wait, wait_loop, pd_wait_children,
}

-- Every child that runs exits with 0.
abbrev pub AllExitZero : Os → Children → Type 0
AllExitZero os [] = Unit
AllExitZero os (none ∷ children) = AllExitZero os children
AllExitZero os (some pid ∷ children) = (os.wait pid ≡ exited 0) × AllExitZero os children

abbrev Result : Type 0
Result = ExitCode × List Action

round_ok_iff :
    {P : Type 0} (os : Os) (pid : ℕ) (seen : Children) (rc : ExitCode) (children : Children)
    (next : Children → ExitCode → Result) (a : WaitAnswer)
    → ((s : Children) (c : ExitCode) → ((next s c).0 ≡ pd_exit_ok) ↔ ((c ≡ pd_exit_ok) × P))
    → ((on_wait os pid seen rc children next a).0 ≡ pd_exit_ok)
      ↔ ((rc ≡ pd_exit_ok) × ((a ≡ exited 0) × P))
round_ok_iff os pid seen rc children next (exited zero) ih = (
  λ h. let (e, p) = (ih (seen ++ none ∷ []) rc).0 h in (e, (refl, p)),
  λ (e, (_, p)). (ih (seen ++ none ∷ []) rc).1 (e, p),
)
round_ok_iff os pid seen rc children next (exited (suc n)) ih =
    (λ h. let (e, p) = (ih (seen ++ none ∷ []) pd_exit_child_error).0 h in cc, λ (e, (z, p)). cc)
round_ok_iff os pid seen rc children next (killed n) ih =
    (λ h. let (e, p) = (ih (seen ++ none ∷ []) pd_exit_child_error).0 h in cc, λ (e, (z, p)). cc)
round_ok_iff os pid seen rc children next wait_failed ih = (
  λ h. let (e, p) = (ih (seen ++ some pid ∷ []) pd_exit_child_error).0 h in cc,
  λ (e, (z, p)). cc,
)
round_ok_iff os pid seen rc children next wait_interrupted ih = (λ h. cc, λ (e, (z, p)). cc)

loop_ok_iff :
    (os : Os) (seen children : Children) (rc : ExitCode)
    → ((wait_loop os seen rc children).0 ≡ pd_exit_ok)
      ↔ ((rc ≡ pd_exit_ok) × AllExitZero os children)
unfolding wait_loop
loop_ok_iff os seen [] rc = (λ h. (h, tt), λ h. h.0)
loop_ok_iff os seen (none ∷ children) rc = loop_ok_iff os (seen ++ none ∷ []) children rc
loop_ok_iff os seen (some pid ∷ children) rc =
    round_ok_iff os pid seen rc children (λ s c. wait_loop os s c children) (os.wait pid)
      (λ s c. loop_ok_iff os s children c)

-- `pd_wait_children` returns PD_EXIT_OK exactly if every child that runs exits with 0.
pub pd_wait_children_ok_iff :
    (os : Os) (children : Children)
    → ((pd_wait_children os children).0 ≡ pd_exit_ok) ↔ AllExitZero os children
unfolding pd_wait_children
pd_wait_children_ok_iff os children =
    let l = loop_ok_iff os [] children pd_exit_ok in (λ h. (l.0 h).1, λ h. l.1 (refl, h))
