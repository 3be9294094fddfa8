-- ===== src/Dispatcher/Tests.antt =====
-- Runs of the dispatcher, and its theorems at one.
use stream_data_pipline.Prelude.{arith, ◌+◌, ◌≡◌, ◌↔◌, refl, true, false, some, none, [], ◌∷◌}
use stream_data_pipline.Dispatcher.{
  Os, exited, pd_exit_ok, pd_wait_children, pd_pipeline_run, opened, closed, spawned, reaped,
}
use stream_data_pipline.Dispatcher.Wait as DispatcherWait
use stream_data_pipline.Dispatcher.Resources as DispatcherResources
use stream_data_pipline.Dispatcher.Reaping as DispatcherReaping
use stream_data_pipline.Dispatcher.Spawn as DispatcherSpawn

abbrev pub calm : Os
calm = record {
  pipe1 = some (3, 4);
  pipe2 = some (5, 6);
  fork = λ i. some (i + 100);
  interrupted = false;
  wait = λ pid. exited 0;
  collected = λ pid. true;
}

pd_wait_children_ok_iff_example :
    ((pd_wait_children calm (some 100 ∷ none ∷ [])).0 ≡ pd_exit_ok)
    ↔ DispatcherWait.AllExitZero calm (some 100 ∷ none ∷ [])
pd_wait_children_ok_iff_example = DispatcherWait.pd_wait_children_ok_iff calm (some 100 ∷ none ∷ [])

pd_pipeline_run_closes_example :
    DispatcherResources.count (opened 4) (pd_pipeline_run calm).1
    ≡ DispatcherResources.count (closed 4) (pd_pipeline_run calm).1
pd_pipeline_run_closes_example = DispatcherResources.pd_pipeline_run_closes calm 4

pd_pipeline_run_reaps_example :
    DispatcherResources.count (reaped 101) (pd_pipeline_run calm).1
    ≡ DispatcherResources.count (spawned 101) (pd_pipeline_run calm).1
pd_pipeline_run_reaps_example =
    DispatcherReaping.pd_pipeline_run_reaps calm 101 (λ q. refl) (λ q e. cc)

abbrev numbered_files : DispatcherSpawn.Table
numbered_files i = some (i + 100)

child_table-Wired_example :
    ((t : DispatcherSpawn.Table) × (DispatcherSpawn.child 3 4 5 6 numbered_files (0, 4) ≡ some t)
      × DispatcherSpawn.Wired (some 100) (some 104) 3 4 5 6 t)
    × ((t : DispatcherSpawn.Table) × (DispatcherSpawn.child 3 4 5 6 numbered_files (3, 6) ≡ some t)
        × DispatcherSpawn.Wired (some 103) (some 106) 3 4 5 6 t)
    × ((t : DispatcherSpawn.Table) × (DispatcherSpawn.child 3 4 5 6 numbered_files (5, 1) ≡ some t)
        × DispatcherSpawn.Wired (some 105) (some 101) 3 4 5 6 t)
child_table-Wired_example =
    DispatcherSpawn.child_table-Wired 3 4 5 6 numbered_files (omega arith) (omega arith)
      (omega arith) (omega arith)
