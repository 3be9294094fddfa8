-- ===== src/Watch/Tests.antt =====
-- The events of lib/libpipeline.c on what a read gives.
use stream_data_pipline.Prelude.{◌≡◌, ◌||◌, refl, true, false, none, some, List, [], ◌∷◌, arith}
use stream_data_pipline.Prelude.Bytes.{codes, contains}
use stream_data_pipline.Watch.{lp_consume_inotify_events}
use stream_data_pipline.Watch.Events.{Event, IsEvent, AreReads, answers_of, any_marks, field}
use stream_data_pipline.Watch.Events as WatchEvents

abbrev plain_event : Event
plain_event = record {
  head = 1 ∷ 0 ∷ 0 ∷ 0 ∷ 8 ∷ 0 ∷ 0 ∷ 0 ∷ 0 ∷ 0 ∷ 0 ∷ 0 ∷ [];
  name = none;
  padding = [];
}

abbrev end_event : Event
end_event = record {
  head = 1 ∷ 0 ∷ 0 ∷ 0 ∷ 8 ∷ 0 ∷ 0 ∷ 0 ∷ 0 ∷ 0 ∷ 0 ∷ 0 ∷ [];
  name = some (codes ".pipeline_end");
  padding = 0 ∷ 0 ∷ [];
}

abbrev reads : List (List Event)
reads = (plain_event ∷ end_event ∷ []) ∷ []

reads-AreReads : AreReads reads
unfolding contains
reads-AreReads = (
  omega arith,
  (
    record { words = refl; plain = refl; fits = omega arith },
    (record { words = refl; plain = refl; fits = omega arith }, tt),
  ),
  tt,
)

lp_consume_inotify_events-marks_example :
    lp_consume_inotify_events (answers_of reads) false ≡ (true, false || any_marks reads)
lp_consume_inotify_events-marks_example =
    WatchEvents.lp_consume_inotify_events-marks reads false reads-AreReads
