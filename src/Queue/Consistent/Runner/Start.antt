-- ===== src/Queue/Consistent/Runner/Start.antt =====
-- resolveAndStart keeps the tables consistent.
use dlq_download_queue.Queue.Job.{Job}
use dlq_download_queue.Queue.Consistent.Marks.{Safe, update_resolving-Safe, mark_downloading-Safe}
use dlq_download_queue.Queue.Consistent.Store.{add_event-Safe, mark_failed-Safe}
use dlq_download_queue.Queue.Runner.{Runner}
use dlq_download_queue.Queue.Runner.Start
use dlq_download_queue.Queue.Runner.Start.Keeps.{resolve_and_start-Keeps}

pub resolve_and_start-Safe : (r : Runner) (j : Job) → Safe (Start.resolve_and_start r j)
resolve_and_start-Safe r j =
    resolve_and_start-Keeps j
      (record {
        event = add_event-Safe j.id;
        resolving = update_resolving-Safe j.id;
        failing = mark_failed-Safe j.id;
        starting = mark_downloading-Safe j.id;
      })
      r
