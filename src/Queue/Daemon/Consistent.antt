-- ===== src/Queue/Daemon/Consistent.antt =====
-- The tables are consistent after any run.
use dlq_download_queue.Prelude.{List, [], ◌∷◌}
use dlq_download_queue.Queue.World.{World, Env}
use dlq_download_queue.Queue.World.Keeps.{Keeps-ignore}
use dlq_download_queue.Queue.Consistent.{IsConsistent}
use dlq_download_queue.Queue.Consistent.Marks.{Safe}
use dlq_download_queue.Queue.Consistent.Service.{
  create_job-Safe, retry-Safe, remove-Safe, clear-Safe, purge-Safe, pause-Safe, resume-Safe,
}
use dlq_download_queue.Queue.Consistent.Runner.Decrypt.{run_decrypt-Safe}
use dlq_download_queue.Queue.Consistent.Runner.Tick.{tick-Safe}
use dlq_download_queue.Queue.Service.{Service}
use dlq_download_queue.Queue.Runner.{Runner}
use dlq_download_queue.Queue.Daemon.{
  Action, create, retry, remove, pause, resume, clear, purge, tick, decrypt, act, serve,
}

act-Safe : (s : Service) (r : Runner) (a : Action) → Safe (act s r a)
unfolding act
act-Safe s r (create url out name site password max) =
    Keeps-ignore _ (create_job-Safe s url out name site password max)
act-Safe s r (retry id) = retry-Safe s id
act-Safe s r (remove id) = remove-Safe s id
act-Safe s r (pause id) = pause-Safe s id
act-Safe s r (resume id) = resume-Safe s id
act-Safe s r clear = clear-Safe
act-Safe s r purge = purge-Safe
act-Safe s r tick = tick-Safe r
act-Safe s r (decrypt t got) = run_decrypt-Safe r t got

-- From consistent tables every run leaves consistent tables: distinct ids in falling order below
-- their counters, events of known jobs only, a row marked deleted hidden, and a queued row visible,
-- without a task in aria2 and without a time to wait for. This holds whatever aria2, the resolvers
-- and the decryptors answer, and whichever statements of the database fail.
pub serve-IsConsistent :
    (s : Service) (r : Runner) (run : List (Env × Action)) (w : World)
    → IsConsistent w.db
    → IsConsistent (serve s r run w).db
unfolding serve
serve-IsConsistent s r [] w h = h
serve-IsConsistent s r ((env, a) ∷ rest) w h =
    serve-IsConsistent s r rest (act s r a env w).1 ((act-Safe s r a).at env w h)
