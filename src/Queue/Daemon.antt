-- ===== src/Queue/Daemon.antt =====
-- A run of the daemon: the requests of the API, the ticks and the decryptions, in any order, each
-- against the clock and the database failures of its own.
pub mod Consistent
use dlq_download_queue.Prelude.{ℕ, Bool, List, [], ◌∷◌, ℤ}
use dlq_download_queue.Go.Strings.{Text}
use dlq_download_queue.Queue.World.{World, Env, DecryptTask, M, ignore}
use dlq_download_queue.Queue.Service
use dlq_download_queue.Queue.Service.{Service}
use dlq_download_queue.Queue.Runner.{Runner}
use dlq_download_queue.Queue.Runner.Decrypt.{run_decrypt}
use dlq_download_queue.Queue.Runner.Tick

pub data Action : Type 0 where
  create : Text → Text → Text → Text → Text → ℤ → Action
  retry remove pause resume : ℕ → Action
  clear purge tick : Action
  decrypt : DecryptTask → Bool → Action

unfoldable pub act : Service → Runner → Action → M (Unit {0})
act s r (create url out name site password max) =
    ignore (Service.create_job s url out name site password max)
act s r (retry id) = Service.retry s id
act s r (remove id) = Service.remove s id
act s r (pause id) = Service.pause s id
act s r (resume id) = Service.resume s id
act s r clear = Service.clear
act s r purge = Service.purge
act s r tick = Tick.tick r
act s r (decrypt t got) = run_decrypt r t got

unfoldable pub serve : Service → Runner → List (Env × Action) → World → World
unfolding act
serve s r [] w = w
serve s r ((env, a) ∷ rest) w = serve s r rest (act s r a env w).1
