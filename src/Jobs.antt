-- ===== src/Jobs.antt =====
-- The queue of background jobs: template/src/app/jobs/queue.py. The pool of arq is an argument.
use python_backend_manager.Prelude.Base.{Bool, true, false, Option, none, some}

-- What `pool.enqueue_job` does: it queues the job, the backend is unreachable (`OSError` or
-- `RedisError`), or it raises something else.
pub data Pooled (Q : Type 0) : Type 0 where
  queued : Q → Pooled Q
  unreachable failed : Pooled Q

abbrev pub queue_result : {Q : Type 0} → Pooled Q → Q → Option Bool × Q
queue_result (queued q') q = (some true, q')
queue_result unreachable q = (some false, q)
queue_result failed q = (none, q)

-- `enqueue`; `none` is an exception of another kind.
unfoldable pub enqueue : {J Q : Type 0} → (J → Q → Pooled Q) → J → Q → Option Bool × Q
enqueue enqueue_job job q = queue_result (enqueue_job job q) q
