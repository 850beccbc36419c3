-- ===== src/Signals/Steps.antt =====
-- The histories of a store: reports of signals and operations, each under the lock.
use new_pycloud.Base.{ℕ}
use new_pycloud.Signals.{
  ResourceSignal, ResourceOperation, ResourceSignalStore, new_store, publish, upsert_operation,
}

pub data Reach (maxlen : ℕ) : ResourceSignalStore → Type 0 where
  begins : Reach maxlen (new_store maxlen)
  publishes :
      {r : ResourceSignalStore} (now : ℕ) (s : ResourceSignal)
      → Reach maxlen r
      → Reach maxlen (publish now s r)
  upserts :
      {r : ResourceSignalStore} (o : ResourceOperation)
      → Reach maxlen r
      → Reach maxlen (upsert_operation o r)
