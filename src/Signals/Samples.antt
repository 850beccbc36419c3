-- ===== src/Signals/Samples.antt =====
-- A store of two entries, on which the theorems are evaluated.
use new_pycloud.Base.{◌≡◌, [], ◌++◌}
use new_pycloud.Base.Text.{Text, codes}
use new_pycloud.Signals.{
  ResourceSignal, ResourceOperation, ResourceSignalStore, new_store, publish, items_since, since,
  upsert_operation,
}
use new_pycloud.Signals.Steps.{Reach, begins, publishes, upserts}
use new_pycloud.Signals.Paging.{next_cursor}
use new_pycloud.Signals.Invariant.{IsNumbered, Reach-IsNumbered}
use new_pycloud.Signals.Bounds.{IsBounded, Reach-IsBounded}
use new_pycloud.Signals.Operations.{since-items}

abbrev signal : Text → Text → ResourceSignal
signal id signal_type = record {
  seq = 0;
  node_instance_id = codes "n1";
  resource_kind = codes "pool";
  resource_id = id;
  epoch = 1;
  signal_type = signal_type;
  state = codes "ready";
  reason = [];
  updated_at = 0;
}

abbrev started : ResourceSignal
started = signal (codes "p1") (codes "progress")

abbrev ready : ResourceSignal
ready = signal (codes "p1") (codes "readiness")

abbrev operation : ResourceOperation
operation = record {
  op_id = codes "op";
  op_type = codes "create";
  resource_kind = codes "pool";
  resource_id = codes "p1";
  status = codes "accepted";
  stage = [];
  last_signal_seq = 0;
  error = [];
  created_at = 1;
  updated_at = 1;
}

abbrev full : ResourceSignalStore
full =
    upsert_operation operation
      (publish 7 started (publish 6 ready (publish 5 started (new_store 2))))

full-Reach : Reach 2 full
full-Reach =
    upserts operation (publishes 7 started (publishes 6 ready (publishes 5 started begins)))

Reach-IsNumbered_example : IsNumbered full
Reach-IsNumbered_example = Reach-IsNumbered full-Reach

Reach-IsBounded_example : IsBounded full
Reach-IsBounded_example = Reach-IsBounded full-Reach

since-items_example :
    items_since 1 full ≡ since 1 1 full ++ items_since (next_cursor 1 (since 1 1 full)) full
since-items_example = since-items 1 1 full full-Reach
