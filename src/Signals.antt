-- ===== src/Signals.antt =====
-- ResourceSignalStore of controlplane/resource_signals.py: signals of long-running operations on
-- resources, read in pages by a cursor. The payload of a signal is left out; times are whole
-- microseconds.
pub mod Sorting
pub mod Steps
pub mod Invariant
pub mod Paging
pub mod Bounds
pub mod Operations
pub mod Samples
use new_pycloud.Base.{
  ℕ, suc, ◌+◌, ◌-◌, max, Bool, true, false, ◌||◌, ltb, leb, List, [], ◌∷◌, ◌++◌, Option, none, some,
  if◌then◌else◌, length, take, drop, keep, ◌==◌, nat_eq, list_eq, pair_eq,
}
use new_pycloud.Base.Dict.{get, insert, erase, values}
use new_pycloud.Base.Text.{Text, codes, is_nonempty}

pub record ResourceSignal : Type 0 where
  pub seq : ℕ
  pub node_instance_id : Text
  pub resource_kind : Text
  pub resource_id : Text
  pub epoch : ℕ
  pub signal_type : Text
  pub state : Text
  pub reason : Text
  pub updated_at : ℕ

pub record ResourceOperation : Type 0 where
  pub op_id : Text
  pub op_type : Text
  pub resource_kind : Text
  pub resource_id : Text
  pub status : Text
  pub stage : Text
  pub last_signal_seq : ℕ
  pub error : Text
  pub created_at : ℕ
  pub updated_at : ℕ

abbrev pub Resource : Type 0
Resource = Text × Text

pub record ResourceSignalStore : Type 0 where
  pub maxlen : ℕ
  pub seq : ℕ
  pub signals : List ResourceSignal
  pub latest : List (Resource × ResourceSignal)
  pub coalesced_index : List ((Resource × Text) × ResourceSignal)
  pub operations : List (Text × ResourceOperation)

abbrev pub new_store : ℕ → ResourceSignalStore
new_store maxlen = record {
  maxlen = max 1 maxlen;
  seq = 0;
  signals = [];
  latest = [];
  coalesced_index = [];
  operations = [];
}

-- RESOURCE_SIGNAL_COALESCE_TYPES and RESOURCE_SIGNAL_RETAIN_TYPES
abbrev pub is_coalesced : Text → Bool
is_coalesced t = t == codes "readiness"

abbrev pub is_retained : Text → Bool
is_retained t = t == codes "progress" || (t == codes "failure" || t == codes "stop")

-- `sort(key=seq)`, which is stable.
pub insert_by_seq : ResourceSignal → List ResourceSignal → List ResourceSignal
insert_by_seq s [] = s ∷ []
insert_by_seq s (o ∷ os) =
    let rest = insert_by_seq s os in if leb s.seq o.seq then s ∷ o ∷ os else o ∷ rest

pub sort_by_seq : List ResourceSignal → List ResourceSignal
unfolding insert_by_seq
sort_by_seq [] = []
sort_by_seq (s ∷ ss) = insert_by_seq s (sort_by_seq ss)

-- The keys of the entries of the index, sorted by the sequence numbers of their signals.
pub insert_entry :
    ((Resource × Text) × ResourceSignal)
    → List ((Resource × Text) × ResourceSignal)
    → List ((Resource × Text) × ResourceSignal)
insert_entry e [] = e ∷ []
insert_entry e (f ∷ fs) =
    let rest = insert_entry e fs in if leb (e.1).seq (f.1).seq then e ∷ f ∷ fs else f ∷ rest

pub sort_entries :
    List ((Resource × Text) × ResourceSignal) → List ((Resource × Text) × ResourceSignal)
unfolding insert_entry
sort_entries [] = []
sort_entries (e ∷ es) = insert_entry e (sort_entries es)

pub erase_entries :
    List ((Resource × Text) × ResourceSignal)
    → List ((Resource × Text) × ResourceSignal)
    → List ((Resource × Text) × ResourceSignal)
erase_entries [] m = m
erase_entries ((k, _) ∷ es) m = erase_entries es (erase k m)

-- `_trim_locked`: the oldest of the log, and the oldest of the index.
pub trim : ResourceSignalStore → ResourceSignalStore
unfolding sort_entries erase_entries
trim r =
    let kept = drop (length r.signals - r.maxlen) r.signals in
    let index = r.coalesced_index in
    record r {
      signals = kept;
      coalesced_index =
          if leb (length index) r.maxlen
          then index
          else erase_entries (take (length index - r.maxlen) (sort_entries index)) index;
    }

abbrev pub with_seq : ℕ → ℕ → ResourceSignal → ResourceSignal
with_seq seq now s = record s { seq = seq; updated_at = now }

-- The published signal in its place, before the trimming.
abbrev pub store_signal : ResourceSignal → ResourceSignalStore → ResourceSignalStore
store_signal s r =
    let r' : ResourceSignalStore = record r {
      seq = s.seq;
      latest = insert (s.resource_kind, s.resource_id) s r.latest;
    } in
    if is_coalesced s.signal_type
    then (record r' {
      coalesced_index =
          insert ((s.resource_kind, s.resource_id), s.signal_type) s r.coalesced_index;
    })
    else if is_retained s.signal_type
    then (record r' { signals = r.signals ++ s ∷ [] })
    else r'

pub publish : ℕ → ResourceSignal → ResourceSignalStore → ResourceSignalStore
unfolding trim
publish now s r = trim (store_signal (with_seq (r.seq + 1) now s) r)

pub latest_of : Text → Text → ResourceSignalStore → Option ResourceSignal
latest_of kind id r = get (kind, id) r.latest

-- What is stored behind a cursor, in the order of publication.
pub items_since : ℕ → ResourceSignalStore → List ResourceSignal
unfolding sort_by_seq
items_since cursor r =
    sort_by_seq (keep (λ s. ltb cursor s.seq) (r.signals ++ values r.coalesced_index))

abbrev pub or_number : ℕ → ℕ → ℕ
or_number n d = if n == 0 then d else n

-- A limit of 0 stands for 100.
pub since : ℕ → ℕ → ResourceSignalStore → List ResourceSignal
unfolding items_since
since cursor limit r = take (max 1 (or_number limit 100)) (items_since cursor r)

abbrev pub or_text : Text → Text → Text
or_text s d = if is_nonempty s then s else d

-- An operation that is known takes over what the new report says.
abbrev pub merge_operation : ResourceOperation → ResourceOperation → ResourceOperation
merge_operation new old = record old {
  op_type = or_text new.op_type old.op_type;
  resource_kind = or_text new.resource_kind old.resource_kind;
  resource_id = or_text new.resource_id old.resource_id;
  status = or_text new.status old.status;
  stage = or_text new.stage old.stage;
  last_signal_seq = or_number new.last_signal_seq old.last_signal_seq;
  error = or_text new.error old.error;
  updated_at = new.updated_at;
}

-- `upsert_operation`, with `move_to_end` for one that is known and `_trim_operations_locked` for a
-- new one.
pub upsert_into :
    ResourceOperation → ℕ → List (Text × ResourceOperation) → List (Text × ResourceOperation)
upsert_into o maxlen m = elim (get o.op_id m) [
  | some old ↦ erase o.op_id m ++ (o.op_id, merge_operation o old) ∷ []
  | none ↦ let added = m ++ (o.op_id, o) ∷ [] in drop (length added - maxlen) added
]

pub upsert_operation : ResourceOperation → ResourceSignalStore → ResourceSignalStore
unfolding upsert_into
upsert_operation o r = record r { operations = upsert_into o r.maxlen r.operations }

pub get_operation : Text → ResourceSignalStore → Option ResourceOperation
get_operation id r = get id r.operations
