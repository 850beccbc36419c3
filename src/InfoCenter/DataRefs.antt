-- ===== src/InfoCenter/DataRefs.antt =====
-- The registry of data references in InfoCenterState of controlplane/infocenter_state.py. Times are
-- whole microseconds. A call that raises returns `none`. Listing the references is left out.
pub mod Expiry
pub mod Races
pub mod Samples
use new_pycloud.Base.{
  ℕ, ◌+◌, ◌*◌, max, Bool, true, false, not, ◌||◌, ltb, List, [], ◌∷◌, Option, none, some,
  if◌then◌else◌, ◌==◌, nat_eq, list_eq,
}
use new_pycloud.Base.Dict.{get, insert, erase}
use new_pycloud.Base.Text.{Text, codes, strip, is_nonempty}
use new_pycloud.Base.Int.{ℤ, pos, negsuc, pos_part}

pub record Replica : Type 0 where
  pub node_id : Text
  pub node_instance_id : Text
  pub control_addr : Text

-- The fields of a DataRef that the registry reads.
pub record DataRef : Type 0 where
  pub ref_id : Text
  pub storage_id : Text
  pub object_id : Text
  pub logical_type : Text
  pub format : Text
  pub size_bytes : ℤ
  pub materialize_as : Text
  pub locator_kind : Text
  pub locator_token : Text
  pub consume_on_read : Bool
  pub node_id : Text
  pub node_instance_id : Text
  pub control_addr : Text

-- The other arguments of a registration.
pub record Registration : Type 0 where
  pub ttl_sec : ℤ
  pub node_id : Text
  pub node_instance_id : Text
  pub control_addr : Text
  pub locator_kind : Text
  pub locator_token : Text
  pub replicas : List Replica

pub record DataRegistryEntry : Type 0 where
  pub ref_id : Text
  pub storage_id : Text
  pub logical_type : Text
  pub format : Text
  pub size_bytes : ℕ
  pub materialize_as : Text
  pub locator_kind : Text
  pub locator_token : Text
  pub consume_on_read : Bool
  pub node_id : Text
  pub node_instance_id : Text
  pub control_addr : Text
  pub replicas : List Replica
  pub created_at : ℕ
  pub last_at : ℕ
  pub ttl_sec : ℕ

abbrev pub DataRefs : Type 0
DataRefs = List (Text × DataRegistryEntry)

abbrev pub second : ℕ
second = 1000000

-- The last moment at which an entry is alive, as `_data_ref_is_expired_locked` computes it.
abbrev pub deadline : DataRegistryEntry → ℕ
deadline e = e.last_at + max 1 e.ttl_sec * second

abbrev pub is_expired : ℕ → DataRegistryEntry → Bool
is_expired now e = ltb (deadline e) now

-- `_prune_expired_data_refs_locked`
pub prune : ℕ → DataRefs → DataRefs
prune now [] = []
prune now ((id, e) ∷ m) =
    let rest = prune now m in if is_expired now e then rest else (id, e) ∷ rest

abbrev pub or_text : Text → Text → Text
or_text s d = if is_nonempty s then s else d

-- `max(1, int(ttl_sec or d))`
abbrev pub positive_ttl : ℤ → ℕ → ℕ
positive_ttl (pos n) d = max 1 (if n == 0 then d else n)
positive_ttl (negsuc n) d = 1

abbrev pub strip_replica : Replica → Replica
strip_replica r = record {
  node_id = strip r.node_id;
  node_instance_id = strip r.node_instance_id;
  control_addr = strip r.control_addr;
}

-- The replicas that have a control address.
pub normalized_replicas : List Replica → List Replica
normalized_replicas [] = []
normalized_replicas (r ∷ rs) =
    let rest = normalized_replicas rs in
    if is_nonempty (strip r.control_addr) then strip_replica r ∷ rest else rest

pub new_entry : ℕ → DataRef → Registration → DataRegistryEntry
unfolding normalized_replicas
new_entry now ref a = record {
  ref_id = ref.ref_id;
  storage_id = or_text ref.storage_id ref.object_id;
  logical_type = ref.logical_type;
  format = or_text ref.format (codes "bin");
  size_bytes = pos_part ref.size_bytes;
  materialize_as = or_text ref.materialize_as (codes "auto");
  locator_kind = strip (or_text a.locator_kind ref.locator_kind);
  locator_token = strip (or_text a.locator_token ref.locator_token);
  consume_on_read = ref.consume_on_read;
  node_id = strip (or_text a.node_id ref.node_id);
  node_instance_id = strip (or_text a.node_instance_id ref.node_instance_id);
  control_addr = strip (or_text a.control_addr ref.control_addr);
  replicas = normalized_replicas a.replicas;
  created_at = now;
  last_at = now;
  ttl_sec = positive_ttl a.ttl_sec 3600;
}

-- `int(ttl_sec or existing.ttl_sec or 3600)`, for a reference that is registered again.
abbrev pub or_existing : DataRegistryEntry → ℕ
or_existing old = if old.ttl_sec == 0 then 3600 else old.ttl_sec

abbrev pub renewed : ℤ → DataRegistryEntry → DataRegistryEntry → DataRegistryEntry
renewed ttl old e = record e {
  created_at = old.created_at;
  ttl_sec = positive_ttl ttl (or_existing old);
}

pub register : ℕ → DataRef → Registration → DataRefs → DataRefs × DataRegistryEntry
unfolding prune new_entry
register now ref a m =
    let e = new_entry now ref a in
    let pruned = prune now m in
    let stored : DataRegistryEntry = elim (get e.ref_id pruned) [
      | none ↦ e
      | some old ↦ renewed a.ttl_sec old e
    ] in
    (insert e.ref_id stored pruned, stored)

-- `resolve_data_ref_record`; no id and no entry are both a KeyError.
pub resolve : ℕ → Text → DataRefs → DataRefs × Option DataRegistryEntry
unfolding prune
resolve now ref_id m =
    if is_nonempty (strip ref_id)
    then (prune now m, get (strip ref_id) (prune now m))
    else (m, none)

-- `touch_data_ref_record` takes the lock twice: for the resolution, and for this write of the entry
-- that it found.
abbrev pub touched : ℕ → DataRegistryEntry → DataRegistryEntry
touched now e = record e { last_at = now }

pub write_touched : ℕ → DataRegistryEntry → DataRefs → DataRefs
write_touched now e m = insert e.ref_id (touched now e) m

-- The call when nothing comes between its two blocks.
pub touch : ℕ → ℕ → Text → DataRefs → DataRefs × Option DataRegistryEntry
unfolding resolve write_touched
touch now later ref_id m =
    let (m', found) = resolve now ref_id m in
    elim found [ none ↦ (m', none) | some e ↦ (write_touched later e m', some (touched later e)) ]

-- The registry, and whether the reference was there.
pub release : Text → DataRefs → DataRefs × Bool
release ref_id m =
    if is_nonempty (strip ref_id)
    then (erase (strip ref_id) m, elim (get (strip ref_id) m) [ none ↦ false | some e ↦ true ])
    else (m, false)
