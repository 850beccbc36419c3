-- ===== src/InfoCenter/DataRefs/Samples.antt =====
-- A registry with one reference, on which the theorems are evaluated.
use new_pycloud.Base.{
  ◌+◌, ◌*◌, ◌≤◌, ◌<◌, ◌≡◌, refl, max, false, [], ◌∷◌, none, some, nat_eq, list_eq, arith,
}
use new_pycloud.Base.Dict.{get, insert}
use new_pycloud.Base.Text.{Text, codes, strip, lstrip}
use new_pycloud.Base.Int.{pos}
use new_pycloud.InfoCenter.DataRefs.{
  DataRef, Registration, DataRegistryEntry, DataRefs, second, prune, normalized_replicas, new_entry,
  register, resolve, touched, write_touched, release,
}
use new_pycloud.InfoCenter.DataRefs.Expiry.{resolve-register}
use new_pycloud.InfoCenter.DataRefs.Races.{release_between-touch}

abbrev r1 : Text
r1 = codes "r1"

abbrev data_ref : DataRef
data_ref = record {
  ref_id = r1;
  storage_id = [];
  object_id = codes "o1";
  logical_type = codes "blob";
  format = [];
  size_bytes = pos 12;
  materialize_as = [];
  locator_kind = codes "node_local";
  locator_token = codes "t";
  consume_on_read = false;
  node_id = codes "n";
  node_instance_id = codes "n-1";
  control_addr = codes "h:1";
}

abbrev arguments : Registration
arguments = record {
  ttl_sec = pos 10;
  node_id = [];
  node_instance_id = [];
  control_addr = [];
  locator_kind = [];
  locator_token = [];
  replicas = [];
}

abbrev entry : DataRegistryEntry
entry = record {
  ref_id = r1;
  storage_id = codes "o1";
  logical_type = codes "blob";
  format = codes "bin";
  size_bytes = 12;
  materialize_as = codes "auto";
  locator_kind = codes "node_local";
  locator_token = codes "t";
  consume_on_read = false;
  node_id = codes "n";
  node_instance_id = codes "n-1";
  control_addr = codes "h:1";
  replicas = [];
  created_at = 5;
  last_at = 5;
  ttl_sec = 10;
}

abbrev registry : DataRefs
registry = (r1, entry) ∷ []

registered : register 5 data_ref arguments [] ≡ (registry, entry)
unfolding register new_entry normalized_replicas prune get insert strip lstrip
registered = refl

resolve-register_example :
    let (m', e) = register 7 data_ref arguments registry in
    (9 ≤ 7 + max 1 e.ttl_sec * second → (resolve 9 r1 m').1 ≡ some e)
    × (7 + max 1 e.ttl_sec * second < 9 → (resolve 9 r1 m').1 ≡ none)
unfolding strip lstrip get
resolve-register_example = resolve-register 7 9 data_ref arguments registry (refl, tt) refl refl

release_between-touch_example :
    (resolve 10 r1 (write_touched 9 entry (release r1 (resolve 8 r1 registry).0).0)).1
    ≡ some (touched 9 entry)
unfolding strip lstrip get resolve prune
release_between-touch_example =
    release_between-touch 8 9 10 r1 entry registry (refl, tt) refl refl refl refl (omega arith)
