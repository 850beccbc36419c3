-- ===== src/InfoCenter/DataRefs/Expiry.antt =====
-- For how long a reference is found.
use new_pycloud.Base.{
  ℕ, ◌+◌, ◌*◌, ◌≤◌, ◌<◌, ◌≡◌, refl, ap, ◌∙◌, ◌↔◌, max, true, false, [], ◌∷◌, Option, none, some,
  if◌then◌else◌, nat_eq, list_eq, list_beq_iff, arith,
}
use new_pycloud.Base.Dict.{
  get, erase, HasUniqueKeys, get-insert_self, get-erase_self, insert-HasUniqueKeys,
  erase-HasUniqueKeys,
}
use new_pycloud.Base.Text.{Text, is_nonempty, strip}
use new_pycloud.InfoCenter.DataRefs.{
  DataRef, Registration, DataRegistryEntry, DataRefs, second, deadline, is_expired, prune,
  new_entry, positive_ttl, or_existing, register, resolve, release,
}

abbrev pub alive_at : ℕ → Option DataRegistryEntry → Option DataRegistryEntry
alive_at now none = none
alive_at now (some e) = if is_expired now e then none else some e

pub get-prune :
    (now : ℕ) (id : Text) (m : DataRefs)
    → HasUniqueKeys m
    → get id (prune now m) ≡ alive_at now (get id m)
unfolding get prune
get-prune now id [] u = refl
get-prune now id ((j, e) ∷ m) u = ground (arith, get-prune now id m u.1, list_beq_iff j id, u.0)

pub prune-HasUniqueKeys : (now : ℕ) (m : DataRefs) → HasUniqueKeys m → HasUniqueKeys (prune now m)
unfolding prune
prune-HasUniqueKeys now [] u = tt
prune-HasUniqueKeys now ((j, e) ∷ m) u =
    ground (arith, get-prune now j m u.1, prune-HasUniqueKeys now m u.1, u.0)

pub register-HasUniqueKeys :
    (now : ℕ) (ref : DataRef) (a : Registration) (m : DataRefs)
    → HasUniqueKeys m
    → HasUniqueKeys (register now ref a m).0
unfolding register
register-HasUniqueKeys now ref a m u =
    insert-HasUniqueKeys ref.ref_id (register now ref a m).1 (prune now m)
      (prune-HasUniqueKeys now m u)

-- The entry that a registration leaves under its id is the one that it returns.
register-get :
    (now : ℕ) (ref : DataRef) (a : Registration) (m : DataRefs)
    → get ref.ref_id (register now ref a m).0 ≡ some (register now ref a m).1
unfolding register new_entry
register-get now ref a m = get-insert_self ref.ref_id (register now ref a m).1 (prune now m)

register-last :
    (now : ℕ) (ref : DataRef) (a : Registration) (m : DataRefs)
    → (register now ref a m).1.last_at ≡ now
unfolding register new_entry
register-last now ref a m = ground arith

pub resolve-get :
    (now : ℕ) (id : Text) (m : DataRefs)
    → HasUniqueKeys m
    → strip id ≡ id
    → is_nonempty id ≡ true
    → (resolve now id m).1 ≡ alive_at now (get id m)
unfolding resolve
resolve-get now id m u stripped named = ground (arith, stripped, named, get-prune now id m u)

-- A registered reference, whose id is not empty and has no surrounding space, is found as it was
-- registered up to its time to live, of at least a second, and raises KeyError after it, if nothing
-- else is done to the registry.
pub resolve-register :
    (now later : ℕ) (ref : DataRef) (a : Registration) (m : DataRefs)
    → HasUniqueKeys m
    → strip ref.ref_id ≡ ref.ref_id
    → is_nonempty ref.ref_id ≡ true
    → let (m', e) = register now ref a m in
      (later ≤ now + max 1 e.ttl_sec * second → (resolve later ref.ref_id m').1 ≡ some e)
      × (now + max 1 e.ttl_sec * second < later → (resolve later ref.ref_id m').1 ≡ none)
resolve-register now later ref a m u stripped named =
    let (m', e) = register now ref a m in
    let found : (resolve later ref.ref_id m').1 ≡ alive_at later (some e) =
      resolve-get later ref.ref_id m' (register-HasUniqueKeys now ref a m u) stripped named
      ∙ ap (alive_at later) (register-get now ref a m) in
    (
      (λ early. found ∙ ground (arith, early, register-last now ref a m)),
      λ late. found ∙ ground (arith, late, register-last now ref a m),
    )

-- A reference that is registered again while it is alive keeps its time of creation, and takes over
-- everything else from the new registration.
pub register-again :
    (now : ℕ) (ref : DataRef) (a : Registration) (old : DataRegistryEntry) (m : DataRefs)
    → HasUniqueKeys m
    → get ref.ref_id m ≡ some old
    → now ≤ deadline old
    → (register now ref a m).1 ≡ record (new_entry now ref a) {
      created_at = old.created_at;
      ttl_sec = positive_ttl a.ttl_sec (or_existing old);
    }
unfolding register new_entry
register-again now ref a old m u at alive =
    let there : get ref.ref_id (prune now m) ≡ some old =
      get-prune now ref.ref_id m u ∙ ground (arith, at, alive) in
    ground (arith, there)

-- A release ends a reference: it is not found afterwards, whatever the time; the call says whether
-- it was there.
pub resolve-release :
    (now : ℕ) (id : Text) (m : DataRefs)
    → HasUniqueKeys m
    → is_nonempty (strip id) ≡ true
    → ((resolve now id (release id m).0).1 ≡ none)
      × (((release id m).1 ≡ false) ↔ (get (strip id) m ≡ none))
unfolding resolve release
resolve-release now id m u named = (
  ground (
    arith,
    named,
    get-erase_self (strip id) m,
    get-prune now (strip id) (erase (strip id) m) (erase-HasUniqueKeys (strip id) m u),
  ),
  ground (arith, named),
)
