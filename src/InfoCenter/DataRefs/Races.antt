-- ===== src/InfoCenter/DataRefs/Races.antt =====
-- `touch_data_ref_record` against the other calls: it takes the lock once to find the entry, and
-- once more to write it.
use new_pycloud.Base.{ℕ, ◌≤◌, ◌≡◌, sym, ap, ◌∙◌, true, some, nat_eq, list_eq, arith}
use new_pycloud.Base.Dict.{
  get, insert, HasUniqueKeys, get-insert_self, insert-HasUniqueKeys, erase-HasUniqueKeys,
}
use new_pycloud.Base.Text.{Text, is_nonempty, strip}
use new_pycloud.InfoCenter.DataRefs.{
  DataRegistryEntry, DataRefs, deadline, resolve, touched, write_touched, touch, release,
}
use new_pycloud.InfoCenter.DataRefs.Expiry.{alive_at, prune-HasUniqueKeys, resolve-get}

-- Whatever stood in the registry, what a touch writes is found for its whole time to live.
written-resolve :
    (later t : ℕ) (id : Text) (e : DataRegistryEntry) (m : DataRefs)
    → HasUniqueKeys m
    → strip id ≡ id
    → is_nonempty id ≡ true
    → e.ref_id ≡ id
    → t ≤ deadline (touched later e)
    → (resolve t id (write_touched later e m)).1 ≡ some (touched later e)
unfolding write_touched
written-resolve later t id e m u stripped named own alive =
    resolve-get t id (insert e.ref_id (touched later e) m)
      (insert-HasUniqueKeys e.ref_id (touched later e) m u) stripped named
    ∙ (ap (λ k. alive_at t (get k (insert e.ref_id (touched later e) m))) (sym own)
        ∙ (ap (alive_at t) (get-insert_self e.ref_id (touched later e) m) ∙ ground (arith, alive)))

resolve-HasUniqueKeys :
    (now : ℕ) (id : Text) (m : DataRefs) → HasUniqueKeys m → HasUniqueKeys (resolve now id m).0
unfolding resolve
resolve-HasUniqueKeys now id m u = ground (arith, prune-HasUniqueKeys now m u)

-- A touch that finds its reference, with nothing between its two blocks, keeps it for its time to
-- live from then on.
pub resolve-touch :
    (now later t : ℕ) (id : Text) (e : DataRegistryEntry) (m : DataRefs)
    → HasUniqueKeys m
    → strip id ≡ id
    → is_nonempty id ≡ true
    → (resolve now id m).1 ≡ some e
    → e.ref_id ≡ id
    → t ≤ deadline (touched later e)
    → ((touch now later id m).1 ≡ some (touched later e))
      × ((resolve t id (touch now later id m).0).1 ≡ some (touched later e))
unfolding touch
resolve-touch now later t id e m u stripped named found own alive =
    let written =
      written-resolve later t id e (resolve now id m).0 (resolve-HasUniqueKeys now id m u) stripped
        named own alive in
    (ground (arith, found), ground (arith, found, written))

release-HasUniqueKeys :
    (id : Text) (m : DataRefs) → HasUniqueKeys m → HasUniqueKeys (release id m).0
unfolding release
release-HasUniqueKeys id m u = ground (arith, erase-HasUniqueKeys (strip id) m u)

-- A release between the two blocks of a touch is undone by it: the reference is found again, as it
-- was before the release and with a new time to live.
pub release_between-touch :
    (now later t : ℕ) (id : Text) (e : DataRegistryEntry) (m : DataRefs)
    → HasUniqueKeys m
    → strip id ≡ id
    → is_nonempty id ≡ true
    → (resolve now id m).1 ≡ some e
    → e.ref_id ≡ id
    → t ≤ deadline (touched later e)
    → (resolve t id (write_touched later e (release id (resolve now id m).0).0)).1
      ≡ some (touched later e)
release_between-touch now later t id e m u stripped named found own alive =
    written-resolve later t id e (release id (resolve now id m).0).0
      (release-HasUniqueKeys id (resolve now id m).0 (resolve-HasUniqueKeys now id m u)) stripped
      named own alive
