-- ===== src/Snapshots/Store/Registry/Restoring.antt =====
-- `restore` of a leased snapshot, the worker's memory and the budget.
use riderless.Prelude.{
  ℕ, ◌+◌, String, ◌≡◌, refl, subst, sym, true, false, Option, none, some, arith, max, eq_iff,
}
use riderless.Action.{pure, raise}
use riderless.Action.Triple.{Triple, Triple-bind, Triple-then, Triple-weaken, Triple-if}
use riderless.Snapshots.Errors.{Error}
use riderless.Snapshots.Store.Types.{SnapshotRecord, Store}
use riderless.Snapshots.Store.Dict.{find}
use riderless.Snapshots.Store.Dict.Laws.{find-modify}
use riderless.Snapshots.Store.Env.{Env, Files, call}
use riderless.Snapshots.Store.Env.Rules.{On, Keeps-then, Keeps-bind, Keeps-call}
use riderless.Snapshots.Store.Core.{get}
use riderless.Snapshots.Store.Persist.{read_manifest, validate_manifest}
use riderless.Snapshots.Store.Budget.{fits, enforce_budget}
use riderless.Snapshots.Store.Rule.Safe.{Safe, Safe-both, Inv}
use riderless.Snapshots.Store.Rule.Loops.{Holding, get-keeps}
use riderless.Snapshots.Store.Rule.Publishing.{read_manifest-Keeps, validate_manifest-Keeps}
use riderless.Snapshots.Store.Rule.Evictions.{Room, enforce_budget-keeps}
use riderless.Snapshots.Store.Accounting.{IsSound, IsPinned, IsShelved}
use riderless.Snapshots.Store.Accounting.Pinned.{IsPinned-Safe}
use riderless.Snapshots.Store.Accounting.Presence.{IsSound-Safe, IsShelved-Safe}
use riderless.Snapshots.Store.Registry.{tensor_bytes, checksums, page_in, reload, restore}
use riderless.Snapshots.Store.Registry.Loading.{page_in-IsSound}

-- The snapshot is in the store and in the worker's memory.
pub record IsResident (k : String) (s : Store) : Type 0 where
  pub object : SnapshotRecord
  pub found : find k s.records ≡ some object
  pub is_in : object.resident ≡ true

abbrev pub Pinned : String → Store → Type 0
Pinned id s = IsSound s × IsPinned id s

abbrev Shelved : String → Store → Type 0
Shelved id s = IsSound s × IsShelved id s

Shelved-Safe : (id : String) → Safe (Shelved id)
Shelved-Safe id = Safe-both IsSound-Safe (IsShelved-Safe id)

abbrev pub Restored : String → Store → Type 0
Restored id s = Inv IsSound s × IsResident id s

module _ (r : SnapshotRecord) where
  -- A leased snapshot that is not resident is shelved.
  shelve : (s : Store) → Holding (Pinned r.id) r s → r.resident ≡ false → Inv (Shelved r.id) s
  shelve s h out =
      let p = h.0.rest.1 in
      let c = h.1 in
      let a = c.alike in
      record {
        unique = h.0.unique;
        rest = (
          h.0.rest.0,
          record {
            shelved = c.held;
            found = c.found;
            is_leased = ground (arith, p.found, p.is_leased, c.found);
            is_out = ground (arith, a.resident, out);
          },
        );
      }

  page_in-Restored :
      (loaded : ℕ) (s : Store)
      → Inv (Shelved r.id) s
      → fits loaded s ≡ true
      → Restored r.id (page_in r loaded s)
  unfolding page_in
  page_in-Restored loaded s h room =
      let out = h.rest.1 in
      let f : SnapshotRecord → SnapshotRecord =
        λ x. record x { resident = true; host_bytes = loaded; last_used = s.tick + 1 } in
      (
        page_in-IsSound r loaded s (record { unique = h.unique; rest = h.rest.0 }) out room,
        record {
          object = f out.shelved;
          found =
              ground
                (arith, find-modify f (λ x. refl) r.id r.id s.records, eq_iff r.id r.id, out.found);
          is_in = refl;
        },
      )

  module _ (env : Env) where
    reload-Restored :
        (directory : String) (files : Files)
        → Triple
            (On {env = env} (Inv (Shelved r.id)))
            (reload env r directory files)
            (λ _. On (Restored r.id))
            (λ _. On (Inv IsSound))
    unfolding reload
    reload-Restored directory files =
        let Q = Inv (Shelved r.id) in
        let loaded = max r.host_bytes (tensor_bytes files) in
        let room = Room env (Shelved r.id) (Shelved-Safe r.id) loaded in
        Keeps-bind Q (Inv IsSound) (read_manifest env directory) _ (read_manifest-Keeps Q directory)
          sound
          λ m.
            Keeps-then Q (Inv IsSound) (validate_manifest env m r) _ (validate_manifest-Keeps Q m r)
              sound
              (Triple-then (λ _. On room) (enforce_budget env loaded) _
                (Triple-weaken (enforce_budget env loaded) (λ s h. h) (λ _ s h. h)
                  (λ e s h. sound s.store h)
                  (enforce_budget-keeps env (Shelved r.id) (Shelved-Safe r.id) loaded))
                λ _.
                  Keeps-then room (Inv IsSound) (call (env.load r.id directory (checksums files))) _
                    (Keeps-call room (env.load r.id directory (checksums files)))
                    (λ s h. sound s h.0)
                    (record { holds = λ s h. page_in-Restored loaded s.store h.0 h.1 }))
      where
        sound : (s : Store) → Inv (Shelved r.id) s → Inv IsSound s
        sound s h = record { unique = h.unique; rest = h.rest.0 }

-- From a sound store in which the snapshot is leased, `restore` returns with the snapshot resident
-- in a sound store, or raises and leaves a sound store.
pub restore-Restored :
    (env : Env) (id : String)
    → Triple
        (On {env = env} (Inv (Pinned id)))
        (restore env id)
        (λ _. On (Restored id))
        (λ _. On (Inv IsSound))
unfolding restore
restore-Restored env id =
    Triple-bind (λ r. On (λ s. Holding (Pinned id) r s × (r.id ≡ id))) (get env id) _
      (Triple-weaken (get env id) (λ s h. h) (λ r s h. h)
        (λ e s h. record { unique = h.unique; rest = h.rest.0 })
        (get-keeps env (Pinned id) (Safe-both IsSound-Safe (IsPinned-Safe id)).stable id))
      λ r.
        Triple-if r.resident (pure r) _
          (λ live. record { holds = λ s h. resident r live s.store h })
          λ out. record { holds = λ s h. (absent r out r.disk_dir r.durable_files).holds s h }
  where
    resident :
        (r : SnapshotRecord)
        → r.resident ≡ true
        → (s : Store) → Holding (Pinned id) r s × (r.id ≡ id)
        → Restored id s
    resident r live s h =
        let c = h.0.1 in
        let a = c.alike in
        (
          record { unique = h.0.0.unique; rest = h.0.0.rest.0 },
          record {
            object = c.held;
            found = subst (λ k. find k s.records ≡ some c.held) h.1 c.found;
            is_in = ground (arith, a.resident, live);
          },
        )

    sound : (r : SnapshotRecord) (s : Store) → Holding (Pinned id) r s × (r.id ≡ id) → Inv IsSound s
    sound r s h = record { unique = h.0.0.unique; rest = h.0.0.rest.0 }

    absent :
        (r : SnapshotRecord)
        → r.resident ≡ false
        → (dir : Option String) (durable : Option Files)
        → Triple {A = SnapshotRecord}
            (On {env = env} (λ s. Holding (Pinned id) r s × (r.id ≡ id)))
            (elim dir [
              | none ↦ raise Error.not_found
              | some directory ↦ elim durable [
                | none ↦ raise Error.not_found
                | some files ↦ reload env r directory files
              ]
            ])
            (λ _. On (Restored id))
            (λ _. On (Inv IsSound))
    absent r out none durable = record { holds = λ s h. sound r s.store h }
    absent r out (some d) none = record { holds = λ s h. sound r s.store h }
    absent r out (some d) (some files) = record {
      holds = λ s h.
          (Triple-weaken (reload env r d files) (λ t k. k)
              (λ x t k. subst (λ z. Restored z t.store) h.1 k) (λ e t k. k)
              (reload-Restored r env d files)).holds
            s (shelve r s.store (subst (λ k. Holding (Pinned k) r s.store) (sym h.1) h.0) out);
    }
