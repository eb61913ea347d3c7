-- ===== src/Snapshots/Store/Registry/Loading.antt =====
-- The writes at the end of `restore` keep the counters of the store true, and so do the writes to
-- `leases` and to `promotion_child`.
use riderless.Prelude.{ℕ, ◌+◌, String, ◌≡◌, refl, true, some, arith, ◌∙◌, sym}
use riderless.Snapshots.Store.Types.{SnapshotRecord, Store}
use riderless.Snapshots.Store.Dict.{find, modify}
use riderless.Snapshots.Store.Dict.Laws.{total-modify, total-modify_same, modify-Unique}
use riderless.Snapshots.Store.Budget.{fits}
use riderless.Snapshots.Store.Manifest.{valid_id}
use riderless.Snapshots.Store.Lease.{leased, unleased}
use riderless.Snapshots.Store.Lease.Pins.{Lends}
use riderless.Snapshots.Store.Rule.Safe.{Inv}
use riderless.Snapshots.Store.Accounting.{charge, IsNamed, IsShelved, IsSound}
use riderless.Snapshots.Store.Accounting.References.{modify-IsCounted}
use riderless.Snapshots.Store.Accounting.Presence.{modify-present}
use riderless.Snapshots.Store.Registry.{page_in}

pub modify-IsNamed :
    (s : Store) (j : String) (f : SnapshotRecord → SnapshotRecord)
    → ((r : SnapshotRecord) → (f r).id ≡ r.id)
    → IsNamed s
    → (k : String) (r : SnapshotRecord) → find k (modify j f s.records) ≡ some r
    → valid_id k ≡ true
modify-IsNamed s j f keep h k r e =
    let (x, here) = modify-present k j f keep s.records r e in h.at k x here

-- A snapshot that was not resident is loaded where its bytes fit.
pub page_in-IsSound :
    (r : SnapshotRecord) (loaded : ℕ) (s : Store)
    → Inv IsSound s
    → IsShelved r.id s
    → fits loaded s ≡ true
    → Inv IsSound (page_in r loaded s)
unfolding page_in fits
page_in-IsSound r loaded s h out room =
    let f : SnapshotRecord → SnapshotRecord =
      λ x. record x { resident = true; host_bytes = loaded; last_used = s.tick + 1 } in
    record {
      unique = modify-Unique f (λ x. refl) r.id s.records h.unique;
      rest = (
        ground (
          arith,
          h.rest.0,
          total-modify charge f r.id s.records out.shelved out.found,
          out.is_out,
        ),
        (
          record {
            at = λ k.
                modify-IsCounted s r.id f (λ x. refl) (λ x. refl) (λ x. refl) (λ x. refl) k
                  (h.rest.1.0.at k);
          },
          (ground (arith, room), record { at = modify-IsNamed s r.id f (λ x. refl) h.rest.1.1.1 }),
        ),
      );
    }

-- A write that changes neither a charge nor a reference nor a key.
module _ (f : SnapshotRecord → SnapshotRecord) (id : (r : SnapshotRecord) → (f r).id ≡ r.id)
    (bytes : (r : SnapshotRecord) → charge (f r) ≡ charge r)
    (parent : (r : SnapshotRecord) → (f r).parent ≡ r.parent)
    (context : (r : SnapshotRecord) → (f r).context_parent ≡ r.context_parent)
    (count : (r : SnapshotRecord) → (f r).refcount ≡ r.refcount) where
  pub modify-IsSound :
      (s : Store) (k : String) → IsSound s → IsSound (record s { records = modify k f s.records })
  modify-IsSound s k h = (
    h.0 ∙ sym (total-modify_same charge f bytes k s.records),
    (
      record { at = λ j. modify-IsCounted s k f id parent context count j (h.1.0.at j) },
      (h.1.1.0, record { at = modify-IsNamed s k f id h.1.1.1 }),
    ),
  )

pub IsSound-Lends : Lends IsSound
IsSound-Lends = record {
  lend = modify-IsSound leased (λ r. refl) (λ r. refl) (λ r. refl) (λ r. refl) (λ r. refl);
  give_back = modify-IsSound unleased (λ r. refl) (λ r. refl) (λ r. refl) (λ r. refl) (λ r. refl);
}
