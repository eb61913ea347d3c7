-- ===== src/Snapshots/Store/Accounting/Bytes.antt =====
-- `_resident_bytes`, the sum over the resident snapshots and the budget.
use mathlib.Core.Option
use riderless.Prelude.{
  ℕ, String, ◌≡◌, refl, true, false, Option, none, some, List, arith, refers, if◌then◌else◌, ◌∙◌,
  sym,
}
use riderless.Snapshots.Store.Types.{SnapshotRecord, Store}
use riderless.Snapshots.Store.Dict.{find}
use riderless.Snapshots.Store.Dict.Laws.{
  find-modify, total, total-modify, total-modify_same, total-pop,
}
use riderless.Snapshots.Store.Core.{forget, released, release_ref, extra_parent}
use riderless.Snapshots.Store.Budget.{page_out}
use riderless.Snapshots.Store.Rule.{Alike, Current}
use riderless.Snapshots.Store.Rule.Safe.{Safe}
use riderless.Snapshots.Store.Accounting.{charge, IsAccounted, IsWithin}

-- What a release of a reference shows under a key.
pub find-release_ref :
    (o : Option String) (k : String) (rs : List SnapshotRecord)
    → find k (release_ref o rs)
      ≡ (if refers o k then Option.map released (find k rs) else find k rs)
find-release_ref none k rs = refl
find-release_ref (some j) k rs = find-modify released (λ r. refl) j k rs

-- A release changes no sum that does not read `refcount`.
pub total-release_ref :
    (w : SnapshotRecord → ℕ)
    → ((r : SnapshotRecord) → w (released r) ≡ w r)
    → (o : Option String) (rs : List SnapshotRecord) → total w (release_ref o rs) ≡ total w rs
total-release_ref w same none rs = refl
total-release_ref w same (some j) rs = total-modify_same w released same j rs

-- The record that `forget` pops, after the releases.
pub released_current :
    (o o' : Option String) (k : String) (rs : List SnapshotRecord) (x : SnapshotRecord)
    → find k rs ≡ some x
    → (y : SnapshotRecord) × (find k (release_ref o' (release_ref o rs)) ≡ some y)
      × (y.parent ≡ x.parent)
      × (y.context_parent ≡ x.context_parent)
      × (y.resident ≡ x.resident)
      × (y.host_bytes ≡ x.host_bytes)
released_current o o' k rs x h = (
  (if refers o' k
      then released (if refers o k then released x else x)
      else (if refers o k then released x else x)),
  ground (arith, find-release_ref o k rs, find-release_ref o' k (release_ref o rs), h),
  ground arith,
  ground arith,
  ground arith,
  ground arith,
)

charge-Alike : (x r : SnapshotRecord) → Alike x r → charge x ≡ charge r
charge-Alike x r a = ground arith

forget-IsAccounted :
    (s : Store) (r : SnapshotRecord)
    → Current r s.records
    → IsAccounted s
    → IsAccounted (forget r s)
unfolding forget
forget-IsAccounted s r c h =
    let (y, found, _, _, live, size) =
      released_current r.parent (extra_parent r) r.id s.records c.held c.found in
    let popped =
      total-pop charge r.id (release_ref (extra_parent r) (release_ref r.parent s.records)) y
        found in
    let first = total-release_ref charge (λ x. refl) r.parent s.records in
    let both =
      total-release_ref charge (λ x. refl) (extra_parent r) (release_ref r.parent s.records) in
    let a = c.alike in ground (arith, h, popped, first, both, live, size, a)

page_out-IsAccounted :
    (s : Store) (r : SnapshotRecord)
    → Current r s.records
    → r.resident ≡ true
    → IsAccounted s
    → IsAccounted (page_out r s)
unfolding page_out
page_out-IsAccounted s r c live h =
    let out =
      total-modify charge (λ x. record x { resident = false }) r.id s.records c.held c.found in
    let a = c.alike in ground (arith, h, out, a)

pub IsAccounted-Safe : Safe IsAccounted
IsAccounted-Safe = record {
  stable = record {
    neutral = λ s k f t n h.
        h ∙ sym (total-modify_same charge f (λ r. charge-Alike (f r) r (n r)) k s.records);
    ticks = λ s t h. h;
  };
  forgets = λ s r c _ _ _ h. forget-IsAccounted s r c h;
  pages_out = λ s r c _ live _ h. page_out-IsAccounted s r c live h;
}

forget-IsWithin : (s : Store) (r : SnapshotRecord) → IsWithin s → IsWithin (forget r s)
unfolding forget
forget-IsWithin s r h = ground arith

page_out-IsWithin : (s : Store) (r : SnapshotRecord) → IsWithin s → IsWithin (page_out r s)
unfolding page_out
page_out-IsWithin s r h = omega arith

pub IsWithin-Safe : Safe IsWithin
IsWithin-Safe = record {
  stable = record { neutral = λ s k f t n h. h; ticks = λ s t h. h };
  forgets = λ s r _ _ _ _ h. forget-IsWithin s r h;
  pages_out = λ s r _ _ _ _ h. page_out-IsWithin s r h;
}
