-- ===== src/Snapshots/Store/Accounting/References.antt =====
-- A `refcount` is the number of references, and no record references a missing snapshot.
use mathlib.Core.Option
use riderless.Prelude.{
  ◌+◌, ◌-◌, String, ◌≡◌, refl, false, Option, none, some, List, arith, refers, eq_iff,
  if◌then◌else◌, ◌==◌, ◌∙◌,
}
use riderless.Snapshots.Store.Types.{SnapshotRecord, Store}
use riderless.Snapshots.Store.Dict.{find, modify, pop}
use riderless.Snapshots.Store.Dict.Laws.{
  Unique, find-modify, find-pop, total, total-modify_same, total-pop,
}
use riderless.Snapshots.Store.Core.{forget, released, release_ref, extra_parent}
use riderless.Snapshots.Store.Budget.{page_out}
use riderless.Snapshots.Store.Rule.{Current}
use riderless.Snapshots.Store.Rule.Safe.{Safe, release_ref-Unique}
use riderless.Snapshots.Store.Accounting.{uses, count_ref, tally, IsCounted}
use riderless.Snapshots.Store.Accounting.Bytes.{
  find-release_ref, total-release_ref, released_current,
}

-- The references of a record depend on its two fields alone.
pub uses-cong :
    (k : String) (x r : SnapshotRecord)
    → x.parent ≡ r.parent
    → x.context_parent ≡ r.context_parent
    → uses k x ≡ uses k r
unfolding uses
uses-cong k x r p c = rw (p, c)

-- A write that keeps the references and the `refcount` keeps the count.
pub modify-IsCounted :
    (s : Store) (k : String) (f : SnapshotRecord → SnapshotRecord)
    → ((r : SnapshotRecord) → (f r).id ≡ r.id)
    → ((r : SnapshotRecord) → (f r).parent ≡ r.parent)
    → ((r : SnapshotRecord) → (f r).context_parent ≡ r.context_parent)
    → ((r : SnapshotRecord) → (f r).refcount ≡ r.refcount)
    → (j : String) → total (uses j) s.records ≡ tally (find j s.records)
    → total (uses j) (modify k f s.records) ≡ tally (find j (modify k f s.records))
modify-IsCounted s k f id parent context count j h =
    total-modify_same (uses j) f (λ r. uses-cong j (f r) r (parent r) (context r)) k s.records
    ∙ h
    ∙ go (find j s.records) (find-modify f id k j s.records)
  where
    go :
        (o : Option SnapshotRecord)
        → find j (modify k f s.records) ≡ (if k == j then Option.map f o else o)
        → tally o ≡ tally (find j (modify k f s.records))
    go none e = ground (arith, e)
    go (some r) e = ground (arith, e, count r)

tally-release_ref :
    (o : Option String) (k : String) (rs : List SnapshotRecord)
    → tally (find k (release_ref o rs)) ≡ tally (find k rs) - count_ref o k
tally-release_ref o k rs = go (find k rs) (find-release_ref o k rs)
  where
    go :
        (x : Option SnapshotRecord)
        → find k (release_ref o rs) ≡ (if refers o k then Option.map released x else x)
        → tally (find k (release_ref o rs)) ≡ tally x - count_ref o k
    go none e = ground (arith, e)
    go (some r) e = ground (arith, e)

module _ (s : Store) (r : SnapshotRecord) (c : Current r s.records) (u : Unique s.records) where
  -- the records with the references of `r` released
  abbrev freed : List SnapshotRecord
  freed = release_ref (extra_parent r) (release_ref r.parent s.records)

  freed-Unique : Unique freed
  freed-Unique =
      release_ref-Unique (extra_parent r) (release_ref r.parent s.records)
        (release_ref-Unique r.parent s.records u)

  total-popped :
      (k : String) → total (uses k) s.records ≡ uses k r + total (uses k) (pop r.id freed)
  total-popped k =
      let (y, found, p, q, _, _) =
        released_current r.parent (extra_parent r) r.id s.records c.held c.found in
      let same = λ (o : Option String).
        total-release_ref (uses k) (λ x. uses-cong k (released x) x refl refl) o in
      let a = c.alike in
      omega (
        arith,
        same r.parent s.records,
        same (extra_parent r) (release_ref r.parent s.records),
        total-pop (uses k) r.id freed y found,
        uses-cong k y r (p ∙ a.parent) (q ∙ a.context_parent),
      )

  forget-IsCounted : r.refcount ≡ 0 → IsCounted s → IsCounted (forget r s)
  unfolding forget uses
  forget-IsCounted n h = record {
    at = λ k.
        let a = c.alike in
        ground (
          arith,
          a.refcount,
          c.found,
          h.at k,
          total-popped k,
          find-pop r.id k freed freed-Unique,
          eq_iff r.id k,
          tally-release_ref r.parent k s.records,
          tally-release_ref (extra_parent r) k (release_ref r.parent s.records),
        );
  }

pub IsCounted-Safe : Safe IsCounted
unfolding page_out
IsCounted-Safe = record {
  stable = record {
    neutral = λ s k f t n h. record {
      at = λ j.
          modify-IsCounted s k f (λ r. (n r).id) (λ r. (n r).parent) (λ r. (n r).context_parent)
            (λ r. (n r).refcount) j (h.at j);
    };
    ticks = λ s t h. record { at = h.at };
  };
  forgets = λ s r c _ n u h. forget-IsCounted s r c u n h;
  pages_out = λ s r c _ _ u h. record {
    at = λ j.
        modify-IsCounted s r.id (λ x. record x { resident = false }) (λ x. refl) (λ x. refl)
          (λ x. refl) (λ x. refl) j (h.at j);
  };
}
