-- ===== src/Snapshots/Store/Rule/Safe.antt =====
-- The predicates on the store that every write of the loops preserves.
use riderless.Prelude.{ℕ, ◌≡◌, refl, String, true, false, Option, none, some, List}
use riderless.Snapshots.Store.Types.{SnapshotRecord, Store}
use riderless.Snapshots.Store.Dict.{modify}
use riderless.Snapshots.Store.Dict.Laws.{Unique, modify-Unique, pop-Unique}
use riderless.Snapshots.Store.Core.{forget, released, release_ref, extra_parent}
use riderless.Snapshots.Store.Budget.{page_out}
use riderless.Snapshots.Store.Rule.{Neutral, Current}

-- Writes to other fields of a record, and to the tick.
pub record Stable (P : Store → Type 0) : Type 0 where
  pub neutral :
      (s : Store) (k : String) (f : SnapshotRecord → SnapshotRecord) (t : ℕ)
      → Neutral f
      → P s
      → P (record s { records = modify k f s.records; tick = t })
  pub ticks : (s : Store) (t : ℕ) → P s → P (record s { tick = t })

-- `forget` is only reached with a record that nothing leases or references, and `page_out` only
-- with a resident one that nothing leases.
pub record Safe (P : Store → Type 0) : Type 0 where
  pub stable : Stable P
  pub forgets :
      (s : Store) (r : SnapshotRecord)
      → Current r s.records
      → r.leases ≡ 0
      → r.refcount ≡ 0
      → Unique s.records
      → P s
      → P (forget r s)
  pub pages_out :
      (s : Store) (r : SnapshotRecord)
      → Current r s.records
      → r.leases ≡ 0
      → r.resident ≡ true
      → Unique s.records
      → P s
      → P (page_out r s)

-- The predicate, with distinct ids.
pub record Inv (P : Store → Type 0) (s : Store) : Type 0 where
  pub unique : Unique s.records
  pub rest : P s

pub release_ref-Unique :
    (o : Option String) (rs : List SnapshotRecord) → Unique rs → Unique (release_ref o rs)
release_ref-Unique none rs u = u
release_ref-Unique (some k) rs u = modify-Unique released (λ r. refl) k rs u

module _ {P : Store → Type 0} (stable : Stable P) where
  pub Neutral-Inv :
      (s : Store) (k : String) (f : SnapshotRecord → SnapshotRecord) (t : ℕ)
      → Neutral f
      → Inv P s
      → Inv P (record s { records = modify k f s.records; tick = t })
  Neutral-Inv s k f t n h = record {
    unique = modify-Unique f (λ r. (n r).id) k s.records h.unique;
    rest = stable.neutral s k f t n h.rest;
  }

module _ {P : Store → Type 0} (safe : Safe P) where
  pub forget-Inv :
      (s : Store) (r : SnapshotRecord)
      → Current r s.records
      → r.leases ≡ 0
      → r.refcount ≡ 0
      → Inv P s
      → Inv P (forget r s)
  unfolding forget
  forget-Inv s r c l n h = record {
    unique = pop-Unique r.id (release_ref (extra_parent r) (release_ref r.parent s.records)) (
        release_ref-Unique (extra_parent r) (release_ref r.parent s.records)
          (release_ref-Unique r.parent s.records h.unique));
    rest = safe.forgets s r c l n h.unique h.rest;
  }

  pub page_out-Inv :
      (s : Store) (r : SnapshotRecord)
      → Current r s.records
      → r.leases ≡ 0
      → r.resident ≡ true
      → Inv P s
      → Inv P (page_out r s)
  unfolding page_out
  page_out-Inv s r c l n h = record {
    unique = modify-Unique (λ x. record x { resident = false }) (λ x. refl) r.id s.records h.unique;
    rest = safe.pages_out s r c l n h.unique h.rest;
  }

-- Two predicates that survive the writes do so together.
pub Stable-both : {P Q : Store → Type 0} → Stable P → Stable Q → Stable (λ s. P s × Q s)
Stable-both p q = record {
  neutral = λ s k f t n h. (p.neutral s k f t n h.0, q.neutral s k f t n h.1);
  ticks = λ s t h. (p.ticks s t h.0, q.ticks s t h.1);
}

pub Safe-both : {P Q : Store → Type 0} → Safe P → Safe Q → Safe (λ s. P s × Q s)
Safe-both p q = record {
  stable = Stable-both p.stable q.stable;
  forgets = λ s r c l n u h. (p.forgets s r c l n u h.0, q.forgets s r c l n u h.1);
  pages_out = λ s r c l n u h. (p.pages_out s r c l n u h.0, q.pages_out s r c l n u h.1);
}
