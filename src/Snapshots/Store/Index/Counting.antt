-- ===== src/Snapshots/Store/Index/Counting.antt =====
-- The references that the index counts: a list of names, and the counters of the records.
use mathlib.Core.Option
use riderless.Prelude.{
  ℕ, ◌+◌, String, ◌≡◌, refl, ap, ◌∙◌, subst, true, false, Option, none, some, is_some, List, [],
  ◌∷◌, ◌++◌, arith, eq_iff, ◌==◌, if◌then◌else◌, Bool-cases, inl, inr, ◌⊎◌,
}
use riderless.Snapshots.Store.Types.{SnapshotRecord, Store}
use riderless.Snapshots.Store.Dict.{find, modify, put}
use riderless.Snapshots.Store.Dict.Laws.{
  find-put, put-Unique, find-modify, modify-Unique, total, total-modify_same,
}
use riderless.Snapshots.Store.Core.{extra_parent}
use riderless.Snapshots.Store.Lease.{optional}
use riderless.Snapshots.Store.Manifest.{valid_id}
use riderless.Snapshots.Store.Rule.Safe.{Inv}
use riderless.Snapshots.Store.Accounting.{charge, uses, count_ref, tally, IsNamed}
use riderless.Snapshots.Store.Accounting.References.{uses-cong}
use riderless.Snapshots.Store.Registry.{referenced}
use riderless.Snapshots.Store.Registry.Loading.{modify-IsNamed}
use riderless.Snapshots.Store.Index.{reference_set}

-- No record takes memory.
abbrev pub IsOut : Store → Type 0
IsOut s = (s.resident_bytes ≡ 0) × (total charge s.records ≡ 0)

-- The store in the first loop: nothing is counted yet.
pub record IsBlank (s : Store) : Type 0 where
  pub is_out : IsOut s
  pub named : IsNamed s
  pub uncounted : (k : String) → tally (find k s.records) ≡ 0

pub total-put_zero :
    (r : SnapshotRecord) (rs : List SnapshotRecord)
    → charge r ≡ 0
    → total charge rs ≡ 0
    → total charge (put r rs) ≡ 0
unfolding total put
total-put_zero r [] c h = ground (arith, c)
total-put_zero r (x ∷ xs) c h = ground (arith, c, h, total-put_zero r xs c)

pub put-IsBlank :
    (r : SnapshotRecord) (s : Store)
    → charge r ≡ 0
    → r.refcount ≡ 0
    → valid_id r.id ≡ true
    → Inv IsBlank s
    → Inv IsBlank (record s { records = put r s.records })
put-IsBlank r s c n v h = record {
  unique = put-Unique r s.records h.unique;
  rest = record {
    is_out = (h.rest.is_out.0, total-put_zero r s.records c h.rest.is_out.1);
    named = record { at = λ k x e. named k x e (Bool-cases (r.id == k)) };
    uncounted = λ k. ground (arith, find-put r k s.records, n, h.rest.uncounted k);
  };
}
  where
    named :
        (k : String) (x : SnapshotRecord)
        → find k (put r s.records) ≡ some x
        → ((r.id == k) ≡ true) ⊎ ((r.id == k) ≡ false)
        → valid_id k ≡ true
    named k x e (inl y) = subst (λ z. valid_id z ≡ true) ((eq_iff r.id k).0 y) v
    named k x e (inr y) = h.rest.named.at k x (ground (arith, find-put r k s.records, y, e))

-- how often a name stands in a list
abbrev pub occurrences : List String → String → ℕ
occurrences [] k = 0
occurrences (id ∷ ids) k = (if id == k then 1 else 0) + occurrences ids k

pub uses-reference_set :
    (k : String) (r : SnapshotRecord) → uses k r ≡ occurrences (reference_set r) k
unfolding uses
uses-reference_set k r = go r.parent (extra_parent r)
  where
    go :
        (a b : Option String)
        → count_ref a k + count_ref b k ≡ occurrences (optional a ++ optional b) k
    go none none = omega arith
    go none (some b) = ground arith
    go (some a) none = ground arith
    go (some a) (some b) = ground arith

-- The store in the second loop: the records are those of `rs` but for their counters, and `c` has been
-- counted.
pub record IsLinked (rs : List SnapshotRecord) (c : String → ℕ) (s : Store) : Type 0 where
  pub is_out : IsOut s
  pub named : IsNamed s
  pub same : (k : String) → total (uses k) s.records ≡ total (uses k) rs
  pub counted : (k : String) → c k ≡ tally (find k s.records)

pub modify-IsLinked :
    (rs : List SnapshotRecord) (c c' : String → ℕ) (j : String)
    (f : SnapshotRecord → SnapshotRecord)
    → ((r : SnapshotRecord) → (f r).id ≡ r.id)
    → ((r : SnapshotRecord) → charge (f r) ≡ charge r)
    → ((r : SnapshotRecord) → (f r).parent ≡ r.parent)
    → ((r : SnapshotRecord) → (f r).context_parent ≡ r.context_parent)
    → (s : Store) → ((k : String) → c' k ≡ tally (find k (modify j f s.records)))
    → Inv (IsLinked rs c) s
    → Inv (IsLinked rs c') (record s { records = modify j f s.records })
modify-IsLinked rs c c' j f id bytes parent context s count h = record {
  unique = modify-Unique f id j s.records h.unique;
  rest = record {
    is_out = (h.rest.is_out.0, total-modify_same charge f bytes j s.records ∙ h.rest.is_out.1);
    named = record { at = modify-IsNamed s j f id h.rest.named };
    same = λ k.
        total-modify_same (uses k) f (λ r. uses-cong k (f r) r (parent r) (context r)) j s.records
        ∙ h.rest.same k;
    counted = count;
  };
}

-- One reference more is counted.
pub counted-referenced :
    (c : String → ℕ) (id : String) (rs : List SnapshotRecord)
    → is_some (find id rs) ≡ true
    → ((k : String) → c k ≡ tally (find k rs))
    → (k : String) → c k + (if id == k then 1 else 0) ≡ tally (find k (modify id referenced rs))
counted-referenced c id rs found h k =
    go (find k rs) refl (h k) (find-modify referenced (λ r. refl) id k rs)
  where
    go :
        (o : Option SnapshotRecord)
        → find k rs ≡ o
        → c k ≡ tally o
        → find k (modify id referenced rs) ≡ (if id == k then Option.map referenced o else o)
        → c k + (if id == k then 1 else 0) ≡ tally (find k (modify id referenced rs))
    go none e n m = elim (Bool-cases (id == k)) [
      | inl y ↦
          let same : find id rs ≡ find k rs = ap (λ z. find z rs) ((eq_iff id k).0 y) in
          absurd (ground (arith, same, e, found))
      | inr y ↦ ground (arith, n, m, y)
    ]
    go (some r) e n m = ground (arith, n, m)

-- A write that keeps the `refcount`.
pub tally-modify_same :
    (f : SnapshotRecord → SnapshotRecord)
    → ((r : SnapshotRecord) → (f r).id ≡ r.id)
    → ((r : SnapshotRecord) → (f r).refcount ≡ r.refcount)
    → (id k : String) (rs : List SnapshotRecord)
    → tally (find k (modify id f rs)) ≡ tally (find k rs)
tally-modify_same f keep count id k rs = go (find k rs) (find-modify f keep id k rs)
  where
    go :
        (o : Option SnapshotRecord)
        → find k (modify id f rs) ≡ (if id == k then Option.map f o else o)
        → tally (find k (modify id f rs)) ≡ tally o
    go none e = ground (arith, e)
    go (some r) e = ground (arith, e, count r)
