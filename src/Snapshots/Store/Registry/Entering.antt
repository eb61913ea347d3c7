-- ===== src/Snapshots/Store/Registry/Entering.antt =====
-- The counters of the store under the writes of `register` and `restore`.
use mathlib.Core.Option
use riderless.Prelude.{
  ℕ, ◌+◌, String, ◌≡◌, refl, Bool, true, false, Option, none, some, List, arith, refers, eq_iff,
  if◌then◌else◌, ◌==◌, ◌∙◌, subst,
}
use riderless.Snapshots.Store.Types.{SnapshotRecord, Store}
use riderless.Snapshots.Store.Dict.{find, put}
use riderless.Snapshots.Store.Dict.Laws.{
  Unique, find-modify, find-put, total, total-modify_same, total-put, modify-Unique, put-Unique,
}
use riderless.Snapshots.Store.Core.{extra_parent}
use riderless.Snapshots.Store.Manifest.{valid_id}
use riderless.Snapshots.Store.Budget.{fits}
use riderless.Snapshots.Store.Rule.Safe.{Inv}
use riderless.Snapshots.Store.Accounting.{
  charge, uses, count_ref, tally, IsCounted, IsNamed, IsAbsent, IsSound,
}
use riderless.Snapshots.Store.Accounting.References.{uses-cong}
use riderless.Snapshots.Store.Registry.{referenced, add_ref, enter}

-- A reference leads to a record of the store.
abbrev pub Resolved : Option String → List SnapshotRecord → Type 0
Resolved none rs = Unit
Resolved (some k) rs = (x : SnapshotRecord) × (find k rs ≡ some x)

find-add_ref :
    (o : Option String) (k : String) (rs : List SnapshotRecord)
    → find k (add_ref o rs) ≡ (if refers o k then Option.map referenced (find k rs) else find k rs)
find-add_ref none k rs = refl
find-add_ref (some j) k rs = find-modify referenced (λ r. refl) j k rs

add_ref-Unique : (o : Option String) (rs : List SnapshotRecord) → Unique rs → Unique (add_ref o rs)
add_ref-Unique none rs u = u
add_ref-Unique (some j) rs u = modify-Unique referenced (λ r. refl) j rs u

total-add_ref :
    (w : SnapshotRecord → ℕ)
    → ((r : SnapshotRecord) → w (referenced r) ≡ w r)
    → (o : Option String) (rs : List SnapshotRecord) → total w (add_ref o rs) ≡ total w rs
total-add_ref w same none rs = refl
total-add_ref w same (some j) rs = total-modify_same w referenced same j rs

tally-add_ref :
    (o : Option String) (k : String) (rs : List SnapshotRecord)
    → Resolved o rs
    → tally (find k (add_ref o rs)) ≡ tally (find k rs) + count_ref o k
tally-add_ref none k rs h = omega arith
tally-add_ref (some j) k rs (x, h) =
    ground (arith, find-modify referenced (λ r. refl) j k rs, h, eq_iff j k)

Resolved-put :
    (o : Option String) (r : SnapshotRecord) (rs : List SnapshotRecord)
    → Resolved o rs
    → Resolved o (put r rs)
Resolved-put none r rs h = tt
Resolved-put (some k) r rs (x, h) = (if r.id == k then r else x, ground (arith, find-put r k rs, h))

Resolved-add_ref :
    (o o' : Option String) (rs : List SnapshotRecord) → Resolved o rs → Resolved o (add_ref o' rs)
Resolved-add_ref none o' rs h = tt
Resolved-add_ref (some k) o' rs (x, h) =
    (if refers o' k then referenced x else x, ground (arith, find-add_ref o' k rs, h))

Resolved-apart :
    (o : Option String) (k : String) (rs : List SnapshotRecord)
    → Resolved o rs
    → find k rs ≡ none
    → refers o k ≡ false
Resolved-apart none k rs h n = refl
Resolved-apart (some j) k rs (x, h) n = ground (arith, eq_iff j k, h, n)

Resolved-extra :
    (r : SnapshotRecord) (rs : List SnapshotRecord)
    → Resolved r.context_parent rs
    → Resolved (extra_parent r) rs
Resolved-extra r rs h = go r.context_parent h
  where
    choose :
        (b : Bool) (c : String) → Resolved (some c) rs → Resolved (if b then none else some c) rs
    choose true c h = tt
    choose false c h = h

    go :
        (o : Option String)
        → Resolved o rs
        → Resolved (elim o [ none ↦ none | some c ↦ if refers r.parent c then none else some c ]) rs
    go none h = tt
    go (some c) h = choose (refers r.parent c) c h

module _ (r : SnapshotRecord) (s : Store) (h : Inv IsSound s) (absent : IsAbsent r.id s)
    (parent : Resolved r.parent s.records) (context : Resolved r.context_parent s.records)
    (fresh : r.refcount ≡ 0) where
  abbrev entered : List SnapshotRecord
  entered = put r s.records

  abbrev counted : List SnapshotRecord
  counted = add_ref r.parent entered

  Resolved-first : Resolved r.parent entered
  Resolved-first = Resolved-put r.parent r s.records parent

  Resolved-second : Resolved (extra_parent r) counted
  Resolved-second =
      Resolved-add_ref (extra_parent r) r.parent entered
        (Resolved-put (extra_parent r) r s.records (Resolved-extra r s.records context))

  sums :
      (w : SnapshotRecord → ℕ)
      → ((x : SnapshotRecord) → w (referenced x) ≡ w x)
      → total w (add_ref (extra_parent r) counted) ≡ total w s.records + w r
  sums w same =
      total-add_ref w same (extra_parent r) counted
      ∙ total-add_ref w same r.parent entered
      ∙ total-put w r s.records absent

  pub enter-IsCounted : IsCounted (enter r s)
  unfolding enter uses
  enter-IsCounted = record {
    at = λ k. ground (
      arith,
      sums (uses k) (λ x. uses-cong k (referenced x) x refl refl),
      h.rest.1.0.at k,
      tally-add_ref (extra_parent r) k counted Resolved-second,
      tally-add_ref r.parent k entered Resolved-first,
      find-put r k s.records,
      eq_iff r.id k,
      absent,
      fresh,
    );
  }

  -- The new record stands in the store as it was built.
  pub find-enter : find r.id (enter r s).records ≡ some r
  unfolding enter
  find-enter = ground (
    arith,
    find-add_ref (extra_parent r) r.id counted,
    find-add_ref r.parent r.id entered,
    find-put r r.id s.records,
    eq_iff r.id r.id,
    Resolved-apart r.parent r.id s.records parent absent,
    Resolved-apart (extra_parent r) r.id s.records (Resolved-extra r s.records context) absent,
  )

  enter-IsNamed : valid_id r.id ≡ true → IsNamed (enter r s)
  unfolding enter
  enter-IsNamed valid = record { at = λ k x e. choose k (find k s.records) refl x e }
    where
      choose :
          (k : String) (o : Option SnapshotRecord)
          → find k s.records ≡ o
          → (x : SnapshotRecord) → find k (add_ref (extra_parent r) counted) ≡ some x
          → valid_id k ≡ true
      choose k (some y) e x _ = h.rest.1.1.1.at k y e
      choose k none e x p =
          let same : r.id ≡ k = ground (
            arith,
            e,
            p,
            find-add_ref (extra_parent r) k counted,
            find-add_ref r.parent k entered,
            find-put r k s.records,
            eq_iff r.id k,
          ) in
          subst (λ z. valid_id z ≡ true) same valid

  -- A resident record whose bytes fit enters a sound store.
  pub enter-IsSound :
      r.resident ≡ true
      → fits r.host_bytes s ≡ true
      → valid_id r.id ≡ true
      → Inv IsSound (enter r s)
  unfolding enter fits
  enter-IsSound live room valid = record {
    unique =
        add_ref-Unique (extra_parent r) counted
          (add_ref-Unique r.parent entered (put-Unique r s.records h.unique));
    rest = (
      ground (arith, sums charge (λ x. refl), h.rest.0, live),
      (enter-IsCounted, (ground (arith, room), enter-IsNamed valid)),
    );
  }
