-- ===== src/Snapshots/Store/Order.antt =====
-- The order in which `_evict_one` tries its candidates.
use riderless.Prelude.{
  ◌≤◌, ◌≡◌, subst, sym, inl, inr, Bool, true, List, [], ◌∷◌, All, arith, leb, Bool-cases,
}
use riderless.Snapshots.Store.Types.{SnapshotRecord}
use riderless.Snapshots.Store.Budget.{select, insert_by_use, sort_by_use, is_candidate, candidates}

-- No record of the list was used before `r`.
abbrev pub Oldest : SnapshotRecord → List SnapshotRecord → Type 0
Oldest r = All (λ x. r.last_used ≤ x.last_used)

abbrev Ordered : List SnapshotRecord → Type 0
Ordered [] = Unit {0}
Ordered (r ∷ rs) = Oldest r rs × Ordered rs

Oldest-trans :
    (r x : SnapshotRecord) (rs : List SnapshotRecord)
    → r.last_used ≤ x.last_used
    → Oldest x rs
    → Oldest r rs
Oldest-trans r x [] h k = tt
Oldest-trans r x (y ∷ rs) h k = (omega arith, Oldest-trans r x rs h k.1)

Oldest-insert :
    (r x : SnapshotRecord) (rs : List SnapshotRecord)
    → r.last_used ≤ x.last_used
    → Oldest r rs
    → Oldest r (insert_by_use x rs)
unfolding insert_by_use
Oldest-insert r x [] h k = (h, tt)
Oldest-insert r x (y ∷ rs) h k = elim (Bool-cases (leb x.last_used y.last_used)) [
  | inl e ↦ rw e (h, k)
  | inr e ↦ rw e (k.0, Oldest-insert r x rs h k.1)
]

insert-Ordered :
    (r : SnapshotRecord) (rs : List SnapshotRecord) → Ordered rs → Ordered (insert_by_use r rs)
unfolding insert_by_use
insert-Ordered r [] h = (tt, tt)
insert-Ordered r (x ∷ rs) h = elim (Bool-cases (leb r.last_used x.last_used)) [
  | inl e ↦ rw e ((ground (arith, e), Oldest-trans r x rs (ground (arith, e)) h.0), h)
  | inr e ↦ rw e (Oldest-insert x r rs (ground (arith, e)) h.0, insert-Ordered r rs h.1)
]

sort-Ordered : (rs : List SnapshotRecord) → Ordered (sort_by_use rs)
unfolding sort_by_use
sort-Ordered [] = tt
sort-Ordered (r ∷ rs) = insert-Ordered r (sort_by_use rs) (sort-Ordered rs)

-- What holds of a sorted list holds of the list.
insert-All :
    (P : SnapshotRecord → Type 0) (r : SnapshotRecord) (rs : List SnapshotRecord)
    → All P (insert_by_use r rs)
    → P r × All P rs
unfolding insert_by_use
insert-All P r [] h = (h.0, tt)
insert-All P r (x ∷ rs) h = elim (Bool-cases (leb r.last_used x.last_used)) [
  | inl e ↦ rw e at h
  | inr e ↦
      let k : All P (x ∷ insert_by_use r rs) = rw e at h in
      let rest = insert-All P r rs k.1 in (rest.0, (k.0, rest.1))
]

sort-All :
    (P : SnapshotRecord → Type 0) (rs : List SnapshotRecord) → All P (sort_by_use rs) → All P rs
unfolding sort_by_use
sort-All P [] h = tt
sort-All P (r ∷ rs) h = let k = insert-All P r (sort_by_use rs) h in (k.0, sort-All P rs k.1)

-- What holds of the selected records holds of each record that the test takes.
select-All :
    (P : SnapshotRecord → Type 0) (test : SnapshotRecord → Bool) (rs : List SnapshotRecord)
    → All P (select test rs)
    → All (λ x. test x ≡ true → P x) rs
unfolding select
select-All P test [] h = tt
select-All P test (x ∷ rs) h = elim (Bool-cases (test x)) [
  | inl e ↦ let k : All P (x ∷ select test rs) = rw e at h in ((λ _. k.0), select-All P test rs k.1)
  | inr e ↦
      let k : All P (select test rs) = rw e at h in
      ((λ t. absurd (ground (arith, e, t))), select-All P test rs k)
]

-- The first that `_evict_one` tries was used no later than any record that it may evict.
pub candidates-oldest :
    (rs rest : List SnapshotRecord) (r : SnapshotRecord)
    → candidates rs ≡ r ∷ rest
    → All (λ x. is_candidate rs x ≡ true → r.last_used ≤ x.last_used) rs
unfolding candidates
candidates-oldest rs rest r h =
    let chosen = select (is_candidate rs) rs in
    let ordered : Ordered (r ∷ rest) = subst Ordered h (sort-Ordered chosen) in
    let all : All (λ x. r.last_used ≤ x.last_used) (r ∷ rest) = (omega arith, ordered.0) in
    select-All (λ x. r.last_used ≤ x.last_used) (is_candidate rs) rs
      (sort-All (λ x. r.last_used ≤ x.last_used) chosen
        (subst (All (λ x. r.last_used ≤ x.last_used)) (sym h) all))
