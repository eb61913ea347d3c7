-- ===== src/Snapshots/Store/Dict/Laws.antt =====
-- What each write to the dict does to a lookup, to a sum over the records, and to the distinctness
-- of the ids.
use riderless.Prelude.{
  ℕ, ◌+◌, String, ◌≡◌, refl, none, some, List, [], ◌∷◌, arith, ◌==◌, eq_iff, if◌then◌else◌,
}
use mathlib.Core.Option
use riderless.Snapshots.Store.Types.{SnapshotRecord}
use riderless.Snapshots.Store.Dict.{find, modify, pop, put}

abbrev pub Unique : List SnapshotRecord → Type 0
Unique [] = Unit
Unique (r ∷ rs) = (find r.id rs ≡ none) × Unique rs

-- A write that keeps the key.
abbrev pub KeepsId : (SnapshotRecord → SnapshotRecord) → Type 0
KeepsId f = (r : SnapshotRecord) → (f r).id ≡ r.id

pub find-id :
    (k : String) (rs : List SnapshotRecord) (r : SnapshotRecord) → find k rs ≡ some r → r.id ≡ k
unfolding find
find-id k [] r h = cc
find-id k (x ∷ rs) r h = ground (arith, eq_iff x.id k, find-id k rs r)

pub find-modify :
    (f : SnapshotRecord → SnapshotRecord)
    → KeepsId f
    → (k j : String) (rs : List SnapshotRecord)
    → find j (modify k f rs) ≡ (if k == j then Option.map f (find j rs) else find j rs)
unfolding find modify
find-modify f keep k j [] = ground arith
find-modify f keep k j (x ∷ rs) =
    ground (arith, find-modify f keep k j rs, keep x, eq_iff x.id k, eq_iff x.id j, eq_iff k j)

pub find-put :
    (r : SnapshotRecord) (j : String) (rs : List SnapshotRecord)
    → find j (put r rs) ≡ (if r.id == j then some r else find j rs)
unfolding find put
find-put r j [] = refl
find-put r j (x ∷ rs) =
    ground (arith, find-put r j rs, eq_iff x.id r.id, eq_iff x.id j, eq_iff r.id j)

pub find-pop :
    (k j : String) (rs : List SnapshotRecord)
    → Unique rs
    → find j (pop k rs) ≡ (if k == j then none else find j rs)
unfolding find pop
find-pop k j [] u = ground arith
find-pop k j (x ∷ rs) u =
    ground (arith, find-pop k j rs u.1, eq_iff x.id k, eq_iff x.id j, eq_iff k j)

pub modify-Unique :
    (f : SnapshotRecord → SnapshotRecord)
    → KeepsId f
    → (k : String) (rs : List SnapshotRecord) → Unique rs
    → Unique (modify k f rs)
unfolding modify
modify-Unique f keep k [] u = tt
modify-Unique f keep k (x ∷ rs) u =
    ground
      (arith, modify-Unique f keep k rs u.1, keep x, find-modify f keep k x.id rs, eq_iff k x.id)

pub pop-Unique : (k : String) (rs : List SnapshotRecord) → Unique rs → Unique (pop k rs)
unfolding pop
pop-Unique k [] u = tt
pop-Unique k (x ∷ rs) u = ground (arith, pop-Unique k rs u.1, find-pop k x.id rs u.1)

pub put-Unique : (r : SnapshotRecord) (rs : List SnapshotRecord) → Unique rs → Unique (put r rs)
unfolding put find
put-Unique r [] u = ground arith
put-Unique r (x ∷ rs) u =
    ground (arith, put-Unique r rs u.1, find-put r x.id rs, eq_iff x.id r.id, eq_iff r.id x.id)

-- A sum over the records.
unfoldable pub total : (SnapshotRecord → ℕ) → List SnapshotRecord → ℕ
total w [] = 0
total w (r ∷ rs) = w r + total w rs

module _ (w : SnapshotRecord → ℕ) where
  pub total-modify :
      (f : SnapshotRecord → SnapshotRecord) (k : String) (rs : List SnapshotRecord)
      (r : SnapshotRecord)
      → find k rs ≡ some r
      → total w (modify k f rs) + w r ≡ total w rs + w (f r)
  unfolding total find modify
  total-modify f k [] r h = cc
  total-modify f k (x ∷ rs) r h = ground (arith, total-modify f k rs r)

  -- A write that keeps the weight keeps the sum.
  pub total-modify_same :
      (f : SnapshotRecord → SnapshotRecord)
      → ((r : SnapshotRecord) → w (f r) ≡ w r)
      → (k : String) (rs : List SnapshotRecord) → total w (modify k f rs) ≡ total w rs
  unfolding total modify
  total-modify_same f same k [] = refl
  total-modify_same f same k (x ∷ rs) = ground (arith, total-modify_same f same k rs, same x)

  pub total-pop :
      (k : String) (rs : List SnapshotRecord) (r : SnapshotRecord)
      → find k rs ≡ some r
      → total w rs ≡ w r + total w (pop k rs)
  unfolding total find pop
  total-pop k [] r h = cc
  total-pop k (x ∷ rs) r h = ground (arith, total-pop k rs r)

  pub total-put :
      (r : SnapshotRecord) (rs : List SnapshotRecord)
      → find r.id rs ≡ none
      → total w (put r rs) ≡ total w rs + w r
  unfolding total find put
  total-put r [] h = omega arith
  total-put r (x ∷ rs) h = ground (arith, total-put r rs)
