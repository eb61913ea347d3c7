-- ===== src/Snapshots/Store/Dict.antt =====
-- `_records` as a Python dict: a key is found, changed or popped at its one entry, and a new key
-- goes to the end.
pub mod Laws
use riderless.Prelude.{String, Bool, Option, none, some, List, [], ◌∷◌, ◌==◌, if◌then◌else◌}
use riderless.Snapshots.Store.Types.{SnapshotRecord}

-- `_records.get(key)`
unfoldable pub find : String → List SnapshotRecord → Option SnapshotRecord
find key [] = none
find key (r ∷ rs) = if r.id == key then some r else find key rs

-- a write to fields of `_records[key]`; nothing happens where the key is missing
unfoldable pub modify :
    String → (SnapshotRecord → SnapshotRecord) → List SnapshotRecord → List SnapshotRecord
modify key f [] = []
modify key f (r ∷ rs) = if r.id == key then f r ∷ rs else r ∷ modify key f rs

-- `_records.pop(key, None)`
unfoldable pub pop : String → List SnapshotRecord → List SnapshotRecord
pop key [] = []
pop key (r ∷ rs) = if r.id == key then rs else r ∷ pop key rs

-- `_records[record.id] = record`
unfoldable pub put : SnapshotRecord → List SnapshotRecord → List SnapshotRecord
put r [] = r ∷ []
put r (x ∷ xs) = if x.id == r.id then r ∷ xs else x ∷ put r xs
