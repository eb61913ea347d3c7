-- ===== src/Snapshots/Store/Catalogue.antt =====
-- The abstract view of the store: the set of the ids that it holds. `get` and `delete` are the lookup
-- and the removal of that set, whatever the counters, the memory and the disk do.
use mathlib.Core.Option
use riderless.Prelude.{
  String, ◌≡◌, refl, ◌∙◌, subst, Bool, true, false, not, ◌&&◌, Option, none, some, is_some, List,
  arith, eqb, ◌==◌, Bool-cases, ◌⊎◌, inl, inr,
}
use riderless.Action.Triple.{Meets, Triple, Triple-bind, Triple-weaken}
use riderless.Action.{err}
use riderless.Snapshots.Errors.{Error}
use riderless.Snapshots.Store.Types.{SnapshotRecord, Store}
use riderless.Snapshots.Store.Dict.{find, modify}
use riderless.Snapshots.Store.Dict.Laws.{Unique, find-modify, find-pop}
use riderless.Snapshots.Store.Env.{Env, Sys, call, suppress_not_found}
use riderless.Snapshots.Store.Env.Rules.{On, Keeps-then, Keeps-bind, Keeps-call, Keeps-suppress}
use riderless.Snapshots.Store.Core.{forget, get, released, release_ref, extra_parent, remove_dir}
use riderless.Snapshots.Store.Rule.Safe.{Inv, Stable, release_ref-Unique}
use riderless.Snapshots.Store.Rule.Loops.{Holding, get-keeps, remove_dir-Keeps}
use riderless.Snapshots.Store.Registry.{delete}
use riderless.Snapshots.Store.Registry.Soundness.{Triple-guard}

-- a set of ids
abbrev pub Catalogue : Type 0
Catalogue = String → Bool

-- what the store holds
abbrev pub catalogue : Store → Catalogue
catalogue s k = is_some (find k s.records)

-- the removal of an id
abbrev pub without : String → Catalogue → Catalogue
without id c k = c k && not (id == k)

-- The store is one of the catalogue `c`.
pub record Shows (c : Catalogue) (s : Store) : Type 0 where
  pub at : (k : String) → catalogue s k ≡ c k

map-is_some :
    (f : SnapshotRecord → SnapshotRecord) (o : Option SnapshotRecord)
    → is_some (Option.map f o) ≡ is_some o
map-is_some f none = refl
map-is_some f (some r) = refl

modify-catalogue :
    (f : SnapshotRecord → SnapshotRecord)
    → ((r : SnapshotRecord) → (f r).id ≡ r.id)
    → (j k : String) (rs : List SnapshotRecord)
    → is_some (find k (modify j f rs)) ≡ is_some (find k rs)
modify-catalogue f keep j k rs =
    ground (arith, find-modify f keep j k rs, map-is_some f (find k rs))

Shows-Stable : (c : Catalogue) → Stable (Shows c)
Shows-Stable c = record {
  neutral =
      λ s j f t n h. record { at = λ k. modify-catalogue f (λ r. (n r).id) j k s.records ∙ h.at k };
  ticks = λ s t h. record { at = h.at };
}

release-catalogue :
    (o : Option String) (k : String) (rs : List SnapshotRecord)
    → is_some (find k (release_ref o rs)) ≡ is_some (find k rs)
release-catalogue none k rs = refl
release-catalogue (some j) k rs = modify-catalogue released (λ r. refl) j k rs

forget-Shows :
    (c : Catalogue) (s : Store) (r : SnapshotRecord)
    → Inv (Shows c) s
    → Shows (without r.id c) (forget r s)
unfolding forget
forget-Shows c s r h = record {
  at = λ k.
      let once = release_ref r.parent s.records in
      let twice = release_ref (extra_parent r) once in
      ground (
        arith,
        find-pop r.id k twice (
            release_ref-Unique (extra_parent r) once
              (release_ref-Unique r.parent s.records h.unique)),
        release-catalogue (extra_parent r) k once,
        release-catalogue r.parent k s.records,
        h.rest.at k,
      );
}

module _ (env : Env) where
  delete-Shows :
      (c : Catalogue) (id : String)
      → Triple
          (On {env = env} (Inv (Shows c)))
          (delete env id)
          (λ _. On (Shows (without id c)))
          (λ _. On (Shows c))
  unfolding delete
  delete-Shows c id =
      Triple-bind (λ r. On (λ s. Holding (Shows c) r s × (r.id ≡ id))) (get env id) _
        (Triple-weaken (get env id) (λ s h. h) (λ r s h. h) (λ e s h. h.rest)
          (get-keeps env (Shows c) (Shows-Stable c) id))
        λ r.
          let H = λ (s : Store). Holding (Shows c) r s × (r.id ≡ id) in
          Triple-guard H (eqb r.leases 0) Error.in_use _ (λ s h. h.0.0.rest)
            λ l.
              Triple-guard H (eqb r.refcount 0) Error.in_use _ (λ s h. h.0.0.rest)
                λ n.
                  Keeps-bind H (Shows c) (suppress_not_found (call (env.drop id))) _
                    (Keeps-suppress H (call (env.drop id)) (Keeps-call H (env.drop id)))
                    (λ s h. h.0.0.rest)
                    λ freed.
                      Keeps-then H (Shows c) (remove_dir env r) _ (remove_dir-Keeps env H r)
                        (λ s h. h.0.0.rest)
                        (record {
                          holds = λ s h.
                              subst (λ k. Shows (without k c) (forget r s.store)) h.1
                                (forget-Shows c s.store r h.0.0);
                        })

none_of : (o : Option SnapshotRecord) → is_some o ≡ false → o ≡ none
none_of none h = refl
none_of (some r) h = absurd (ground (arith, h))

-- Seen as the set of its ids, the store implements `delete` as the removal from that set: where it returns,
-- the ids are those before without the one that was named, and where it raises, they are those before. It
-- raises `SnapshotNotFound` and changes nothing where the set lacks the id. Only the ids need be distinct.
pub delete-Shows-without :
    (env : Env) (id : String) (s : Sys env)
    → Unique s.store.records
    → Meets
        (λ _. On (Shows (without id (catalogue s.store))))
        (λ _. On (Shows (catalogue s.store)))
        (delete env id s)
      × ((catalogue s.store id ≡ true) ⊎ (delete env id s ≡ (err Error.not_found, s)))
unfolding delete get
delete-Shows-without env id s u = (
  (delete-Shows env (catalogue s.store) id).holds s
      (record { unique = u; rest = record { at = λ k. refl } }),
  elim (Bool-cases (catalogue s.store id)) [
    | inl e ↦ inl e
    | inr e ↦ inr (rw (none_of (find id s.store.records) e) refl)
  ],
)
