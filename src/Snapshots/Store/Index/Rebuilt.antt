-- ===== src/Snapshots/Store/Index/Rebuilt.antt =====
-- The store that `__init__` builds, and its counters.
use riderless.Prelude.{
  ℕ, ◌+◌, String, ◌≡◌, refl, ap, sym, ◌∙◌, subst, true, not, ◌&&◌, Option, none, some, is_some,
  List, [], ◌∷◌, arith, ltb, ◌==◌, if◌then◌else◌,
}
use riderless.Action.{Outcome, ok, err, pure, lift, ◌>>=◌, ◌>>◌}
use riderless.Action.Triple.{
  Triple, Meets, Triple-bind, Triple-then, Triple-pure, Triple-if, Triple-weaken,
}
use riderless.Json.{Fields}
use riderless.Snapshots.Errors.{Error}
use riderless.Snapshots.Store.Types.{SnapshotRecord, Store, Config}
use riderless.Snapshots.Store.Dict.{find, modify, put}
use riderless.Snapshots.Store.Dict.Laws.{total}
use riderless.Snapshots.Store.Env.{Env, Files, Sys, Do, call, writes}
use riderless.Snapshots.Store.Env.Rules.{
  On, Keeps, Keeps-call, Triple-reads, Triple-writes, Keeps-ask,
}
use riderless.Snapshots.Store.Core.{now}
use riderless.Snapshots.Store.Manifest.{valid_id}
use riderless.Snapshots.Store.Persist.{◌^^◌, read_manifest, validate_manifest}
use riderless.Snapshots.Store.Rule.Safe.{Inv}
use riderless.Snapshots.Store.Rule.Publishing.{read_manifest-Keeps, validate_manifest-Keeps}
use riderless.Snapshots.Store.Accounting.{uses}
use riderless.Snapshots.Store.Registry.{referenced, is_promotion}
use riderless.Snapshots.Store.Registry.Soundness.{Sound, Triple-guard}
use riderless.Snapshots.Store.Published.{
  Entry, Shape, indexed, parse_manifest, shape_of, shape_error,
}
use riderless.Snapshots.Store.Index.{
  or_raise, is_newer, previous_of, reference_set, index_one, index_all, count_reference,
  count_references, link_promotion, link_all, load_disk_index, initialize, blank, opened,
  open_store,
}
use riderless.Snapshots.Store.Index.Counting.{
  IsBlank, put-IsBlank, occurrences, uses-reference_set, IsLinked, modify-IsLinked,
  counted-referenced, tally-modify_same,
}

module _ (env : Env) where
  abbrev Fails : Error → Sys env → Type 0
  Fails _ _ = Unit {0}

  -- A step that keeps `Q`, in front of what needs it.
  step :
      {A B : Type 0} (Q : Store → Type 0) {post : B → Sys env → Type 0} (m : Do env A)
      (f : A → Do env B)
      → Keeps Q m
      → ((a : A) → Triple (On Q) (f a) post Fails)
      → Triple (On Q) (m >>= f) post Fails
  step Q m f k t =
      Triple-bind (λ _. On Q) m f (Triple-weaken m (λ s h. h) (λ a s h. h) (λ e s h. tt) k) t

  Keeps-lift :
      {A : Type 0} (Q : Store → Type 0) (r : Outcome Error A) → Keeps {env = env} Q (lift r)
  Keeps-lift Q (ok a) = record { holds = λ s h. h }
  Keeps-lift Q (err e) = record { holds = λ s h. h }

  -- `put` of a record that is on the disk only and has a valid id.
  put-indexed :
      (name directory : String) (e : Entry) (shape : Shape) (files : Files) (tick : ℕ)
      → valid_id name ≡ true
      → Triple
          (On {env = env} (Inv IsBlank))
          (writes
            (λ s. record s { records = put (indexed name directory e shape files tick) s.records }))
          (λ _. On (Inv IsBlank))
          Fails
  unfolding indexed
  put-indexed name directory e shape files tick v =
      Triple-writes (Inv IsBlank) (Inv IsBlank)
        (λ s. record s { records = put (indexed name directory e shape files tick) s.records })
        (λ s h. put-IsBlank (indexed name directory e shape files tick) s refl refl v h)

  index_record :
      (m : Fields) (name directory : String) (e : Entry) (shape : Shape) (files : Files) (tick : ℕ)
      → valid_id name ≡ true
      → Triple
          (On {env = env} (Inv IsBlank))
          (do
            validate_manifest env m (indexed name directory e shape files tick)
            writes (λ s. record s {
              records = put (indexed name directory e shape files tick) s.records;
            }))
          (λ _. On (Inv IsBlank))
          Fails
  index_record m name directory e shape files tick v =
      step (Inv IsBlank) (validate_manifest env m (indexed name directory e shape files tick)) _
        (validate_manifest-Keeps (Inv IsBlank) m (indexed name directory e shape files tick))
        (λ _. put-indexed name directory e shape files tick v)

  index_one-IsBlank :
      (name : String)
      → Triple (On {env = env} (Inv IsBlank)) (index_one env name) (λ _. On (Inv IsBlank)) Fails
  unfolding index_one
  index_one-IsBlank name =
      Triple-if (not (valid_id name)) (pure tt) _ (λ _. Triple-pure tt (λ s h. h))
        λ v.
          let Q = Inv IsBlank in
          Triple-reads Q (λ s. s.config) _
            λ c.
              let directory = c.root ^^ ("/" ^^ name) in
              let Q' = λ (s : Store). Inv IsBlank s × (s.config ≡ c) in
              step Q' (read_manifest env directory) _ (read_manifest-Keeps Q' directory) λ m.
                step Q' (lift (or_raise Error.integrity (parse_manifest m))) _
                  (Keeps-lift Q' (or_raise Error.integrity (parse_manifest m)))
                  λ parsed.
                    Triple-then (λ _. On Q) (writes (λ s. record s { tick = s.tick + 1 })) _
                      (record { holds = λ s h. bump s.store h.0 })
                      λ _.
                        step Q (lift (or_raise (shape_error m) (shape_of m))) _
                          (Keeps-lift Q (or_raise (shape_error m) (shape_of m)))
                          λ shape.
                            Triple-reads Q (λ s. s.tick) _
                              λ tick.
                                Triple-weaken _ (λ s h. h.0) (λ a s h. h) (λ e s h. h)
                                  (index_record m name directory parsed.0 shape parsed.1 tick
                                    (ground (arith, v)))
    where
      bump : (s : Store) → Inv IsBlank s → Inv IsBlank (record s { tick = s.tick + 1 })
      bump s h = record {
        unique = h.unique;
        rest = record {
          is_out = h.rest.is_out;
          named = record { at = h.rest.named.at };
          uncounted = h.rest.uncounted;
        };
      }

  index_all-IsBlank :
      (names : List String)
      → Triple (On {env = env} (Inv IsBlank)) (index_all env names) (λ _. On (Inv IsBlank)) Fails
  unfolding index_all
  index_all-IsBlank [] = Triple-pure tt (λ s h. h)
  index_all-IsBlank (name ∷ names) =
      Triple-then (λ _. On (Inv IsBlank)) (index_one env name) (index_all env names)
        (index_one-IsBlank name) (λ _. index_all-IsBlank names)

  module _ (rs : List SnapshotRecord) where
    count_reference-IsLinked :
        (c : String → ℕ) (id : String)
        → Triple
            (On {env = env} (Inv (IsLinked rs c)))
            (count_reference env id)
            (λ _. On (Inv (IsLinked rs (λ k. c k + (if id == k then 1 else 0)))))
            Fails
    unfolding count_reference
    count_reference-IsLinked c id =
        let Q = Inv (IsLinked rs c) in
        Triple-reads Q (λ s. s.records) _
          λ xs.
            Triple-guard (λ s. Q s × (s.records ≡ xs)) (is_some (find id xs)) Error.integrity _
              (λ s h. tt)
              λ found. record {
                holds = λ s h.
                    modify-IsLinked rs c (λ k. c k + (if id == k then 1 else 0)) id referenced
                      (λ r. refl) (λ r. refl) (λ r. refl) (λ r. refl) s.store
                      (counted-referenced c id s.store.records
                        (subst (λ z. is_some (find id z) ≡ true) (sym h.1) found) h.0.rest.counted)
                      h.0;
              }

    -- the same store, with what was counted written otherwise
    recount :
        (c c' : String → ℕ) (s : Store)
        → ((k : String) → c k ≡ c' k)
        → Inv (IsLinked rs c) s
        → Inv (IsLinked rs c') s
    recount c c' s e h = record {
      unique = h.unique;
      rest = record {
        is_out = h.rest.is_out;
        named = h.rest.named;
        same = h.rest.same;
        counted = λ k. sym (e k) ∙ h.rest.counted k;
      };
    }

    count_references-IsLinked :
        (c : String → ℕ) (ids : List String)
        → Triple
            (On {env = env} (Inv (IsLinked rs c)))
            (count_references env ids)
            (λ _. On (Inv (IsLinked rs (λ k. c k + occurrences ids k))))
            Fails
    unfolding count_references
    count_references-IsLinked c [] = record {
      holds = λ s h. recount c (λ k. c k + 0) s.store (λ k. omega arith) h;
    }
    count_references-IsLinked c (id ∷ ids) =
        let one = λ (k : String). c k + (if id == k then 1 else 0) in
        Triple-then (λ _. On (Inv (IsLinked rs one))) (count_reference env id)
          (count_references env ids) (count_reference-IsLinked c id)
          (λ _.
            Triple-weaken (count_references env ids) (λ s h. h)
              (λ a s h.
                recount (λ k. one k + occurrences ids k) (λ k. c k + occurrences (id ∷ ids) k)
                  s.store (λ k. omega arith) h)
              (λ e s h. h) (count_references-IsLinked one ids))

    link_promotion-IsLinked :
        (c : String → ℕ) (r : SnapshotRecord) (id : String)
        → Triple
            (On {env = env} (Inv (IsLinked rs c)))
            (link_promotion env r id)
            (λ _. On (Inv (IsLinked rs c)))
            Fails
    unfolding link_promotion
    link_promotion-IsLinked c r id =
        let Q = Inv (IsLinked rs c) in
        Triple-reads Q (λ s. s.records) _
          λ xs.
            let Q' = λ (s : Store). Q s × (s.records ≡ xs) in
            step Q' (lift (or_raise Error.integrity (find id xs))) _
              (Keeps-lift Q' (or_raise Error.integrity (find id xs)))
              λ parent.
                Triple-guard Q' (is_promotion r parent) Error.integrity _ (λ s h. tt)
                  λ _. step Q' (now env) _ (Keeps-ask Q' env.clock) λ t.
                    Triple-if (ltb t r.expires_at && is_newer (previous_of xs parent) r)
                      (writes (λ s. record s {
                        records =
                            modify id (λ p. record p { promotion_child = some r.id }) s.records;
                      }))
                      (pure tt) (λ _. record { holds = λ s h. write s.store h.0 })
                      (λ _. record { holds = λ s h. h.0 })
      where
        f : SnapshotRecord → SnapshotRecord
        f p = record p { promotion_child = some r.id }

        write :
            (s : Store)
            → Inv (IsLinked rs c) s
            → Inv (IsLinked rs c) (record s { records = modify id f s.records })
        write s h =
            modify-IsLinked rs c c id f (λ x. refl) (λ x. refl) (λ x. refl) (λ x. refl) s
              (λ k.
                h.rest.counted k ∙ sym (tally-modify_same f (λ x. refl) (λ x. refl) id k s.records))
              h

    promotion-IsLinked :
        (c : String → ℕ) (r : SnapshotRecord) (o : Option String)
        → Triple
            (On {env = env} (Inv (IsLinked rs c)))
            (elim o [ none ↦ pure tt | some id ↦ link_promotion env r id ])
            (λ _. On (Inv (IsLinked rs c)))
            Fails
    promotion-IsLinked c r none = Triple-pure tt (λ s h. h)
    promotion-IsLinked c r (some id) = link_promotion-IsLinked c r id

    link_all-IsLinked :
        (c : String → ℕ) (todo : List SnapshotRecord)
        → Triple
            (On {env = env} (Inv (IsLinked rs c)))
            (link_all env todo)
            (λ _. On (Inv (IsLinked rs (λ k. c k + total (uses k) todo))))
            Fails
    unfolding link_all total
    link_all-IsLinked c [] = record {
      holds = λ s h. recount c (λ k. c k + 0) s.store (λ k. omega arith) h;
    }
    link_all-IsLinked c (r ∷ todo) =
        let d = λ (k : String). c k + occurrences (reference_set r) k in
        Triple-then (λ _. On (Inv (IsLinked rs d))) (count_references env (reference_set r)) _
          (count_references-IsLinked c (reference_set r))
          λ _.
            Triple-then (λ _. On (Inv (IsLinked rs d)))
              (elim r.promotion_of [ none ↦ pure tt | some id ↦ link_promotion env r id ]) _
              (promotion-IsLinked d r r.promotion_of)
              λ _.
                Triple-weaken (link_all env todo) (λ s h. h)
                  (λ a s h.
                    recount (λ k. d k + total (uses k) todo)
                      (λ k. c k + (uses k r + total (uses k) todo)) s.store
                      (λ k. omega (arith, uses-reference_set k r)) h)
                  (λ e s h. h) (link_all-IsLinked d todo)

  -- The store that the loops leave is sound.
  IsLinked-Sound :
      (s : Store) (rs : List SnapshotRecord)
      → Inv (IsLinked rs (λ k. 0 + total (uses k) rs)) s
      → Sound s
  IsLinked-Sound s rs h =
      let b = h.rest.is_out in
      record {
        unique = h.unique;
        rest = (
          b.0 ∙ sym b.1,
          (
            record { at = λ k. h.rest.same k ∙ omega (arith, h.rest.counted k) },
            (omega (arith, b.0), h.rest.named),
          ),
        );
      }

  initialize-Sound : Triple (On {env = env} (Inv IsBlank)) (initialize env) (λ _. On Sound) Fails
  unfolding initialize
  initialize-Sound =
      let Q = Inv IsBlank in
      Triple-reads Q (λ s. s.config) _
        λ c.
          let Q' = λ (s : Store). Inv IsBlank s × (s.config ≡ c) in
          Triple-guard Q' (ltb 0 c.host_bytes) (Error.foreign "ValueError") _ (λ s h. tt)
            λ _. step Q' (call (env.make_dirs c.root)) _ (Keeps-call Q' (env.make_dirs c.root)) λ _.
              Triple-weaken (load_disk_index env) (λ s h. h.0) (λ a s h. h) (λ e s h. h) index-Sound
    where
      begin :
          (s : Store) (rs : List SnapshotRecord)
          → Inv IsBlank s
          → s.records ≡ rs
          → Inv (IsLinked rs (λ k. 0)) s
      begin s rs h e = record {
        unique = h.unique;
        rest = record {
          is_out = h.rest.is_out;
          named = h.rest.named;
          same = λ k. ap (total (uses k)) e;
          counted = λ k. sym (h.rest.uncounted k);
        };
      }

      index-Sound :
          Triple (On {env = env} (Inv IsBlank)) (load_disk_index env) (λ _. On Sound) Fails
      index-Sound =
          let Q = Inv IsBlank in
          Triple-reads Q (λ s. s.config) _
            λ c.
              let Q' = λ (s : Store). Inv IsBlank s × (s.config ≡ c) in
              step Q' (call (env.list_dirs c.root)) _ (Keeps-call Q' (env.list_dirs c.root))
                λ names.
                  Triple-then (λ _. On Q) (index_all env names) _
                    (Triple-weaken (index_all env names) (λ s h. h.0) (λ a s h. h) (λ e s h. h)
                      (index_all-IsBlank names))
                    λ _.
                      Triple-reads Q (λ s. s.records) _
                        λ rs.
                          Triple-weaken (link_all env rs) (λ s h. begin s.store rs h.0 h.1)
                            (λ a s h. IsLinked-Sound s.store rs h) (λ e s h. h)
                            (link_all-IsLinked rs (λ k. 0) rs)

-- A store that `__init__` returns is sound, whatever is found on the disk.
pub open_store-Sound :
    (env : Env) (c : Config) (w w' : env.World) (s : Store)
    → open_store env c w ≡ (ok s, w')
    → Sound s
unfolding open_store find total
open_store-Sound env c w w' s h =
    go (initialize env (record { store = blank c; world = w }))
      ((initialize-Sound env).holds (record { store = blank c; world = w })
        (record {
          unique = tt;
          rest = record {
            is_out = (refl, refl);
            named = record { at = λ k r e. absurd (ground (arith, e)) };
            uncounted = λ k. refl;
          };
        }))
      h
  where
    go :
        (r : Outcome Error (Unit {0}) × Sys env)
        → Meets (λ _. On Sound) (Fails env) r
        → opened r ≡ (ok s, w')
        → Sound s
    go (ok x, t) k e = subst Sound (ground (arith, e)) k
    go (err x, t) k e = absurd (ground (arith, e))
