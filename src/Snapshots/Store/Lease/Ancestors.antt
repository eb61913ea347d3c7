-- ===== src/Snapshots/Store/Lease/Ancestors.antt =====
-- What the loop of `_ancestors` visits, how long it runs, and reachability by references.
use native.Mathlib.Numerals.{add-one}
use riderless.Prelude.{
  ℕ, zero, suc, ◌+◌, ◌*◌, ◌≤◌, String, ◌≡◌, refl, inl, inr, true, false, not, ◌||◌, Option, none,
  some, List, [], ◌∷◌, ◌++◌, All, All-append, is_some, length, length-append, subst, sym, arith,
  eq_iff, ◌==◌, if◌then◌else◌, Option-cases, Bool-cases,
}
use riderless.Snapshots.Store.Types.{SnapshotRecord}
use riderless.Snapshots.Store.Dict.{find}
use riderless.Snapshots.Store.Lease.{
  contains, optional, references, unvisited, ancestors_loop, ancestors,
}

-- What is reached by following `parent` and `context_parent` from records of the store.
pub data IsAncestor (rs : List SnapshotRecord) (id : String) : String → Type 0 where
  itself : IsAncestor rs id id
  further :
      {x : String} (r : SnapshotRecord) (y : String)
      → IsAncestor rs id x
      → find x rs ≡ some r
      → contains y (references r) ≡ true
      → IsAncestor rs id y

-- the records that are not seen yet
unseen : List SnapshotRecord → List String → ℕ
unseen [] seen = 0
unseen (r ∷ rs) seen = (if contains r.id seen then 0 else 1) + unseen rs seen

unseen-le : (rs : List SnapshotRecord) (seen : List String) → unseen rs seen ≤ length rs
unfolding unseen
unseen-le [] seen = omega arith
unseen-le (r ∷ rs) seen = ground (arith, unseen-le rs seen)

unseen_mono :
    (x : String) (rs : List SnapshotRecord) (seen : List String)
    → unseen rs (x ∷ seen) ≤ unseen rs seen
unfolding unseen
unseen_mono x [] seen = omega arith
unseen_mono x (r ∷ rs) seen = ground (arith, unseen_mono x rs seen)

-- A new snapshot in `seen` is one unseen record fewer.
unseen-visit :
    (x : String) (rs : List SnapshotRecord) (seen : List String) (r : SnapshotRecord)
    → contains x seen ≡ false
    → find x rs ≡ some r
    → unseen rs (x ∷ seen) + 1 ≤ unseen rs seen
unfolding unseen find
unseen-visit x [] seen r n h = cc
unseen-visit x (y ∷ rs) seen r n h =
    ground (arith, unseen-visit x rs seen r, unseen_mono x rs seen, eq_iff y.id x, eq_iff x y.id)

references-length : (r : SnapshotRecord) → length (references r) ≤ 2
references-length r = ground arith

-- `unvisited` tells a new record from a passed one.
unvisited-some :
    (rs : List SnapshotRecord) (seen : List String) (x : String) (r : SnapshotRecord)
    → unvisited rs seen x ≡ some r
    → (contains x seen ≡ false) × (find x rs ≡ some r)
unfolding unvisited
unvisited-some rs seen x r h = ground (arith, h)

unvisited-none :
    (rs : List SnapshotRecord) (seen : List String) (x : String)
    → unvisited rs seen x ≡ none
    → (contains x seen || not (is_some (find x rs))) ≡ true
unfolding unvisited
unvisited-none rs seen x h = ground (arith, h)

All-contains :
    (P : String → Type 0) (xs : List String) (x : String) → All P xs → contains x xs ≡ true → P x
All-contains P [] x h e = cc
All-contains P (y ∷ ys) x h e = elim (Bool-cases (y == x)) [
  | inl same ↦ subst P ((eq_iff y x).0 same) h.0
  | inr other ↦ All-contains P ys x h.1 (ground (arith, e, other))
]

module _ (rs : List SnapshotRecord) where
  pub seen-ancestors_loop :
      (fuel : ℕ) (frontier seen : List String) (k : String)
      → contains k seen ≡ true
      → contains k (ancestors_loop fuel rs frontier seen) ≡ true
  unfolding ancestors_loop
  seen-ancestors_loop zero [] seen k h = h
  seen-ancestors_loop zero (x ∷ frontier) seen k h = h
  seen-ancestors_loop (suc fuel) [] seen k h = h
  seen-ancestors_loop (suc fuel) (x ∷ frontier) seen k h =
      elim (Option-cases (unvisited rs seen x)) [
        | inl e ↦ rw (e, ancestors_loop) (seen-ancestors_loop fuel frontier seen k h)
        | inr (r, e) ↦
            rw (e, ancestors_loop)
              (seen-ancestors_loop fuel (references r ++ frontier) (x ∷ seen) k (ground (arith, h)))
      ]

  pub contains-ancestors :
      (id : String) (r : SnapshotRecord)
      → find id rs ≡ some r
      → contains id (ancestors rs id) ≡ true
  unfolding ancestors
  contains-ancestors id r h =
      let e : unvisited rs [] id ≡ some r = unfold unvisited in h in
      rw (add-one (2 * length rs), e, ancestors_loop)
        (seen-ancestors_loop (2 * length rs) (references r ++ []) (id ∷ []) id
          (ground (arith, eq_iff id id)))

  module _ (id : String) where
    ancestors_of_references :
        (x : String) (r : SnapshotRecord)
        → IsAncestor rs id x
        → find x rs ≡ some r
        → All (IsAncestor rs id) (references r)
    ancestors_of_references x r a h =
        All-append (IsAncestor rs id) (optional r.context_parent) (optional r.parent)
          (go r.context_parent (λ y p. further r y a h (ground (arith, p, eq_iff y y))))
          (go r.parent (λ y p. further r y a h (ground (arith, p, eq_iff y y))))
      where
        go :
            (o : Option String)
            → ((y : String) → o ≡ some y → IsAncestor rs id y)
            → All (IsAncestor rs id) (optional o)
        go none k = tt
        go (some y) k = (k y refl, tt)

    sound_loop :
        (fuel : ℕ) (frontier seen : List String)
        → All (IsAncestor rs id) frontier
        → All (IsAncestor rs id) seen
        → All (IsAncestor rs id) (ancestors_loop fuel rs frontier seen)
    unfolding ancestors_loop
    sound_loop zero [] seen f h = h
    sound_loop zero (x ∷ frontier) seen f h = h
    sound_loop (suc fuel) [] seen f h = h
    sound_loop (suc fuel) (x ∷ frontier) seen f h = elim (Option-cases (unvisited rs seen x)) [
      | inl e ↦ rw (e, ancestors_loop) (sound_loop fuel frontier seen f.1 h)
      | inr (r, e) ↦
          rw (e, ancestors_loop)
            (sound_loop fuel (references r ++ frontier) (x ∷ seen)
              (All-append (IsAncestor rs id) (references r) frontier
                (ancestors_of_references x r f.0 (unvisited-some rs seen x r e).1) f.1)
              (f.0, h))
    ]

contains-append :
    (y : String) (xs ys : List String) → contains y (xs ++ ys) ≡ (contains y xs || contains y ys)
contains-append y [] ys = refl
contains-append y (x ∷ xs) ys = ground (arith, contains-append y xs ys)

module _ (rs : List SnapshotRecord) where
  -- The references of what is seen are seen, or wait in the frontier, or are not in the store.
  record IsCovered (frontier seen : List String) : Type 0 where
    at :
        (x : String) (r : SnapshotRecord) (y : String)
        → contains x seen ≡ true
        → find x rs ≡ some r
        → contains y (references r) ≡ true
        → (contains y seen || (contains y frontier || not (is_some (find y rs)))) ≡ true

  pass_over :
      (x : String) (frontier seen : List String)
      → unvisited rs seen x ≡ none
      → IsCovered (x ∷ frontier) seen
      → IsCovered frontier seen
  pass_over x frontier seen e h = record {
    at = λ a r y p q w. ground (arith, h.at a r y p q w, unvisited-none rs seen x e, eq_iff x y);
  }

  visit :
      (x : String) (r : SnapshotRecord) (frontier seen : List String)
      → unvisited rs seen x ≡ some r
      → IsCovered (x ∷ frontier) seen
      → IsCovered (references r ++ frontier) (x ∷ seen)
  visit x r frontier seen e h = record {
    at = λ a r' y p q w. elim (Bool-cases (x == a)) [
      | inl same ↦
          let found = (unvisited-some rs seen x r e).1 in
          let one = (eq_iff x a).0 same in
          let this : r ≡ r' = ground (arith, found, q, one) in
          let here : contains y (references r) ≡ true =
            subst (λ z. contains y (references z) ≡ true) (sym this) w in
          ground (arith, contains-append y (references r) frontier, here)
      | inr other ↦ ground (
        arith,
        contains-append y (references r) frontier,
        h.at a r' y (ground (arith, p, other)) q w,
      )
    ];
  }

  IsCovered-loop :
      (fuel : ℕ) (frontier seen : List String)
      → length frontier + 2 * unseen rs seen ≤ fuel
      → IsCovered frontier seen
      → IsCovered [] (ancestors_loop fuel rs frontier seen)
  unfolding ancestors_loop
  IsCovered-loop zero [] seen m h = h
  IsCovered-loop zero (x ∷ frontier) seen m h = absurd (omega arith)
  IsCovered-loop (suc fuel) [] seen m h = h
  IsCovered-loop (suc fuel) (x ∷ frontier) seen m h = elim (Option-cases (unvisited rs seen x)) [
    | inl e ↦
        rw (e, ancestors_loop)
          (IsCovered-loop fuel frontier seen (omega arith) (pass_over x frontier seen e h))
    | inr (r, e) ↦
        let (new, found) = unvisited-some rs seen x r e in
        rw (e, ancestors_loop)
          (IsCovered-loop fuel (references r ++ frontier) (x ∷ seen)
            (omega (
              arith,
              unseen-visit x rs seen r new found,
              length-append (references r) frontier,
              references-length r,
            ))
            (visit x r frontier seen e h))
  ]

  covered : (id : String) → IsCovered [] (ancestors rs id)
  unfolding ancestors unseen
  covered id =
      IsCovered-loop (2 * length rs + 1) (id ∷ []) [] (omega (arith, unseen-le rs []))
        (record { at = λ x r y p. cc })

  -- The result is exactly the ancestors that the store holds.
  pub complete-ancestors :
      (id x : String) (r : SnapshotRecord)
      → IsAncestor rs id x
      → find x rs ≡ some r
      → contains x (ancestors rs id) ≡ true
  complete-ancestors id x r itself h = contains-ancestors rs id r h
  complete-ancestors id y r (further {x = x} p _ a found via) h =
      ground (arith, (covered id).at x p y (complete-ancestors id x p a found) found via, h)

  pub sound-ancestors : (id x : String) → contains x (ancestors rs id) ≡ true → IsAncestor rs id x
  unfolding ancestors
  sound-ancestors id x h =
      All-contains (IsAncestor rs id) (ancestors rs id) x
        (sound_loop rs id (2 * length rs + 1) (id ∷ []) [] (itself, tt) tt) h
