-- ===== src/Snapshots/Service/Lifecycle.antt =====
-- How the service is held and let go, and what a call to its worker keeps.
use riderless.Prelude.{
  ℕ, String, ◌≡◌, refl, Bool, true, false, not, Option, none, some, is_some, ◌⊎◌, inl, inr, List,
  [], if◌then◌else◌,
}
use riderless.Action.{Outcome, ok, err}
use riderless.Action.Triple.{Meets, Triple}
use riderless.Snapshots.Errors.{Error}
use riderless.Snapshots.Service.{Parts, Service, Serve, call, serialized}

module _ (parts : Parts) where
  -- a request is let in
  abbrev pub is_free : Service parts → Bool
  is_free s = elim s.profile [
    | none ↦ false
    | some hello ↦ if is_some s.store then not s.busy else false
  ]

  -- no request holds the service, and none has left ids to take back
  abbrev pub IsReleased : Service parts → Type 0
  IsReleased s = (s.busy ≡ false) × (s.pending_ids ≡ [])

  -- A request that finds the service free leaves it free again with no pending ids, whatever its body
  -- did and whether it returned or raised. A request that is not let in changes nothing.
  pub serialized-IsReleased :
      {A : Type 0} (body : parts.Hello → parts.Store → Serve parts A) (s : Service parts)
      → ((is_free s ≡ true) × IsReleased (serialized parts body s).1)
        ⊎ ((is_free s ≡ false) × ((serialized parts body s).1 ≡ s))
  unfolding serialized
  serialized-IsReleased {A} body s =
      go s.profile s.store s.busy s.pending_ids s.recovery_failed_at s.world
    where
      go :
          (p : Option parts.Hello) (st : Option parts.Store) (b : Bool) (ids : List String)
          (f : Option ℕ) (w : parts.World)
          → (let t : Service parts = record {
            profile = p;
            store = st;
            busy = b;
            pending_ids = ids;
            recovery_failed_at = f;
            world = w;
          } in
              ((is_free t ≡ true) × IsReleased (serialized parts body t).1)
              ⊎ ((is_free t ≡ false) × ((serialized parts body t).1 ≡ t)))
      go none st b ids f w = inr (refl, refl)
      go (some p) none b ids f w = inr (refl, refl)
      go (some p) (some st) true ids f w = inr (refl, refl)
      go (some p) (some st) false ids f w = inl (refl, (refl, refl))

  abbrev pub IsKept : Service parts → Service parts → Type 0
  IsKept s t = (t.profile ≡ s.profile) × (t.busy ≡ s.busy) × (t.pending_ids ≡ s.pending_ids)

  abbrev pub IsLike : Service parts → Service parts → Type 0
  IsLike s t = IsKept s t × (t.store ≡ s.store)

  pub call-IsLike :
      {A : Type 0} (s : Service parts) (f : parts.World → Outcome Error A × parts.World)
      → Triple (IsLike s) (call parts f) (λ _. IsLike s) (λ _. IsLike s)
  call-IsLike {A} s f = record { holds = λ t h. go t h (f t.world) }
    where
      go :
          (t : Service parts)
          → IsLike s t
          → (x : Outcome Error A × parts.World)
          → Meets (λ _. IsLike s) (λ _. IsLike s) (x.0, record t { world = x.1 })
      go t h (ok a, w) = h
      go t h (err e, w) = h
