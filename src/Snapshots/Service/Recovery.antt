-- ===== src/Snapshots/Service/Recovery.antt =====
-- When `recover` restarts the worker, and what it leaves.
use riderless.Prelude.{
  ℕ, ◌+◌, ◌≡◌, refl, sym, ap, subst, ◌∙◌, Bool, true, false, Option, none, some, ◌⊎◌, inl, inr, ltb,
  if◌then◌else◌,
}
use riderless.Action.{Outcome, ok, err, continue, modifies, raise}
use riderless.Action.Triple.{
  Meets, Triple, Triple-bind, Triple-then, Triple-if, Triple-pure, Triple-raise, Triple-weaken,
}
use riderless.Snapshots.Errors.{Error}
use riderless.Snapshots.Service.{
  Parts, Service, call, is_ready, restart, failed, revive, retry, recover, recovery_backoff_seconds,
}
use riderless.Snapshots.Service.Lifecycle.{IsKept, IsLike, call-IsLike}

module _ (parts : Parts) where
  -- What a restart from the world `before` has done: the worker started again with the first hello, a
  -- new store was made from the hello, and its expired records were dropped.
  pub record IsRestart (first : parts.Hello) (before : parts.World) (store : parts.Store)
      (after : parts.World) : Type 0 where
    pub hello : parts.Hello
    pub world : parts.World
    pub opened : parts.World
    pub started : parts.start before ≡ (ok hello, world)
    pub same : parts.same_hello hello first ≡ true
    pub made : parts.new_store hello world ≡ (ok store, opened)
    pub expired : parts.expire store opened ≡ (ok tt, after)

  -- No failure is noted, or the clock has left the backoff behind: `v` is the world after the clock was read.
  abbrev pub IsDue : Option ℕ → parts.World → parts.World → Type 0
  IsDue none w v = v ≡ w
  IsDue (some failed_at) w v =
      (v ≡ (parts.monotonic w).1)
      × (ltb (parts.monotonic w).0 (failed_at + recovery_backoff_seconds) ≡ false)

  -- A failure is noted, and the clock is still within the backoff.
  abbrev pub Waits : Option ℕ → parts.World → Type 0
  Waits f w =
      (failed_at : ℕ) × (f ≡ some failed_at)
      × (ltb (parts.monotonic w).0 (failed_at + recovery_backoff_seconds) ≡ true)

  -- A restart from `s` has raised, and `t` notes when.
  abbrev pub Failed : parts.Hello → Service parts → Service parts → Type 0
  Failed first s t =
      (e : Error) × (u : Service parts) × (restart parts first s ≡ (err e, u))
      × (t.recovery_failed_at ≡ some (parts.monotonic u.world).0)

  -- what `recover` leaves where the worker is gone
  abbrev pub Revived :
      parts.Hello → Service parts → Outcome Error (Unit {0}) × Service parts → Type 0
  Revived first s (ok r, t) =
      IsKept parts s t
      × (t.recovery_failed_at ≡ none)
      × (v : parts.World) × (store : parts.Store) × (IsDue s.recovery_failed_at s.world v)
      × (t.store ≡ some store)
      × IsRestart first v store t.world
  Revived first s (err e, t) =
      IsLike parts s t
      × (e ≡ Error.unavailable)
      × ((Waits s.recovery_failed_at s.world × (t.recovery_failed_at ≡ s.recovery_failed_at))
          ⊎ ((v : parts.World) × (IsDue s.recovery_failed_at s.world v)
              × Failed first (record s { world = v }) t))

  -- `f` returned `a` from a world of which `P` holds
  abbrev Ran :
      {A : Type 0}
      → (parts.World → Outcome Error A × parts.World)
      → (parts.World → Type 0)
      → A
      → parts.World
      → Type 0
  Ran f P a w' = (w : parts.World) × P w × (f w ≡ (ok a, w'))

  call-Ran :
      {A : Type 0} (s : Service parts) (f : parts.World → Outcome Error A × parts.World)
      (P : parts.World → Type 0)
      → Triple
          (λ t. IsLike parts s t × P t.world)
          (call parts f)
          (λ a t. IsLike parts s t × Ran f P a t.world)
          (λ _. IsLike parts s)
  call-Ran {A} s f P = record { holds = λ t h. go t h (f t.world) refl }
    where
      go :
          (t : Service parts)
          → IsLike parts s t × P t.world
          → (x : Outcome Error A × parts.World) → f t.world ≡ x
          → Meets
              (λ a t. IsLike parts s t × Ran f P a t.world)
              (λ _. IsLike parts s)
              (x.0, record t { world = x.1 })
      go t h (ok a, w) e = (h.0, (t.world, h.1, e))
      go t h (err x, w) e = h.0

  restart-IsRestart :
      (first : parts.Hello) (s : Service parts) (v : parts.World)
      → Triple
          (λ t. IsLike parts s t × (t.world ≡ v))
          (restart parts first)
          (λ store t. IsLike parts s t × IsRestart first v store t.world)
          (λ _. IsLike parts s)
  unfolding restart
  restart-IsRestart first s v =
      Triple-bind (λ hello t. IsLike parts s t × Hailed hello t.world) _ _
        (call-Ran s parts.start (λ w. w ≡ v))
        (λ hello.
          Triple-if (parts.same_hello hello first) _ _
            (λ same.
              Triple-bind (λ store t. IsLike parts s t × Made hello store t.world) _ _
                (call-Ran s (parts.new_store hello) (Hailed hello))
                (λ store.
                  Triple-then
                    (λ u t.
                      IsLike parts s t × Ran (parts.expire store) (Made hello store) u t.world)
                    _ _ (call-Ran s (parts.expire store) (Made hello store))
                    (λ u. Triple-pure store (λ t h. (h.0, restarted hello store u same h.1)))))
            (λ _.
              Triple-then (λ _. IsLike parts s) _ _
                (Triple-weaken _ (λ t h. h.0) (λ a t h. h) (λ e t h. h)
                  (call-IsLike parts s parts.close))
                (λ _. Triple-raise Error.unavailable (λ t h. h))))
    where
      Hailed : parts.Hello → parts.World → Type 0
      Hailed hello = Ran parts.start (λ w. w ≡ v) hello

      Made : parts.Hello → parts.Store → parts.World → Type 0
      Made hello store = Ran (parts.new_store hello) (Hailed hello) store

      restarted :
          (hello : parts.Hello) (store : parts.Store) (u : Unit {0}) {w : parts.World}
          → parts.same_hello hello first ≡ true
          → Ran (parts.expire store) (Made hello store) u w
          → IsRestart first v store w
      restarted hello store u same (w2, (w1, (w0, e, started), made), expired) = record {
        hello = hello;
        world = w1;
        opened = w2;
        started = ap parts.start (sym e) ∙ started;
        same = same;
        made = made;
        expired = expired;
      }

  revive-Revived :
      (first : parts.Hello) (s : Service parts) (v : parts.World)
      → IsDue s.recovery_failed_at s.world v
      → Revived first s (revive parts first (record s { world = v }))
  unfolding revive
  revive-Revived first s v due = go (restart parts first (record s { world = v })) refl (
      (restart-IsRestart first s v).holds (record s { world = v })
        (((refl, refl, refl), refl), refl))
    where
      go :
          (x : Outcome Error parts.Store × Service parts)
          → restart parts first (record s { world = v }) ≡ x
          → Meets
              (λ store t. IsLike parts s t × IsRestart first v store t.world)
              (λ _. IsLike parts s)
              x
          → Revived first s (
              continue
                (λ store.
                  modifies (λ t. record t { recovery_failed_at = none; store = some store }))
                (failed parts x))
      go (ok store, t) e h = (h.0.0, refl, v, store, due, refl, h.1)
      go (err x, t) e h = (h, refl, inr (v, due, (x, t, e, refl)))

  retry-Revived :
      (first : parts.Hello) (s : Service parts)
      → Revived first s (retry parts first s.recovery_failed_at s)
  unfolding retry
  retry-Revived first s = go s.recovery_failed_at refl
    where
      v : parts.World
      v = (parts.monotonic s.world).1

      tested :
          (failed_at : ℕ)
          → s.recovery_failed_at ≡ some failed_at
          → (b : Bool) → ltb (parts.monotonic s.world).0 (failed_at + recovery_backoff_seconds) ≡ b
          → Revived first s
              ((if b then raise Error.unavailable else revive parts first) (record s { world = v }))
      tested failed_at e true q = (((refl, refl, refl), refl), refl, inl ((failed_at, e, q), refl))
      tested failed_at e false q =
          revive-Revived first s v (subst (λ f. IsDue f s.world v) (sym e) (refl, q))

      go : (f : Option ℕ) → s.recovery_failed_at ≡ f → Revived first s (retry parts first f s)
      go none e = revive-Revived first s s.world (subst (λ f. IsDue f s.world s.world) (sym e) refl)
      go (some failed_at) e =
          tested failed_at e
            (ltb (parts.monotonic s.world).0 (failed_at + recovery_backoff_seconds)) refl

  -- What a recovery does. Where the service was not started or its worker is ready, it returns and changes
  -- nothing. Where the service was started and its worker is gone, it keeps the profile, the hold and the
  -- pending ids. Where it then returns, no failure was noted or the backoff of ten seconds is over, the worker
  -- started again with the first hello, and the service has the new store, expired, with no failure noted.
  -- Where it raises, it raises `SnapshotUnavailableError` with the store as it was: within the backoff with
  -- the noted time kept, or because the restart raised, and then the time of the failure is noted.
  pub recover-Revived :
      (s : Service parts)
      → (((s.profile ≡ none) ⊎ (is_ready parts s ≡ true)) × (recover parts s ≡ (ok tt, s)))
        ⊎ ((first : parts.Hello) × (s.profile ≡ some first)
            × (is_ready parts s ≡ false)
            × Revived first s (recover parts s))
  unfolding recover
  recover-Revived s = go s.profile (is_ready parts s) refl refl
    where
      go :
          (p : Option parts.Hello) (b : Bool)
          → s.profile ≡ p
          → is_ready parts s ≡ b
          → (let r : Outcome Error (Unit {0}) × Service parts = elim p [
            | none ↦ (ok tt, s)
            | some first ↦ if b then (ok tt, s) else retry parts first s.recovery_failed_at s
          ] in
              (((s.profile ≡ none) ⊎ (is_ready parts s ≡ true)) × (r ≡ (ok tt, s)))
              ⊎ ((first : parts.Hello) × (s.profile ≡ some first)
                  × (is_ready parts s ≡ false)
                  × Revived first s r))
      go none b p q = inl (inl p, refl)
      go (some first) true p q = inl (inr q, refl)
      go (some first) false p q = inr (first, p, q, retry-Revived first s)
