-- ===== src/Snapshots/Service/Examples.antt =====
-- The theorems of the service with a worker that is up in every world but 0, and a body that fails.
use riderless.Prelude.{ℕ, suc, ◌≡◌, refl, ◌⊎◌, true, false, not, none, some, [], ◌∷◌, eqb}
use riderless.Action.{ok, err, raise}
use riderless.Snapshots.Errors.{Error}
use riderless.Snapshots.Service.{Parts, Service, Serve, is_ready, recover, serialized}
use riderless.Snapshots.Service.Lifecycle.{is_free, IsReleased, serialized-IsReleased}
use riderless.Snapshots.Service.Recovery.{Revived, recover-Revived}

abbrev parts : Parts
parts = record {
  World = ℕ;
  Hello = ℕ;
  Store = ℕ;
  same_hello = eqb;
  ready = λ w. not (eqb w 0);
  monotonic = λ w. (12, w);
  start = λ w. (ok 7, suc w);
  close = λ w. (ok tt, 0);
  drop = λ id w. (ok 0, w);
  new_store = λ hello w. (ok hello, w);
  expire = λ store w. (ok tt, w);
  delete = λ store id w. (err Error.not_found, w);
}

-- a started service whose worker is gone and whose last recovery failed at a time
abbrev dead_since : ℕ → Service parts
dead_since t = record {
  profile = some 7;
  store = some 3;
  busy = false;
  pending_ids = "a" ∷ [];
  recovery_failed_at = some t;
  world = 0;
}

abbrev failing : ℕ → ℕ → Serve parts (Unit {0})
failing hello store = raise Error.execution

recovered :
    recover parts (dead_since 2)
    ≡ (ok tt, record (dead_since 2) { store = some 7; recovery_failed_at = none; world = 1 })
unfolding recover
recovered = refl

waiting : recover parts (dead_since 5) ≡ (err Error.unavailable, dead_since 5)
unfolding recover
waiting = refl

rolled_back : serialized parts failing (dead_since 2) ≡ (
  err Error.execution,
  record (dead_since 2) { store = some 7; pending_ids = []; recovery_failed_at = none; world = 1 },
)
unfolding serialized
rolled_back = refl

serialized-IsReleased_example :
    ((is_free parts (dead_since 2) ≡ true)
      × IsReleased parts (serialized parts failing (dead_since 2)).1)
    ⊎ ((is_free parts (dead_since 2) ≡ false)
        × ((serialized parts failing (dead_since 2)).1 ≡ dead_since 2))
serialized-IsReleased_example = serialized-IsReleased parts failing (dead_since 2)

recover-Revived_example :
    (((((dead_since 2).profile ≡ none) ⊎ (is_ready parts (dead_since 2) ≡ true))
        × (recover parts (dead_since 2) ≡ (ok tt, dead_since 2)))
      ⊎ ((first : ℕ) × ((dead_since 2).profile ≡ some first)
          × (is_ready parts (dead_since 2) ≡ false)
          × Revived parts first (dead_since 2) (recover parts (dead_since 2))))
recover-Revived_example = recover-Revived parts (dead_since 2)
