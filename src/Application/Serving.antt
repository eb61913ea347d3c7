-- ===== src/Application/Serving.antt =====
-- How the service of the decision API is held, and what it returns.
use riderless.Prelude.{
  ℕ, String, ◌≡◌, refl, Bool, true, false, not, Option, none, some, ◌⊎◌, inl, inr, if◌then◌else◌,
}
use riderless.Action.{Outcome, ok, err, raise, continue, modifies, finish, finally, ◌>>=◌}
use riderless.Compiler.{DecisionRequest, Profile, CompiledBatch, Compiled, compile_request}
use riderless.Mapping.Arithmetic.{Floats}
use riderless.Mapping.{Mapped, MappingError, WorkerBatchResult, DecisionResponse, map_response}
use riderless.Application.{ApiError, Worker, ApiService, call, compiled, mapped, answer, evaluate}

module _ (repr : ℕ → String) (fl : Floats) (worker : Worker fl) where
  -- the request is let in
  abbrev pub is_free : ApiService worker → Bool
  is_free s = elim s.profile [
    | none ↦ false
    | some profile ↦ if worker.ready s.world then not s.busy else false
  ]

  -- The response is that of the mapping for the request as it was compiled and some result.
  pub record IsMapped (request : DecisionRequest) (diagnostics : Bool) (s : ApiService worker)
      (r : DecisionResponse fl) : Type 0 where
    pub profile : Profile
    pub batch : CompiledBatch
    pub result : WorkerBatchResult fl
    pub started : s.profile ≡ some profile
    pub compiles : compile_request repr request profile s.config.share_prefix ≡ Compiled.ok batch
    pub maps : map_response fl batch result profile diagnostics ≡ Mapped.ok r

  -- what a request that was let in leaves
  abbrev pub Served :
      DecisionRequest
      → Bool
      → ApiService worker
      → Outcome ApiError (DecisionResponse fl) × ApiService worker
      → Type 0
  Served request diagnostics s (ok r, t) =
      IsMapped request diagnostics s r × ((t.busy ≡ false) × (t.profile ≡ s.profile))
  Served request diagnostics s (err e, t) = (t.busy ≡ false) × (t.profile ≡ s.profile)

  -- what the `try` block leaves
  abbrev Answered :
      DecisionRequest
      → Bool
      → ApiService worker
      → Outcome ApiError (DecisionResponse fl) × ApiService worker
      → Type 0
  Answered request diagnostics s (ok r, t) =
      IsMapped request diagnostics s r × (t.profile ≡ s.profile)
  Answered request diagnostics s (err e, t) = t.profile ≡ s.profile

  module _ (request : DecisionRequest) (diagnostics : Bool) (s t : ApiService worker) (p : Profile)
      (started : s.profile ≡ some p) (same : t.profile ≡ s.profile) where
    closed-Answered :
        (x : Outcome ApiError (Unit {0}) × worker.World)
        → Answered request diagnostics s (
            continue (λ _. raise ApiError.protocol) (let (r, w) = x in (r, record t { world = w })))
    closed-Answered (ok a, w) = same
    closed-Answered (err e, w) = same

    mapped-Answered :
        (batch : CompiledBatch) (result : WorkerBatchResult fl) (w : worker.World)
        → compile_request repr request p s.config.share_prefix ≡ Compiled.ok batch
        → (m : Mapped (DecisionResponse fl)) → map_response fl batch result p diagnostics ≡ m
        → Answered request diagnostics s (mapped repr fl worker m (record t { world = w }))
    unfolding mapped
    mapped-Answered batch result w c (Mapped.ok r) e = (
      record {
        profile = p;
        batch = batch;
        result = result;
        started = started;
        compiles = c;
        maps = e;
      },
      same,
    )
    mapped-Answered batch result w c (Mapped.err MappingError.index_error) e = same
    mapped-Answered batch result w c (Mapped.err e') e = closed-Answered (worker.close w)

    result-Answered :
        (batch : CompiledBatch)
        → compile_request repr request p s.config.share_prefix ≡ Compiled.ok batch
        → (x : Outcome ApiError (WorkerBatchResult fl) × worker.World)
        → Answered request diagnostics s (
            continue
              (λ result. mapped repr fl worker (map_response fl batch result p diagnostics))
              (let (r, w) = x in (r, record t { world = w })))
    result-Answered batch c (ok result, w) =
        mapped-Answered batch result w c (map_response fl batch result p diagnostics) refl
    result-Answered batch c (err e, w) = same

    answer-Answered :
        (m : Compiled CompiledBatch)
        → compile_request repr request p s.config.share_prefix ≡ m
        → Answered request diagnostics s (
            continue
              (λ batch. call repr fl worker (worker.evaluate batch) >>= λ result.
                mapped repr fl worker (map_response fl batch result p diagnostics))
              (compiled m, t))
    answer-Answered (Compiled.ok batch) c = result-Answered batch c (worker.evaluate batch t.world)
    answer-Answered (Compiled.err e) c = same

  released :
      (request : DecisionRequest) (diagnostics : Bool) (s : ApiService worker)
      (x : Outcome ApiError (DecisionResponse fl) × ApiService worker)
      → Answered request diagnostics s x
      → Served request diagnostics s (finish x.0 (modifies (λ t. record t { busy = false }) x.1))
  released request diagnostics s (ok r, t) h = (h.0, (refl, h.1))
  released request diagnostics s (err e, t) h = (refl, h)

  -- A request that finds the service started, the backend ready and no other request in progress leaves the
  -- service free with its profile, whether it returns or raises; and a response is that of the mapping for
  -- the compiled request and a result. Any other request changes nothing and returns nothing.
  pub evaluate-Served :
      (request : DecisionRequest) (diagnostics : Bool) (s : ApiService worker)
      → ((is_free s ≡ true)
          × Served request diagnostics s (evaluate repr fl worker request diagnostics s))
        ⊎ ((is_free s ≡ false)
            × ((evaluate repr fl worker request diagnostics s ≡ (err ApiError.unavailable, s))
                ⊎ (evaluate repr fl worker request diagnostics s ≡ (err ApiError.busy, s))))
  unfolding evaluate answer
  evaluate-Served request diagnostics s = go s.profile refl (worker.ready s.world) s.busy
    where
      t : ApiService worker
      t = record s { busy = true }

      tried :
          (p : Profile)
          → s.profile ≡ some p
          → Served request diagnostics s (
              finally
                (answer repr fl worker request diagnostics s.config p)
                (modifies (λ u. record u { busy = false }))
                t)
      tried p e =
          released request diagnostics s (answer repr fl worker request diagnostics s.config p t) (
            answer-Answered request diagnostics s t p e refl
              (compile_request repr request p s.config.share_prefix) refl)

      go :
          (o : Option Profile)
          → s.profile ≡ o
          → (ready busy : Bool)
          → (let free : Bool = elim o [
            | none ↦ false
            | some profile ↦ if ready then not busy else false
          ] in
              let r : Outcome ApiError (DecisionResponse fl) × ApiService worker = elim o [
                | none ↦ (err ApiError.unavailable, s)
                | some profile ↦
                    if not ready
                    then (err ApiError.unavailable, s)
                    else if busy
                    then (err ApiError.busy, s)
                    else finally
                        (answer repr fl worker request diagnostics s.config profile)
                        (modifies (λ u. record u { busy = false }))
                        t
              ] in
              ((free ≡ true) × Served request diagnostics s r)
              ⊎ ((free ≡ false)
                  × ((r ≡ (err ApiError.unavailable, s)) ⊎ (r ≡ (err ApiError.busy, s)))))
      go none e ready busy = inr (refl, inl refl)
      go (some p) e false busy = inr (refl, inl refl)
      go (some p) e true true = inr (refl, inr refl)
      go (some p) e true false = inl (refl, tried p e)
