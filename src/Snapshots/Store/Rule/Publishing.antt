-- ===== src/Snapshots/Store/Rule/Publishing.antt =====
-- `_persist` changes two fields of its record and nothing else, whatever the world outside answers.
use riderless.Prelude.{refl, String, arith, eq_iff}
use riderless.Action.{Outcome, ok, err, pure, lift, ◌>>=◌, ◌>>◌, on_error}
use riderless.Action.Triple.{Meets, Triple-pure, Triple-if, Triple-on_error, Triple-weaken}
use riderless.Json.{Json, Fields, as_obj}
use riderless.Snapshots.Errors.{Error}
use riderless.Snapshots.Store.Types.{SnapshotRecord, Store}
use riderless.Snapshots.Store.Dict.{modify}
use riderless.Snapshots.Store.Dict.Laws.{find-modify}
use riderless.Snapshots.Store.Env.{Env, Files, Sys, call, ask, reads, writes}
use riderless.Snapshots.Store.Env.Rules.{
  On, Keeps, Keeps-then, Keeps-bind, Keeps-call, Keeps-ask, Triple-reads, Triple-writes,
}
use riderless.Snapshots.Store.Manifest.{manifest, manifest_ok, file_names_ok}
use riderless.Snapshots.Store.Persist.{
  guard, disk_dir, manifest_path, is_durable, persisted, unreadable, as_manifest, read_manifest,
  validate_manifest, stage, confirm, publish, persist, ◌^^◌,
}
use riderless.Snapshots.Store.Rule.{Neutral}
use riderless.Snapshots.Store.Rule.Safe.{Stable, Neutral-Inv}
use riderless.Snapshots.Store.Rule.Loops.{Holding}

module _ {env : Env} (Q : Store → Type 0) where
  pub Keeps-lift : {A : Type 0} (r : Outcome Error A) → Keeps {env = env} Q (lift r)
  Keeps-lift (ok a) = record { holds = λ s h. h }
  Keeps-lift (err e) = record { holds = λ s h. h }

  -- `_read_manifest` and `_validate_manifest` change nothing.
  pub read_manifest-Keeps : (dir : String) → Keeps Q (read_manifest env dir)
  unfolding read_manifest
  read_manifest-Keeps dir =
      Keeps-bind Q Q _ _
        (record {
          holds = λ s h.
              go (call (env.read_manifest (manifest_path dir)) s)
                ((Keeps-call Q (env.read_manifest (manifest_path dir))).holds s h);
        })
        (λ s h. h) (λ j. Keeps-lift (as_manifest (as_obj j)))
    where
      go :
          (r : Outcome Error Json × Sys env)
          → Meets (λ _. On Q) (λ _. On Q) r
          → Meets (λ _. On Q) (λ _. On Q) (unreadable r)
      go (ok j, s) h = h
      go (err (Error.foreign name), s) h = h
      go (err e, s) h = h

  pub validate_manifest-Keeps :
      (m : Fields) (r : SnapshotRecord) → Keeps Q (validate_manifest env m r)
  unfolding validate_manifest
  validate_manifest-Keeps m r =
      Triple-reads Q (λ s. s.config) _
        λ c.
          Triple-weaken (lift (guard (manifest_ok c m r) Error.integrity)) (λ s h. h.0) (λ a s h. h)
            (λ e s h. h) (Keeps-lift (guard (manifest_ok c m r) Error.integrity))

  stage-Keeps : (r : SnapshotRecord) (tmp final : String) → Keeps Q (stage env r tmp final)
  unfolding stage
  stage-Keeps r tmp final =
      Keeps-bind Q Q (call (env.save r.id tmp)) _ (Keeps-call Q (env.save r.id tmp)) (λ s h. h)
        λ files.
          Keeps-then Q Q (lift (guard (file_names_ok files) Error.integrity)) _
            (Keeps-lift (guard (file_names_ok files) Error.integrity)) (λ s h. h)
            (Keeps-bind Q Q (reads (λ s. s.config)) _ (record { holds = λ s h. h }) (λ s h. h)
              λ c.
                let write =
                  env.write_manifest (manifest_path tmp) (Json.obj (manifest c r files)) in
                Keeps-then Q Q (call write) _ (Keeps-call Q write) (λ s h. h)
                  (Keeps-then Q Q (call (env.sync_tree tmp)) _ (Keeps-call Q (env.sync_tree tmp))
                    (λ s h. h)
                    (Keeps-then Q Q (call (env.replace tmp final)) (pure files)
                      (Keeps-call Q (env.replace tmp final)) (λ s h. h)
                      (record { holds = λ s h. h }))))

  confirm-Keeps : (r : SnapshotRecord) (final : String) → Keeps Q (confirm env r final)
  unfolding confirm
  confirm-Keeps r final =
      Keeps-bind Q Q (reads (λ s. s.config)) _ (record { holds = λ s h. h }) (λ s h. h)
        λ c.
          Keeps-then Q Q (call (env.sync_dir c.root)) _ (Keeps-call Q (env.sync_dir c.root))
            (λ s h. h)
            (Keeps-bind Q Q (read_manifest env final) _ (read_manifest-Keeps final) (λ s h. h)
              (λ m. validate_manifest-Keeps m r))

module _ (env : Env) (P : Store → Type 0) (stable : Stable P) (r : SnapshotRecord) where
  persisted-Alike : (directory : String) (files : Files) → Neutral (persisted directory files)
  persisted-Alike directory files x = record {
    id = refl;
    parent = refl;
    context_parent = refl;
    resident = refl;
    host_bytes = refl;
    leases = refl;
    refcount = refl;
  }

  -- A write to other fields of the record that the code holds.
  pub Neutral-Holding :
      (s : Store) (f : SnapshotRecord → SnapshotRecord)
      → Neutral f
      → Holding P r s
      → Holding P r (record s { records = modify r.id f s.records })
  Neutral-Holding s f n h =
      let c = h.1 in
      let k = n c.held in
      let a = c.alike in
      (
        Neutral-Inv stable s r.id f s.tick n h.0,
        record {
          held = f c.held;
          found =
              ground (
                arith,
                find-modify f (λ x. (n x).id) r.id r.id s.records,
                eq_iff r.id r.id,
                c.found,
              );
          alike = ground (arith, k, a);
        },
      )

  publish-Keeps : Keeps (Holding P r) (publish env r)
  unfolding publish
  publish-Keeps =
      let H = Holding P r in
      Keeps-bind H H (reads (λ s. s.config)) _ (record { holds = λ s h. h }) (λ s h. h)
        λ c.
          Keeps-bind H H (lift (disk_dir c r.id)) _ (Keeps-lift H (disk_dir c r.id)) (λ s h. h)
            λ final.
              Keeps-then H H (call (env.make_dirs c.root)) _ (Keeps-call H (env.make_dirs c.root))
                (λ s h. h)
                (Keeps-bind H H (ask env.fresh_hex) _ (Keeps-ask H env.fresh_hex) (λ s h. h)
                  λ hex. settled final (final ^^ (".tmp-" ^^ hex)))
    where
      removal : (dir : String) → Keeps {env = env} (Holding P r) (call (env.remove_tree dir))
      removal dir = Keeps-call (Holding P r) (env.remove_tree dir)

      settled :
          (final tmp : String)
          → Keeps {env = env} (Holding P r) (do
            call (env.make_dir tmp)
            files ← on_error (stage env r tmp final) (call (env.remove_tree tmp))
            on_error
                (confirm env r final)
                (do call (env.remove_tree tmp); call (env.remove_tree final))
            writes (λ s. record s { records = modify r.id (persisted final files) s.records }))
      settled final tmp =
          let H = Holding P r in
          Keeps-then H H (call (env.make_dir tmp)) _ (Keeps-call H (env.make_dir tmp)) (λ s h. h)
            (Keeps-bind H H (on_error (stage env r tmp final) (call (env.remove_tree tmp))) _
              (Triple-on_error (λ _. On H) (stage env r tmp final) (call (env.remove_tree tmp))
                (stage-Keeps H r tmp final) (λ e. removal tmp))
              (λ s h. h)
              λ files.
                Keeps-then H H
                  (on_error (confirm env r final)
                    (do call (env.remove_tree tmp); call (env.remove_tree final)))
                  _
                  (Triple-on_error (λ _. On H) (confirm env r final) _ (confirm-Keeps H r final)
                    (λ e.
                      Keeps-then H H (call (env.remove_tree tmp)) _ (removal tmp) (λ s h. h)
                        (removal final)))
                  (λ s h. h)
                  (Triple-writes H H _ (λ s h.
                    Neutral-Holding s (persisted final files) (persisted-Alike final files) h)))

  pub persist-Keeps : Keeps (Holding P r) (persist env r)
  unfolding persist
  persist-Keeps =
      Triple-if (is_durable r) (pure tt) (publish env r) (λ _. Triple-pure tt (λ s h. h))
        (λ _. publish-Keeps)
