-- ===== src/Snapshots/Service/Entries.antt =====
-- The entries of a response, one for each question, and what it means that they are there.
use riderless.Prelude.{
  append_assoc, ℕ, ◌+◌, String, ◌≡◌, refl, ap, Option, none, some, List, [], ◌∷◌, ◌++◌, arith,
}
use riderless.Action.{Outcome, ok, err, Action}
use riderless.Action.Triple.{Meets, Triple}
use riderless.Mapping.Arithmetic.{Floats}
use riderless.Mapping.{Entries}
use riderless.Snapshots.Errors.{Error}
use riderless.Snapshots.Compiler.{CompiledSnapshotQuestion}
use riderless.Snapshots.Service.Decisions.{Running, add_child, names}

abbrev pub total : Entries ℕ → ℕ
total [] = 0
total ((k, n) ∷ d) = n + total d

-- the children that were asked for, under the ids of the questions
abbrev pub children : List String → List (CompiledSnapshotQuestion × Option String) → Entries String
children (q ∷ ids) ((c, none) ∷ cs) = children ids cs
children (q ∷ ids) ((c, some id) ∷ cs) = (q, id) ∷ children ids cs
children _ _ = []

pub names-append : {A : Type 0} (d e : Entries A) → names (d ++ e) ≡ names d ++ names e
names-append [] e = refl
names-append ((k, v) ∷ d) e = ap (λ xs. k ∷ xs) (names-append d e)

pub total-append : (d e : Entries ℕ) → total (d ++ e) ≡ total d + total e
total-append [] e = omega arith
total-append ((k, n) ∷ d) e = omega (arith, total-append d e)

pub children-add :
    (q : String) (c : CompiledSnapshotQuestion) (save : Option String) (ids : List String)
    (cs : List (CompiledSnapshotQuestion × Option String)) (d : Entries String)
    → add_child q save d ++ children ids cs ≡ d ++ children (q ∷ ids) ((c, save) ∷ cs)
children-add q c none ids cs d = refl
children-add q c (some id) ids cs d = append_assoc d ((q, id) ∷ []) (children ids cs)

-- `u` is `t` with the answers to the questions of these ids.
pub record Answered (fl : Floats) (ids : List String)
    (cs : List (CompiledSnapshotQuestion × Option String)) (t u : Running fl) : Type 0 where
  pub answers : names u.answers ≡ names t.answers ++ ids
  pub suffixes : names u.suffix_tokens ≡ names t.suffix_tokens ++ ids
  pub child : u.child ≡ t.child ++ children ids cs
  pub processed : u.processed + total t.suffix_tokens ≡ t.processed + total u.suffix_tokens

abbrev pub Any : {S : Type 0} → S → Type 0
Any s = Unit {0}

pub Triple-Any : {S A : Type 0} (m : Action Error S A) → Triple Any m (λ _. Any) (λ _. Any)
Triple-Any {S} {A} m = record { holds = λ s h. go (m s) }
  where
    go : (r : Outcome Error A × S) → Meets (λ _. Any) (λ _. Any) r
    go (ok a, s) = tt
    go (err e, s) = tt
