-- ===== src/Verifier/Soundness.antt =====
-- What it means that the independent verifier passes a job (src/voodoo_skillset/fleet_worker.py).
use voodoo_skillset.Prelude.{
  String, Bool, true, not, Option, none, some, List, ◌++◌, ◌≡◌, refl, sym, ap, subst, arith, all_of,
  any_of, false, text_length, ◌==◌,
}
use voodoo_skillset.Json.{Json, Fields, object, null, get, get_or, is_text, dict}
use voodoo_skillset.Python.{Result, ok, err, raise_if, runtime_error, pure, ok-injective}
use voodoo_skillset.Python.Keeping.{bound, passed_if}
use voodoo_skillset.Platform.{Platform}
use voodoo_skillset.Fleet.Tables.{Job}
use voodoo_skillset.Verifier.Outcome.{
  all_pass-append, Prints, Unchanged, stdout_assertions-Prints, workspace_checks-Unchanged,
}
use voodoo_skillset.Verifier.{
  Checks, Workspaces, equal, is_outcome, is_falsy, value_or_null, dict_or_empty, assertion, checks,
  result_checks, receipt_checks, stdout_assertions, workspace_checks, isolation_of, observed_result,
  lifted, receipt_of, found_checks, with_workspace, with_stdout, with_isolation, with_spec,
  with_result,
}

-- A field that the specification names has the value that it names.
abbrev pub Matches : Option Json → Option Json → Type 0
Matches found expected = (e : Json) → expected ≡ some e → equal (value_or_null found) e ≡ true

assertion-Matches :
    (name : String) (found expected : Option Json)
    → all_of (λ (c : String × Bool). c.1) (assertion name found expected) ≡ true
    → Matches found expected
unfolding assertion
assertion-Matches name found none h e q = absurd (ground arith)
assertion-Matches name found (some x) h e q =
    subst (λ y. equal (value_or_null found) y ≡ true) (same x e q) (ground arith)
  where
    same : (a b : Json) → some a ≡ some b → a ≡ b
    same a b r = cc

-- What the checks have found where all of them pass: the receipt is still UNKNOWN, the result agrees
-- with the specification, and something was asserted of it.
pub record Passed (spec result isolation : Fields) (receipt : Fields) (all_checks : Checks)
    : Type 0 where
  pub unknown : is_text "UNKNOWN" (get "verification_status" receipt) ≡ true
  pub exit_code : Matches (get "exit_code" result) (get "expected_exit_code" spec)
  pub runner : Matches (get "runner" result) (get "runner" spec)
  pub persistent_effect : Matches (get "persistent_effect" result) (get "persistent_effect" spec)
  pub network_default : Matches (get "network_default" isolation) (get "network_default" spec)
  pub root_filesystem : Matches (get "root_filesystem" isolation) (get "root_filesystem" spec)
  pub capabilities : Matches (get "capabilities" isolation) (get "capabilities" spec)
  pub outcome : any_of is_outcome all_checks ≡ true

module _ (env : Platform) (files : Workspaces) where
  result_checks-Matches :
      (spec result isolation receipt : Fields) (rest all_checks : Checks)
      → any_of is_outcome all_checks ≡ true
      → is_text "UNKNOWN" (get "verification_status" receipt) ≡ true
      → all_of (λ (c : String × Bool). c.1) (result_checks env files spec result isolation ++ rest)
        ≡ true
      → Passed spec result isolation receipt all_checks
  unfolding result_checks
  result_checks-Matches spec result isolation receipt rest all_checks o u h =
      let whole = all_pass-append (result_checks env files spec result isolation) rest h in
      let a1 =
        all_pass-append
          (assertion "exit_code" (get "exit_code" result) (get "expected_exit_code" spec)) _
          whole.0 in
      let a2 =
        all_pass-append (assertion "runner" (get "runner" result) (get "runner" spec)) _ a1.1 in
      let a3 =
        all_pass-append
          (assertion "persistent_effect" (get "persistent_effect" result)
            (get "persistent_effect" spec))
          _ a2.1 in
      let a4 =
        all_pass-append
          (assertion "network_default" (get "network_default" isolation)
            (get "network_default" spec))
          _ a3.1 in
      let a5 =
        all_pass-append
          (assertion "root_filesystem" (get "root_filesystem" isolation)
            (get "root_filesystem" spec))
          _ a4.1 in
      record {
        unknown = u;
        exit_code =
            assertion-Matches "exit_code" (get "exit_code" result) (get "expected_exit_code" spec)
              a1.0;
        runner = assertion-Matches "runner" (get "runner" result) (get "runner" spec) a2.0;
        persistent_effect =
            assertion-Matches "persistent_effect" (get "persistent_effect" result)
              (get "persistent_effect" spec) a3.0;
        network_default =
            assertion-Matches "network_default" (get "network_default" isolation)
              (get "network_default" spec) a4.0;
        root_filesystem =
            assertion-Matches "root_filesystem" (get "root_filesystem" isolation)
              (get "root_filesystem" spec) a5.0;
        capabilities =
            assertion-Matches "capabilities" (get "capabilities" isolation)
              (get "capabilities" spec) a5.1;
        outcome = o;
      }

  lifted_of :
      {S A : Type 0} (r : Result A) (s t : S) (a : A) → lifted env files r s ≡ (ok a, t) → r ≡ ok a
  lifted_of (ok b) s t a h = ap (λ q. q.0) h
  lifted_of (err e) s t a h = absurd (ground arith)

  -- What the checks of a job give where they all pass.
  pub record Verifies (job : Job) (all_checks : Checks) : Type 0 where
    pub result : Fields
    pub isolation : Fields
    pub result_of : dict_or_empty (get "result" (receipt_of env files job)) ≡ ok result
    pub isolation_from : isolation_of env files job.verification_spec result ≡ ok isolation
    pub passed : Passed job.verification_spec result isolation (receipt_of env files job) all_checks
    pub receipt_hash : (hash : String) × (job.receipt_sha256 ≡ some hash) × (text_length hash ≡ 64)
    pub stdout : Prints env files (get "stdout_contains" job.verification_spec) result
    pub workspace :
        Unchanged env files (get_or "require_workspace_unchanged" null job.verification_spec) job

  hash_found :
      (sha256 : Option String)
      → elim sha256 [ none ↦ false | some h ↦ text_length h == 64 ] ≡ true
      → (hash : String) × (sha256 ≡ some hash) × (text_length hash ≡ 64)
  hash_found none h = absurd (ground arith)
  hash_found (some hash) h = (hash, refl, ground arith)

  concluded :
      {S : Type 0} (job : Job) (result isolation : Fields) (stdout : Checks)
      (workspace : Checks × List (String × Json)) (s : S) (all_checks : Checks) (observed : Fields)
      → (with_workspace env files job result isolation stdout workspace s).0
        ≡ ok (all_checks, observed)
      → all_of (λ (c : String × Bool). c.1) all_checks ≡ true
      → Passed job.verification_spec result isolation (receipt_of env files job) all_checks
        × ((hash : String) × (job.receipt_sha256 ≡ some hash) × (text_length hash ≡ 64))
        × (all_of (λ (c : String × Bool). c.1) stdout ≡ true)
        × (all_of (λ (c : String × Bool). c.1) workspace.0 ≡ true)
  unfolding with_workspace receipt_checks
  concluded job result isolation stdout (workspace, seen) s all_checks observed h p =
      let found = found_checks env files job result isolation stdout workspace in
      let last =
        bound
          (raise_if (not (any_of is_outcome found))
            (runtime_error "verification spec has no independent outcome assertions"))
          (λ _. pure (found, dict (observed_result env files result job.receipt_sha256 ++ seen))) s
          (all_checks, observed) h in
      let guard =
        passed_if (not (any_of is_outcome found))
          (runtime_error "verification spec has no independent outcome assertions") s last.state
          last.first in
      let same : found ≡ all_checks = ap (λ q. q.0) (ok-injective last.then_ok) in
      let pass = subst (λ c. all_of (λ (x : String × Bool). x.1) c ≡ true) (sym same) p in
      let parts =
        all_pass-append (receipt_checks env files (receipt_of env files job) job.receipt_sha256)
          (result_checks env files job.verification_spec result isolation ++ (stdout ++ workspace))
          pass in
      let tail =
        all_pass-append (result_checks env files job.verification_spec result isolation)
          (stdout ++ workspace) parts.1 in
      let ends = all_pass-append stdout workspace tail.1 in
      (
        result_checks-Matches job.verification_spec result isolation (receipt_of env files job)
            (stdout ++ workspace) all_checks
            (subst (λ c. any_of is_outcome c ≡ true) same (ground (arith, guard.0)))
            (ground (arith, parts.0)) parts.1,
        hash_found job.receipt_sha256 (ground (arith, parts.0)),
        ends.0,
        ends.1,
      )

  -- Where `_checks` returns checks that all pass: the receipt is still UNKNOWN and has a hash of 64
  -- characters; its result has the exit code, the runner and the persistent effect, and its isolation
  -- the network default, the root filesystem and the capabilities, that the specification names; its
  -- standard output contains each text of `stdout_contains`, which is a list of non-empty texts; the
  -- workspace has the digest of the job's row where `require_workspace_unchanged` is truthy; and at
  -- least one check is about the outcome.
  pub checks-Verifies :
      {S : Type 0} (job : Job) (s : S) (all_checks : Checks) (observed : Fields)
      → (checks env files job s).0 ≡ ok (all_checks, observed)
      → all_of (λ (c : String × Bool). c.1) all_checks ≡ true
      → Verifies job all_checks
  unfolding checks with_result with_spec with_isolation with_stdout
  checks-Verifies job s all_checks observed h p =
      let out : Checks × Fields = (all_checks, observed) in
      let b1 =
        bound (lifted env files (dict_or_empty (get "result" (receipt_of env files job))))
          (with_result env files job) s out h in
      let b2 =
        bound
          (raise_if (is_falsy (object job.verification_spec))
            (runtime_error "independent verification spec is missing; cannot claim PASS"))
          (with_spec env files job b1.value) b1.state out b1.then_ok in
      let b3 =
        bound (lifted env files (isolation_of env files job.verification_spec b1.value))
          (with_isolation env files job b1.value) b2.state out b2.then_ok in
      let b4 =
        bound
          (lifted env files
            (stdout_assertions env files (get "stdout_contains" job.verification_spec) b1.value))
          (with_stdout env files job b1.value b3.value) b3.state out b3.then_ok in
      let b5 =
        bound
          (lifted env files (
            workspace_checks env files
              (get_or "require_workspace_unchanged" null job.verification_spec) job))
          (with_workspace env files job b1.value b3.value b4.value) b4.state out b4.then_ok in
      let last =
        concluded job b1.value b3.value b4.value b5.value b5.state all_checks observed b5.then_ok
          p in
      let stdout_of =
        lifted_of
          (stdout_assertions env files (get "stdout_contains" job.verification_spec) b1.value)
          b3.state b4.state b4.value b4.first in
      let workspace_of =
        lifted_of
          (workspace_checks env files
            (get_or "require_workspace_unchanged" null job.verification_spec) job)
          b4.state b5.state b5.value b5.first in
      record {
        result = b1.value;
        isolation = b3.value;
        result_of =
            lifted_of (dict_or_empty (get "result" (receipt_of env files job))) s b1.state b1.value
              b1.first;
        isolation_from =
            lifted_of (isolation_of env files job.verification_spec b1.value) b2.state b3.state
              b3.value b3.first;
        passed = last.0;
        receipt_hash = last.1;
        stdout =
            stdout_assertions-Prints env files (get "stdout_contains" job.verification_spec)
              b1.value b4.value stdout_of last.2;
        workspace =
            workspace_checks-Unchanged env files
              (get_or "require_workspace_unchanged" null job.verification_spec) job b5.value.0
              b5.value.1 workspace_of last.3;
      }
