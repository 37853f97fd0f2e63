-- ===== src/Verifier.antt =====
-- `IndependentFleetVerifier` of src/voodoo_skillset/fleet_worker.py: the checks of a job against its
-- specification, and `run_once`, which claims a job of the fleet store and judges it.
pub mod Outcome
pub mod Soundness
mod Tests
use Prim.Native.String.{◌++◌ as ◌+++◌}
use voodoo_skillset.Prelude.{
  ℕ, suc, String, Bool, true, false, not, ◌&&◌, ◌||◌, Option, none, some, List, [], ◌∷◌, ◌++◌, ◌==◌,
  ℤ, pos, eqb_ℤ, all_of, is_empty, any_of, text_length, codes, is_infix, contains, str_eq,
  if◌then◌else◌,
}
use voodoo_skillset.Json.{
  Json, Items, Fields, null, bool, int, text, array, object, nil, cons, end, field, dict, get,
  get_or, text?, is_text, texts,
}
use voodoo_skillset.Python.{
  PyError, value_error, runtime_error, type_error, key_error, permission_error, integrity_error,
  overflow_error, protocol_error, auth_error, policy_error, Result, ok, err, Method, pure, raise,
  raise_if, ◌>>=◌, ◌>>◌,
}
use voodoo_skillset.Platform.{Platform, text_of}
use voodoo_skillset.Fleet.Tables.{Job, Store}
use voodoo_skillset.Fleet.Queue.{state_name}
use voodoo_skillset.Fleet.Execution.{Lease}
use voodoo_skillset.Fleet.Verification.{claim_verification, complete_verification}

-- Python's `a == b` on JSON values: True equals 1, and a dict has no order.
abbrev pub int_of_bool : Bool → ℤ
int_of_bool true = pos 1
int_of_bool false = pos 0

abbrev pub field_count : Fields → ℕ
field_count end = 0
field_count (field k v rest) = suc (field_count rest)

unfoldable mutual
  pub equal : Json → Json → Bool
  equal null null = true
  equal (bool a) (bool b) = eqb_ℤ (int_of_bool a) (int_of_bool b)
  equal (bool a) (int b) = eqb_ℤ (int_of_bool a) b
  equal (int a) (bool b) = eqb_ℤ a (int_of_bool b)
  equal (int a) (int b) = eqb_ℤ a b
  equal (text a) (text b) = str_eq a b
  equal (array a) (array b) = equal_items a b
  equal (object a) (object b) = field_count a == field_count b && equal_fields a b
  equal a b = false

  pub equal_items : Items → Items → Bool
  equal_items nil nil = true
  equal_items (cons a as_) (cons b bs) = equal a b && equal_items as_ bs
  equal_items as_ bs = false

  -- Each field of the first is one of the second.
  pub equal_fields : Fields → Fields → Bool
  equal_fields end d = true
  equal_fields (field k v rest) d =
      let first : Bool = elim (get k d) [ none ↦ false | some w ↦ equal v w ] in
      first && equal_fields rest d

-- The checks of a verification, in the order of their insertion.
abbrev pub Checks : Type 0
Checks = List (String × Bool)

abbrev pub checks_dict : Checks → Fields
checks_dict [] = end
checks_dict ((name, passed) ∷ rest) = field name (bool passed) (checks_dict rest)

-- A value that Python takes for False.
abbrev pub is_falsy : Json → Bool
is_falsy null = true
is_falsy (bool b) = not b
is_falsy (int n) = eqb_ℤ n (pos 0)
is_falsy (text t) = str_eq t ""
is_falsy (array nil) = true
is_falsy (object end) = true
is_falsy _ = false

-- `value or {}`, of which a field is read: any other value has no `get`.
unfoldable pub dict_or_empty : Option Json → Result Fields
dict_or_empty none = ok end
dict_or_empty (some (object d)) = ok d
dict_or_empty (some v) = if is_falsy v then ok end else err (type_error "no attribute 'get'")

abbrev pub value_or_null : Option Json → Json
value_or_null none = null
value_or_null (some v) = v

-- `if key in spec: checks[key] = found.get(key) == spec[key]`, under the name of the check.
unfoldable pub assertion : String → Option Json → Option Json → Checks
unfolding equal
assertion name found none = []
assertion name found (some expected) = (name, equal (value_or_null found) expected) ∷ []

-- The elements of `stdout_contains`, where it is a non-empty array of non-empty texts.
unfoldable pub needles : Items → Option (List String)
needles nil = some []
needles (cons (text t) rest) =
    let others = needles rest in
    if str_eq t "" then none else elim others [ none ↦ none | some ts ↦ some (t ∷ ts) ]
needles (cons v rest) = none

unfoldable pub expected_texts : Json → Option (List String)
unfolding needles
expected_texts (array (cons v rest)) = needles (cons v rest)
expected_texts _ = none

-- `if not outcome_keys: raise ...`: the checks besides the two on the receipt.
abbrev pub is_outcome : String × Bool → Bool
is_outcome check = not (contains check.0 ("receipt_remains_unknown" ∷ "receipt_hash_present" ∷ []))

-- `workspace_manifest_digest(self._workspace(workspace_id))`: (workspace_root / id).resolve(), its
-- parent, whether it is a directory, and the digest.
pub record Workspaces : Type 0 where
  pub workspace_root : String
  pub resolve : String → String
  pub parent : String → String
  pub is_dir : String → Bool
  pub manifest_digest : String → String

module _ (env : Platform) (files : Workspaces) where
  unfoldable pub stdout_checks : ℕ → List String → String → Checks
  stdout_checks index [] stdout = []
  stdout_checks index (item ∷ rest) stdout =
      ("stdout_contains_" +++ env.str (int (pos index)), is_infix (codes item) (codes stdout))
      ∷ stdout_checks (suc index) rest stdout

  unfoldable pub stdout_assertions : Option Json → Fields → Result Checks
  unfolding stdout_checks expected_texts
  stdout_assertions none result = ok []
  stdout_assertions (some spec) result = elim (expected_texts spec) [
    | none ↦ err (value_error "stdout_contains verification spec must be a non-empty string array")
    | some items ↦ ok (stdout_checks 0 items (text_of env (get_or "stdout" (text "") result)))
  ]

  unfoldable pub verification_workspace : String → Result String
  verification_workspace workspace_id =
      let target = files.resolve workspace_id in
      if not (str_eq (files.parent target) files.workspace_root) || not (files.is_dir target)
      then err (value_error "verification workspace is missing or escaped root")
      else ok target

  -- The check of the workspace, and what it has observed.
  unfoldable pub workspace_checks : Json → Job → Result (Checks × List (String × Json))
  unfolding verification_workspace
  workspace_checks required job =
      if is_falsy required then ok ([], []) else elim (verification_workspace job.workspace_id) [
        | err e ↦ err e
        | ok target ↦
            let after = files.manifest_digest target in
            ok (
              (
                "workspace_unchanged",
                elim job.workspace_before_sha256 [
                  | none ↦ false
                  | some before ↦ str_eq before after
                ],
              )
                  ∷ [],
              ("workspace_before_sha256", text? job.workspace_before_sha256)
                  ∷ ("workspace_after_sha256", text after)
                  ∷ [],
            )
      ]

  -- The checks that read the receipt's result, up to "capabilities".
  unfoldable pub result_checks : Fields → Fields → Fields → Checks
  unfolding assertion
  result_checks spec result isolation =
      assertion "exit_code" (get "exit_code" result) (get "expected_exit_code" spec)
      ++ (assertion "runner" (get "runner" result) (get "runner" spec)
          ++ (assertion "persistent_effect" (get "persistent_effect" result)
                (get "persistent_effect" spec)
              ++ (assertion "network_default" (get "network_default" isolation)
                    (get "network_default" spec)
                  ++ (assertion "root_filesystem" (get "root_filesystem" isolation)
                        (get "root_filesystem" spec)
                      ++ assertion "capabilities" (get "capabilities" isolation)
                          (get "capabilities" spec)))))

  unfoldable pub receipt_checks : Fields → Option String → Checks
  receipt_checks receipt sha256 =
      ("receipt_remains_unknown", is_text "UNKNOWN" (get "verification_status" receipt))
      ∷ ("receipt_hash_present", elim sha256 [ none ↦ false | some h ↦ text_length h == 64 ])
      ∷ []

  unfoldable pub observed_result : Fields → Option String → List (String × Json)
  observed_result result sha256 =
      ("receipt_sha256", text? sha256)
      ∷ ("runner", value_or_null (get "runner" result))
      ∷ ("exit_code", value_or_null (get "exit_code" result))
      ∷ ("persistent_effect", value_or_null (get "persistent_effect" result))
      ∷ []

  -- A specification that names a field of the isolation.
  unfoldable pub reads_isolation : Fields → Bool
  reads_isolation spec =
      any_of (λ k. elim (get k spec) [ none ↦ false | some v ↦ true ])
        ("network_default" ∷ "root_filesystem" ∷ "capabilities" ∷ [])

  unfoldable pub isolation_of : Fields → Fields → Result Fields
  unfolding dict_or_empty reads_isolation
  isolation_of spec result =
      if reads_isolation spec then dict_or_empty (get "isolation" result) else ok end

  -- `job.get("receipt") or {}`
  abbrev pub receipt_of : Job → Fields
  receipt_of job = elim job.receipt [ none ↦ end | some r ↦ r ]

  abbrev pub lifted : {S A : Type 0} → Result A → Method S A
  lifted (ok a) = pure a
  lifted (err e) = raise e

  abbrev pub found_checks : Job → Fields → Fields → Checks → Checks → Checks
  found_checks job result isolation stdout workspace =
      receipt_checks (receipt_of job) job.receipt_sha256
      ++ (result_checks job.verification_spec result isolation ++ (stdout ++ workspace))

  module _ {S : Type 0} where
    -- `_checks` from its last lines backwards: each part goes on with the next one.
    unfoldable pub with_workspace :
        Job → Fields → Fields → Checks → Checks × List (String × Json) → Method S (Checks × Fields)
    unfolding receipt_checks result_checks observed_result
    with_workspace job result isolation stdout (workspace, seen) =
        raise_if (not (any_of is_outcome (found_checks job result isolation stdout workspace)))
          (runtime_error "verification spec has no independent outcome assertions")
        >> pure (
          found_checks job result isolation stdout workspace,
          dict (observed_result result job.receipt_sha256 ++ seen),
        )

    unfoldable pub with_stdout : Job → Fields → Fields → Checks → Method S (Checks × Fields)
    unfolding workspace_checks with_workspace
    with_stdout job result isolation stdout =
        lifted
          (workspace_checks (get_or "require_workspace_unchanged" null job.verification_spec) job)
        >>= with_workspace job result isolation stdout

    unfoldable pub with_isolation : Job → Fields → Fields → Method S (Checks × Fields)
    unfolding stdout_assertions with_stdout
    with_isolation job result isolation =
        lifted (stdout_assertions (get "stdout_contains" job.verification_spec) result)
        >>= with_stdout job result isolation

    unfoldable pub with_spec : Job → Fields → Unit {0} → Method S (Checks × Fields)
    unfolding isolation_of with_isolation
    with_spec job result _ =
        lifted (isolation_of job.verification_spec result) >>= with_isolation job result

    unfoldable pub with_result : Job → Fields → Method S (Checks × Fields)
    unfolding with_spec
    with_result job result =
        raise_if (is_falsy (object job.verification_spec))
          (runtime_error "independent verification spec is missing; cannot claim PASS")
        >>= with_spec job result

    unfoldable pub checks : Job → Method S (Checks × Fields)
    unfolding dict_or_empty with_result
    checks job = lifted (dict_or_empty (get "result" (receipt_of job))) >>= with_result job

  -- `all(checks.values())`
  abbrev pub all_pass : Checks → Bool
  all_pass = all_of (λ (check : String × Bool). check.1)

  abbrev pub verdict_of : Checks → String
  verdict_of all_checks = if all_pass all_checks then "VERIFIED" else "FAILED"

  abbrev pub proof_of : Checks → Fields → Fields
  proof_of all_checks observed = dict (
      ("checks", object (checks_dict all_checks))
      ∷ ("observed", object observed)
      ∷ ("method", text "independent-fleet-verifier-v1")
      ∷ [])

  -- The text of an exception, `str(exc)`.
  abbrev pub message : PyError → String
  message (key_error t) = "'" +++ t +++ "'"
  message (value_error t) = t
  message (type_error t) = t
  message (runtime_error t) = t
  message (permission_error t) = t
  message (integrity_error t) = t
  message (overflow_error t) = t
  message (protocol_error t) = t
  message (auth_error t) = t
  message (policy_error t) = t

  abbrev pub blocked_proof : PyError → Fields
  blocked_proof e = dict (
      ("checks", object end)
      ∷ ("observed", object end)
      ∷ ("method", text "independent-fleet-verifier-v1")
      ∷ ("reason", text (message e))
      ∷ [])

  -- What `run_once` reports: the status, the job and the state of the queue.
  pub record Report : Type 0 where
    pub status : String
    pub job_id : Option String
    pub queue_state : Option String

  -- The `try` of `run_once`.
  unfoldable pub judge : String → Lease → ℤ → Method Store Report
  unfolding checks
  judge verifier_id lease now = do
    checked ← checks lease.job
    let verdict = verdict_of checked.0
    final ←
        complete_verification env lease.job_id verifier_id lease.token verdict
          (proof_of checked.0 checked.1) now
    pure (record {
      status = verdict;
      job_id = some lease.job_id;
      queue_state = some (state_name final.state);
    })

  -- The inner `try` of the `except` clause, and the report.
  abbrev pub blocked_report : String → String → Report
  blocked_report job_id queue_state = record {
    status = "BLOCKED";
    job_id = some job_id;
    queue_state = some queue_state;
  }

  unfoldable pub report_blocked : String → Result Job × Store → Result Report × Store
  report_blocked job_id (ok final, t) = (ok (blocked_report job_id (state_name final.state)), t)
  report_blocked job_id (err e, t) = (ok (blocked_report job_id "VERIFYING_UNTIL_LEASE_EXPIRY"), t)

  -- `except Exception`: the job is reported BLOCKED, to the store as well where the lease still holds.
  unfoldable pub otherwise_block :
      String → Lease → ℤ → Result Report × Store → Result Report × Store
  unfolding report_blocked
  otherwise_block verifier_id lease now (ok report, t) = (ok report, t)
  otherwise_block verifier_id lease now (err e, t) = report_blocked lease.job_id (
      complete_verification env lease.job_id verifier_id lease.token "BLOCKED" (blocked_proof e) now
        t)

  unfoldable pub run_lease : String → ℤ → Option Lease → Method Store Report
  unfolding judge otherwise_block
  run_lease verifier_id now none s =
      (ok (record { status = "IDLE"; job_id = none; queue_state = none }), s)
  run_lease verifier_id now (some lease) s =
      otherwise_block verifier_id lease now (judge verifier_id lease now s)

  -- The store reads its clock for the claim and for the verdict; the lease is for 30 seconds.
  unfoldable pub run_once : String → ℤ → String → ℤ → Method Store Report
  unfolding run_lease
  run_once verifier_id claimed_at token now = do
    lease ← claim_verification env verifier_id (pos 30) claimed_at token
    run_lease verifier_id now lease
