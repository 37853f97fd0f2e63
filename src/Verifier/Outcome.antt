-- ===== src/Verifier/Outcome.antt =====
-- What passing checks of the standard output and of the workspace mean (`_checks` of
-- `IndependentFleetVerifier`, src/voodoo_skillset/fleet_worker.py).
use voodoo_skillset.Prelude.{
  String, Bool, true, Option, none, some, List, [], ◌∷◌, ◌++◌, ◌≡◌, refl, sym, ap, subst, arith,
  all_of, ℕ, suc, false, inl, inr, Option-cases, str_eq, eq_iff, is_infix, codes, if◌then◌else◌,
}
use voodoo_skillset.Json.{Json, Fields, text, get_or, text?}
use voodoo_skillset.Python.{Result, ok, err, value_error, ok-injective}
use voodoo_skillset.Platform.{Platform, text_of}
use voodoo_skillset.Fleet.Tables.{Job}
use voodoo_skillset.Verifier.{
  Checks, Workspaces, is_falsy, stdout_assertions, workspace_checks, expected_texts, stdout_checks,
  verification_workspace,
}

pub all_pass-append :
    (as_ bs : Checks)
    → all_of (λ (c : String × Bool). c.1) (as_ ++ bs) ≡ true
    → (all_of (λ (c : String × Bool). c.1) as_ ≡ true)
      × (all_of (λ (c : String × Bool). c.1) bs ≡ true)
all_pass-append [] bs h = (refl, h)
all_pass-append ((n, b) ∷ as_) bs h =
    let rest = all_pass-append as_ bs (ground arith) in (ground (arith, rest.0), rest.1)

module _ (env : Platform) (files : Workspaces) where
  -- A specification of the standard output is a list of texts, each of which the output contains.
  abbrev pub Prints : Option Json → Fields → Type 0
  Prints expected result =
      (e : Json)
      → expected ≡ some e
      → (items : List String) × (expected_texts e ≡ some items)
        × (all_of (λ t. is_infix (codes t) (codes (text_of env (get_or "stdout" (text "") result))))
              items
            ≡ true)

  -- Where the workspace must be unchanged, its digest is that of the job's row.
  abbrev pub Unchanged : Json → Job → Type 0
  Unchanged required job =
      is_falsy required ≡ false
      → (target : String) × (verification_workspace env files job.workspace_id ≡ ok target)
        × (job.workspace_before_sha256 ≡ some (files.manifest_digest target))

  stdout_checks_contain :
      (index : ℕ) (items : List String) (stdout : String)
      → all_of (λ (c : String × Bool). c.1) (stdout_checks env files index items stdout) ≡ true
      → all_of (λ t. is_infix (codes t) (codes stdout)) items ≡ true
  unfolding stdout_checks
  stdout_checks_contain index [] stdout h = refl
  stdout_checks_contain index (t ∷ ts) stdout h =
      ground (arith, stdout_checks_contain (suc index) ts stdout)

  pub stdout_assertions-Prints :
      (expected : Option Json) (result : Fields) (found : Checks)
      → stdout_assertions env files expected result ≡ ok found
      → all_of (λ (c : String × Bool). c.1) found ≡ true
      → Prints expected result
  unfolding stdout_assertions
  stdout_assertions-Prints none result found h p e q = absurd (ground arith)
  stdout_assertions-Prints (some spec) result found h p e q =
      elim (Option-cases (expected_texts spec)) [
        | inl malformed ↦
            let raised : checked none ≡ ok found =
              subst (λ (o : Option (List String)). checked o ≡ ok found) malformed h in
            absurd (ground arith)
        | inr (items, read) ↦
            let same : stdout_checks env files 0 items stdout ≡ found =
              ok-injective (subst (λ (o : Option (List String)). checked o ≡ ok found) read h) in
            (
              items,
              subst (λ x. expected_texts x ≡ some items) (some_eq spec e q) read,
              stdout_checks_contain 0 items stdout
                  (subst (λ c. all_of (λ (x : String × Bool). x.1) c ≡ true) (sym same) p),
            )
      ]
    where
      stdout : String
      stdout = text_of env (get_or "stdout" (text "") result)

      checked : Option (List String) → Result Checks
      checked o = elim o [
        | none ↦
            err (value_error "stdout_contains verification spec must be a non-empty string array")
        | some items ↦ ok (stdout_checks env files 0 items stdout)
      ]

      some_eq : (a b : Json) → some a ≡ some b → a ≡ b
      some_eq a b r = cc

  pub workspace_checks-Unchanged :
      (required : Json) (job : Job) (found : Checks) (seen : List (String × Json))
      → workspace_checks env files required job ≡ ok (found, seen)
      → all_of (λ (c : String × Bool). c.1) found ≡ true
      → Unchanged required job
  unfolding workspace_checks
  workspace_checks-Unchanged required job found seen h p strict =
      placed (verification_workspace env files job.workspace_id) refl (
        subst
          (λ b.
            (if b then ok ([], []) else told (verification_workspace env files job.workspace_id))
            ≡ ok (found, seen))
          strict h)
    where
      digest : String → Checks
      digest target =
          (
            "workspace_unchanged",
            elim job.workspace_before_sha256 [
              | none ↦ false
              | some before ↦ str_eq before (files.manifest_digest target)
            ],
          )
          ∷ []

      told : Result String → Result (Checks × List (String × Json))
      told r = elim r [
        | err e ↦ err e
        | ok target ↦ ok (
          digest target,
          ("workspace_before_sha256", text? job.workspace_before_sha256)
              ∷ ("workspace_after_sha256", text (files.manifest_digest target))
              ∷ [],
        )
      ]

      held :
          (before : Option String) (after : String)
          → elim before [ none ↦ false | some b ↦ str_eq b after ] ≡ true
          → before ≡ some after
      held none after q = absurd (ground arith)
      held (some b) after q = ap some ((eq_iff b after).0 q)

      placed :
          (r : Result String)
          → verification_workspace env files job.workspace_id ≡ r
          → told r ≡ ok (found, seen)
          → (target : String) × (verification_workspace env files job.workspace_id ≡ ok target)
            × (job.workspace_before_sha256 ≡ some (files.manifest_digest target))
      placed (err e) at_ q = absurd (ground arith)
      placed (ok target) at_ q =
          let same : digest target ≡ found = ap (λ x. x.0) (ok-injective q) in
          (
            target,
            at_,
            held job.workspace_before_sha256 (files.manifest_digest target) (
                ground
                  (arith, subst (λ c. all_of (λ (x : String × Bool). x.1) c ≡ true) (sym same) p)),
          )
