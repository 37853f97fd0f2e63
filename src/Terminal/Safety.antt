-- ===== src/Terminal/Safety.antt =====
-- What the governed terminal starts (src/voodoo_skillset/governed_terminal.py).
use voodoo_skillset.Prelude.{
  String, Bool, true, false, not, ◌&&◌, Option, none, some, List, [], ◌∷◌, ◌++◌, ◌≡◌, ◌⊎◌, inl, inr,
  refl, sym, ap, ◌∙◌, subst, arith, ℤ, ltb_ℤ, contains, any_of, eq_iff, Bool-cases, Option-cases,
}
use voodoo_skillset.Python.{
  Result, ok, err, Method, raise_if, pure, ◌>>=◌, ◌>>◌, permission_error, runtime_error, PyError,
}
use voodoo_skillset.Python.Keeping.{Keeps, keeping}
use voodoo_skillset.Terminal.{
  System, class_name, is_blocked, is_compute, CommandDecision, AuthorizationGrant, Process,
  is_prefix_of, prefix_allowed, classify, classify_named, parse_command, grant_refusal, check_grant,
  run_process, run_decision, execute, new_receipt, operation_id_of, blocked_commands,
}

-- Some element of the list is a prefix of the arguments.
pub data HasPrefix (argv : List String) : List (List String) → Type 0 where
  at_head :
      {p : List String} {ps : List (List String)} (rest : List String)
      → argv ≡ p ++ rest
      → HasPrefix argv (p ∷ ps)
  further :
      {p : List String} {ps : List (List String)} → HasPrefix argv ps → HasPrefix argv (p ∷ ps)

prefix_rest :
    (p argv : List String) → is_prefix_of p argv ≡ true → (rest : List String) × (argv ≡ p ++ rest)
prefix_rest [] argv h = (argv, refl)
prefix_rest (p ∷ ps) [] h = absurd (ground arith)
prefix_rest (p ∷ ps) (a ∷ rest) h =
    let (tail, e) = prefix_rest ps rest (ground arith) in
    let same : p ≡ a = ground (arith, eq_iff p a) in
    (tail, subst (λ x. x ∷ rest ≡ p ∷ ps ++ tail) same (ap (λ xs. p ∷ xs) e))

prefixes_have :
    (argv : List String) (ps : List (List String))
    → any_of (λ p. is_prefix_of p argv) ps ≡ true
    → HasPrefix argv ps
prefixes_have argv [] h = absurd (ground arith)
prefixes_have argv (p ∷ ps) h = elim (Bool-cases (is_prefix_of p argv)) [
  | inl found ↦ let (rest, e) = prefix_rest p argv found in at_head rest e
  | inr missing ↦ further (prefixes_have argv ps (ground arith))
]

module _ (system : System) where
  -- A grant that allows the command in the directory at that time.
  pub record Grants (g : AuthorizationGrant) (d : CommandDecision) (cwd : String) (now : ℤ)
      : Type 0 where
    pub unexpired : (t : ℤ) × (system.date g.expires_at ≡ some (some t)) × (ltb_ℤ now t ≡ true)
    pub on_target : system.resolve g.target ≡ system.resolve cwd
    pub of_class : contains (class_name d.classification) g.allowed_classes ≡ true
    pub prefixed : HasPrefix d.argv g.allowed_prefixes

  -- A command that may be started.
  pub record IsAuthorised (d : CommandDecision) (cwd : String) (grant : Option AuthorizationGrant)
      (isolated : Bool) (now : ℤ) : Type 0 where
    pub directory : system.is_dir cwd ≡ true
    pub not_blocked : is_blocked d.classification ≡ false
    pub runner : is_compute d.classification ≡ true → isolated ≡ true
    pub granted :
        (d.allowed_without_grant ≡ true)
        ⊎ ((g : AuthorizationGrant) × (grant ≡ some g) × Grants g d cwd now)

  refused_date :
      (g : AuthorizationGrant) (d : CommandDecision) (cwd : String) (now : ℤ)
      (o : Option (Option ℤ))
      → system.date g.expires_at ≡ o
      → grant_refusal system g d cwd now ≡ none
      → (t : ℤ) × (o ≡ some (some t))
  unfolding grant_refusal
  refused_date g d cwd now none e h = absurd (ground arith)
  refused_date g d cwd now (some none) e h = absurd (ground arith)
  refused_date g d cwd now (some (some t)) e h = (t, refl)

  -- A grant that is not refused has not expired, is for the directory, names the class of the command
  -- and has a prefix of its arguments.
  pub grant_refusal-Grants :
      (g : AuthorizationGrant) (d : CommandDecision) (cwd : String) (now : ℤ)
      → grant_refusal system g d cwd now ≡ none
      → Grants g d cwd now
  unfolding grant_refusal prefix_allowed
  grant_refusal-Grants g d cwd now h =
      let (t, date) = refused_date g d cwd now (system.date g.expires_at) refl h in
      record {
        unexpired = (t, date, ground arith);
        on_target = ground (arith, eq_iff (system.resolve g.target) (system.resolve cwd));
        of_class = ground arith;
        prefixed = prefixes_have d.argv g.allowed_prefixes (ground arith);
      }

  -- A guard that raises leaves the state as it is, and one that passes has found its condition false.
  past_guard :
      {S A : Type 0} (c : Bool) (e : PyError) (m : Method S A) (s : S) (P : S → Type 0)
      → P s
      → (c ≡ false → P (m s).1)
      → P ((raise_if c e >> m) s).1
  past_guard true e m s P p h = p
  past_guard false e m s P p h = h refl

  past_refusal :
      {S A : Type 0} (g : AuthorizationGrant) (d : CommandDecision) (cwd : String) (now : ℤ)
      (m : Method S A) (s : S) (P : S → Type 0) (o : Option String)
      → grant_refusal system g d cwd now ≡ o
      → P s
      → (Grants g d cwd now → P (m s).1)
      → P
          (((elim o [
            | none ↦ pure tt
            | some reason ↦ λ (z : S). (err (permission_error reason), z)
          ])
              >> m)
            s).1
  past_refusal g d cwd now m s P none e p h = h (grant_refusal-Grants g d cwd now e)
  past_refusal g d cwd now m s P (some reason) e p h = p

  past_grant :
      {S A : Type 0} (grant : Option AuthorizationGrant) (d : CommandDecision) (cwd : String)
      (now : ℤ) (m : Method S A) (s : S) (P : S → Type 0) (allowed : Bool)
      → d.allowed_without_grant ≡ allowed
      → P s
      → ((d.allowed_without_grant ≡ true)
            ⊎ ((g : AuthorizationGrant) × (grant ≡ some g) × Grants g d cwd now)
          → P (m s).1)
      → P ((check_grant system grant d cwd now >> m) s).1
  unfolding check_grant
  past_grant grant d cwd now m s P true e p h = rw e (h (inl e))
  past_grant none d cwd now m s P false e p h = rw e p
  past_grant (some g) d cwd now m s P false e p h = rw e (
      past_refusal g d cwd now m s P (grant_refusal system g d cwd now) refl p
        (λ x. h (inr (g, refl, x))))

  -- What a decision leaves: nothing started, or its authorised command started.
  pub data Started (d : CommandDecision) (cwd : String) (grant : Option AuthorizationGrant)
      (isolated : Bool) (now : ℤ) (before after : List (List String × String)) : Type 0 where
    nothing : after ≡ before → Started d cwd grant isolated now before after
    authorised :
        after ≡ (d.argv, cwd) ∷ before
        → IsAuthorised d cwd grant isolated now
        → Started d cwd grant isolated now before after

  run_decision-Started :
      (d : CommandDecision) (cwd : String) (grant : Option AuthorizationGrant) (isolated : Bool)
      (now : ℤ) (runs : List (List String × String))
      → Started d cwd grant isolated now runs (run_decision system d cwd grant isolated now runs).1
  unfolding run_decision run_process
  run_decision-Started d cwd grant isolated now runs =
      let P : List (List String × String) → Type 0 =
        λ after. Started d cwd grant isolated now runs after in
      let granted_run : Method (List (List String × String)) Process =
        check_grant system grant d cwd now >> run_process system d.argv cwd in
      let isolated_run : Method (List (List String × String)) Process =
        raise_if (is_compute d.classification && not isolated)
          (permission_error "COMPUTE requires isolated runner")
        >> granted_run in
      let allowed_run : Method (List (List String × String)) Process =
        raise_if (is_blocked d.classification) (permission_error d.reason) >> isolated_run in
      past_guard (not (system.is_dir cwd)) (runtime_error "target cwd does not exist") allowed_run
        runs P (nothing refl)
        (λ e1.
          past_guard (is_blocked d.classification) (permission_error d.reason) isolated_run runs P
            (nothing refl)
            (λ e2.
              past_guard (is_compute d.classification && not isolated)
                (permission_error "COMPUTE requires isolated runner") granted_run runs P
                (nothing refl)
                (λ e3.
                  past_grant grant d cwd now (run_process system d.argv cwd) runs P
                    d.allowed_without_grant refl (nothing refl)
                    (λ g. authorised refl (record {
                      directory = ground arith;
                      not_blocked = e2;
                      runner = λ c. ground arith;
                      granted = g;
                    })))))

  parsed :
      {S : Type 0} (command : String) (s : S) (argv : List String)
      → (parse_command system command s).0 ≡ ok argv
      → system.split command ≡ some argv
  unfolding parse_command
  parsed command s argv h = ground (arith, Option-cases (system.split command))

  Keeps-parse_command :
      {S : Type 0} (P : S → Type 0) (command : String) → Keeps P (parse_command system command)
  unfolding parse_command
  Keeps-parse_command P command = search keeping depth 12

  -- What a chain leaves whose last part leaves the state alone.
  last_pure :
      {S A B : Type 0} (q : Result A × S) (f : A → B) (s : S)
      → (((λ (z : S). q) >>= λ a. pure (f a)) s).1 ≡ q.1
  last_pure (ok a, t) f s = refl
  last_pure (err e, t) f s = refl

  -- What `execute` leaves, by the result of the parsing.
  after_parsing :
      {B : Type 0} (command cwd : String) (grant : Option AuthorizationGrant) (isolated : Bool)
      (now : ℤ) (result : List String → Process → B) (runs : List (List String × String))
      (q : Result (List String) × List (List String × String))
      → q.1 ≡ runs
      → ((argv : List String) → q.0 ≡ ok argv → system.split command ≡ some argv)
      → let after =
          (((λ (z : List (List String × String)). q) >>= λ argv.
          (run_decision system (classify system argv) (system.resolve cwd) grant isolated now
            >>= λ proc. pure (result argv proc)))
            runs).1 in
        (after ≡ runs)
        ⊎ ((argv : List String) × (system.split command ≡ some argv)
            × Started (classify system argv) (system.resolve cwd) grant isolated now runs after)
  after_parsing command cwd grant isolated now result runs (err e, t) same split = inl same
  after_parsing command cwd grant isolated now result runs (ok argv, t) same split =
      let d = classify system argv in
      let ran = run_decision system d (system.resolve cwd) grant isolated now t in
      inr (
        argv,
        split argv refl,
        subst (λ x. Started d (system.resolve cwd) grant isolated now runs x)
            (sym (last_pure ran (result argv) t))
            (subst (λ x. Started d (system.resolve cwd) grant isolated now x ran.1) same
              (run_decision-Started d (system.resolve cwd) grant isolated now t)),
      )

  -- What `execute` starts: nothing, or the arguments that the command splits into, once, in the
  -- resolved directory, and then the directory exists, their class is not BLOCKED, COMPUTE has an
  -- isolated runner, and the class needs no grant or the grant is one that has not expired, is for
  -- that directory, names the class and has a prefix of the arguments.
  pub execute-Started :
      (command cwd : String) (grant : Option AuthorizationGrant) (id : Option String)
      (isolated : Bool) (now : ℤ) (started finished fresh hex : String)
      (runs : List (List String × String))
      → ((execute system command cwd grant id isolated now started finished fresh hex runs).1
          ≡ runs)
        ⊎ ((argv : List String) × (system.split command ≡ some argv)
            × Started
                (classify system argv)
                (system.resolve cwd)
                grant
                isolated
                now
                runs
                (execute system command cwd grant id isolated now started finished fresh hex
                  runs).1)
  unfolding execute
  execute-Started command cwd grant id isolated now started finished fresh hex runs =
      after_parsing command cwd grant isolated now
        (λ argv proc. (
          new_receipt system hex (operation_id_of system id grant fresh) (system.resolve cwd)
              (classify system argv) started finished proc,
          proc,
        ))
        runs (parse_command system command runs)
        ((Keeps-parse_command (λ x. x ≡ runs) command).at runs refl)
        (λ argv h. parsed command runs argv h)

  hard_blocked :
      (exe : String) (rest : List String)
      → contains (system.name exe) blocked_commands ≡ true
      → is_blocked (classify system (exe ∷ rest)).classification ≡ true
  unfolding classify classify_named
  hard_blocked exe rest h = rw h refl

  left_by :
      (exe : String) (rest argv : List String) (cwd : String) (grant : Option AuthorizationGrant)
      (isolated : Bool) (now : ℤ) (runs after : List (List String × String))
      → contains (system.name exe) blocked_commands ≡ true
      → exe ∷ rest ≡ argv
      → Started (classify system argv) cwd grant isolated now runs after
      → after ≡ runs
  left_by exe rest argv cwd grant isolated now runs after b e (nothing same) = same
  left_by exe rest argv cwd grant isolated now runs after b e (authorised _ a) = absurd (
      both _ a.not_blocked (
        subst (λ x. is_blocked (classify system x).classification ≡ true) e
          (hard_blocked exe rest b)))
    where
      both : (c : Bool) → c ≡ false → c ≡ true → ⊥
      both c p q = ground arith

  -- A command whose executable has the name of a blocked command is never started, whatever grant
  -- comes with it and whatever runner there is.
  pub blocked_never_starts :
      (command exe : String) (rest : List String) (cwd : String) (grant : Option AuthorizationGrant)
      (id : Option String) (isolated : Bool) (now : ℤ) (started finished fresh hex : String)
      (runs : List (List String × String))
      → system.split command ≡ some (exe ∷ rest)
      → contains (system.name exe) blocked_commands ≡ true
      → (execute system command cwd grant id isolated now started finished fresh hex runs).1 ≡ runs
  blocked_never_starts command exe rest cwd grant id isolated now started finished fresh hex runs
        split b =
      elim (execute-Started command cwd grant id isolated now started finished fresh hex runs) [
        | inl same ↦ same
        | inr one ↦
            left_by exe rest one.0 (system.resolve cwd) grant isolated now runs _ b
              (same_list (exe ∷ rest) one.0 (sym split ∙ one.1)) one.2
      ]
    where
      same_list : (xs ys : List String) → some xs ≡ some ys → xs ≡ ys
      same_list xs ys e = cc
