-- ===== src/Bridge/Claims.antt =====
-- What a call of `execute_signed` does to the nonce ledger (src/voodoo_skillset/executor_bridge.py): it
-- leaves the state alone, or it has claimed the nonce of its request.
use voodoo_skillset.Prelude.{
  String, true, false, not, List, [], ◌∷◌, ◌≡◌, refl, sym, ap, ◌∙◌, subst, arith, ℤ, ◌≤ℤ◌, All, ◌⊎◌,
  Bool, inl, inr, Bool-cases,
}
use voodoo_skillset.Json.{Fields}
use voodoo_skillset.Python.{Result, ok, err, Method, pure, raise_if, auth_error, ◌>>=◌}
use voodoo_skillset.Python.Keeping.{Keeps, Keeps-raise_if, keeping}
use voodoo_skillset.Platform.{Platform}
use voodoo_skillset.Bridge.Request.{ExecutionRequest, from_dict, lift, validate}
use voodoo_skillset.Bridge.Signing.{verify_signature}
use voodoo_skillset.Bridge.Replay.{Nonces, claim, is_guarded, is_guarded-claim}
use voodoo_skillset.Bridge.Service.{
  Serving, ExecutorService, claim_nonce, run_adapter, signed, execute_request, execute_signed,
}
use voodoo_skillset.Bridge.Keeping.{Keeps-lift, Keeps-from_dict, Keeps-validate, Keeps-workspace}
use voodoo_skillset.Bridge.Served.{
  claimed, after_claim, after_validation, after_reading, after_guard, after_signature,
}

-- One call of `execute_signed`, with its three readings of the clock.
pub record Call : Type 0 where
  pub value : Fields
  pub signature : String
  pub now : ℤ
  pub claimed_at : ℤ
  pub issued_at : ℤ

module _ (env : Platform) (service : ExecutorService) where
  abbrev pub answer : Call → Method Serving Fields
  answer c = execute_signed env service c.value c.signature c.now c.claimed_at c.issued_at

  -- The state that calls leave, the first call first.
  unfoldable pub serve : List Call → Serving → Serving
  serve [] s = s
  serve (c ∷ cs) s = serve cs (answer c s).1

  -- The value reads as the request.
  abbrev pub ReadsAs : Fields → ExecutionRequest → Type 0
  ReadsAs value req = (s : Serving) → from_dict env value s ≡ (ok req, s)

  abbrev pub Guarded : String → ℤ → Serving → Type 0
  Guarded nonce until s = is_guarded nonce until s.nonces ≡ true

  Keeps-claim_nonce :
      (nonce other : String) (until expires_at now : ℤ)
      → now ≤ℤ until
      → Keeps (Guarded nonce until) (claim_nonce env service other expires_at now)
  unfolding claim_nonce
  Keeps-claim_nonce nonce other until expires_at now h = record {
    at = λ s g. is_guarded-claim nonce other until expires_at now s.nonces h g;
  }

  -- The adapter leaves the nonces alone.
  Keeps-run_adapter :
      (P : Nonces → Type 0) (req : ExecutionRequest) (target : String)
      → Keeps (λ (s : Serving). P s.nonces) (run_adapter env service req target)
  unfolding run_adapter
  Keeps-run_adapter P req target = record { at = λ s p. p }

  Keeps-after_claim :
      (P : Nonces → Type 0) (req : ExecutionRequest) (value : Fields) (issued_at : ℤ) (b : Bool)
      → Keeps (λ (s : Serving). P s.nonces) (after_claim env service req value issued_at b)
  Keeps-after_claim P req value issued_at b =
      search (keeping, Keeps-workspace, Keeps-run_adapter P) depth 9

  answer-Keeps :
      (nonce : String) (until : ℤ) (c : Call)
      → c.claimed_at ≤ℤ until
      → Keeps (Guarded nonce until) (answer c)
  unfolding execute_signed execute_request
  answer-Keeps nonce until c h =
      let claims : (other : String) (expires_at : ℤ)
          → Keeps (Guarded nonce until) (claim_nonce env service other expires_at c.claimed_at) =
        λ other expires_at. Keeps-claim_nonce nonce other until expires_at c.claimed_at h in
      let runs : (req : ExecutionRequest) (target : String)
          → Keeps (Guarded nonce until) (run_adapter env service req target) =
        Keeps-run_adapter (λ n. is_guarded nonce until n ≡ true) in
      search (keeping, Keeps-lift, Keeps-from_dict, Keeps-validate, Keeps-workspace, claims, runs)
        depth 12

  pub serve_keeps :
      (nonce : String) (until : ℤ) (cs : List Call) (s : Serving)
      → All (λ c. c.claimed_at ≤ℤ until) cs
      → Guarded nonce until s
      → Guarded nonce until (serve cs s)
  unfolding serve
  serve_keeps nonce until [] s h g = g
  serve_keeps nonce until (c ∷ cs) s h g =
      serve_keeps nonce until cs (answer c s).1 h.1 ((answer-Keeps nonce until c h.0).at s g)

  -- A chain whose first method leaves the state alone: it raises there, or goes on.
  record GoesOn {A B : Type 0} (m : Method Serving A) (f : A → Method Serving B) (s : Serving)
      : Type 0 where
    value : A
    first : m s ≡ (ok value, s)
    after : ((m >>= f) s).1 ≡ (f value s).1

  GoesOn-from :
      {A B : Type 0} (m : Method Serving A) (f : A → Method Serving B) (s : Serving)
      (q : Result A × Serving)
      → m s ≡ q
      → q.1 ≡ s
      → (((m >>= f) s).1 ≡ s) ⊎ GoesOn m f s
  GoesOn-from m f s (ok a, t) e same = inr (record {
    value = a;
    first = e ∙ ap (λ x. (ok a, x)) same;
    after =
        subst (λ x. (((λ (z : Serving). x) >>= f) s).1 ≡ (f a s).1) (sym e)
          (ap (λ x. (f a x).1) same);
  })
  GoesOn-from m f s (err e', t) e same =
      inl (subst (λ x. (((λ (z : Serving). x) >>= f) s).1 ≡ s) (sym e) same)

  goes_on :
      {A B : Type 0} (m : Method Serving A) (f : A → Method Serving B) (s : Serving)
      → Keeps (λ x. x ≡ s) m
      → (((m >>= f) s).1 ≡ s) ⊎ GoesOn m f s
  goes_on m f s k = GoesOn-from m f s (m s) refl (k.at s refl)

  -- A call that has claimed the nonce of its request.
  pub record Claimed (c : Call) (s after : Serving) : Type 0 where
    pub request : ExecutionRequest
    pub read : from_dict env c.value s ≡ (ok request, s)
    pub accepted : (claim request.nonce request.expires_at c.claimed_at s.nonces).0 ≡ true
    pub ledger : after.nonces ≡ (claim request.nonce request.expires_at c.claimed_at s.nonces).1

  refused_claim :
      (nonce : String) (expires_at now : ℤ) (rows : Nonces)
      → (claim nonce expires_at now rows).0 ≡ false
      → (claim nonce expires_at now rows).1 ≡ rows
  unfolding claim
  refused_claim nonce expires_at now rows h = ground arith

  claims_or_not :
      (c : Call) (req : ExecutionRequest) (s : Serving)
      → from_dict env c.value s ≡ (ok req, s)
      → let run = after_validation env service req c.value c.claimed_at c.issued_at tt s in
        (run.1 ≡ s) ⊎ Claimed c s run.1
  unfolding claim_nonce
  claims_or_not c req s e =
      elim (Bool-cases (claim req.nonce req.expires_at c.claimed_at s.nonces).0) [
        | inl accepted ↦ inr (record {
          request = req;
          read = e;
          accepted = accepted;
          ledger =
              (Keeps-after_claim (λ n. n ≡ (claim req.nonce req.expires_at c.claimed_at s.nonces).1)
                  req c.value c.issued_at
                  (claim req.nonce req.expires_at c.claimed_at s.nonces).0).at
                (claimed env service req c.claimed_at s) refl;
        })
        | inr refused ↦ inl (
            ap
              (λ b.
                (after_claim env service req c.value c.issued_at b
                  (claimed env service req c.claimed_at s)).1)
              refused
            ∙ ap (λ (n : Nonces). record s { nonces = n })
                (refused_claim req.nonce req.expires_at c.claimed_at s.nonces refused))
      ]

  claims_request :
      (c : Call) (s : Serving)
      → let run = execute_request env service c.value c.now c.claimed_at c.issued_at s in
        (run.1 ≡ s) ⊎ Claimed c s run.1
  unfolding execute_request
  claims_request c s =
      elim (goes_on (from_dict env c.value)
        (after_reading env service c.value c.now c.claimed_at c.issued_at) s
        (Keeps-from_dict _ env c.value)) [
          | inl e ↦ inl e
          | inr read ↦
              elim (goes_on (validate env read.value c.now)
                (after_validation env service read.value c.value c.claimed_at c.issued_at) s
                (Keeps-validate _ env read.value c.now)) [
                  | inl e ↦ inl (read.after ∙ e)
                  | inr valid ↦ elim (claims_or_not c read.value s read.first) [
                    | inl e ↦ inl (read.after ∙ valid.after ∙ e)
                    | inr done ↦ inr (subst (Claimed c s) (sym (read.after ∙ valid.after)) done)
                  ]
                ]
        ]

  returned_state :
      {A B : Type 0} (m : Method Serving A) (g : A → B) (s : Serving)
      → ((m >>= λ a. pure (g a)) s).1 ≡ (m s).1
  returned_state {A = A} m g s = of (m s)
    where
      of : (q : Result A × Serving) → (((λ (z : Serving). q) >>= λ a. pure (g a)) s).1 ≡ q.1
      of (ok a, t) = refl
      of (err e, t) = refl

  -- A call leaves the state alone, or has claimed the nonce of its request.
  pub claims_answer : (c : Call) (s : Serving) → ((answer c s).1 ≡ s) ⊎ Claimed c s (answer c s).1
  unfolding execute_signed
  claims_answer c s =
      let verdict = verify_signature env c.value c.signature service.shared_secret in
      elim (goes_on (lift verdict)
        (after_signature env service c.value c.now c.claimed_at c.issued_at) s
        (Keeps-lift _ verdict)) [
          | inl e ↦ inl e
          | inr checked ↦
              elim (goes_on (raise_if (not checked.value) (auth_error "request signature invalid"))
                (after_guard env service c.value c.now c.claimed_at c.issued_at) s
                (Keeps-raise_if _ (not checked.value) (auth_error "request signature invalid"))) [
                  | inl e ↦ inl (checked.after ∙ e)
                  | inr guarded ↦
                      let same =
                        checked.after
                        ∙ guarded.after
                        ∙ returned_state
                            (execute_request env service c.value c.now c.claimed_at c.issued_at)
                            (signed env service) s in
                      elim (claims_request c s) [
                        | inl e ↦ inl (same ∙ e)
                        | inr done ↦ inr (subst (Claimed c s) (sym same) done)
                      ]
                ]
        ]
