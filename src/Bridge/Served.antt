-- ===== src/Bridge/Served.antt =====
-- What a response of `execute_signed` stands for (src/voodoo_skillset/executor_bridge.py).
use voodoo_skillset.Prelude.{
  String, Bool, true, false, not, ◌∷◌, ◌≡◌, refl, sym, ap, ◌∙◌, subst, arith, ℤ,
}
use voodoo_skillset.Json.{Fields}
use voodoo_skillset.Python.{
  Result, ok, err, Method, pure, raise_if, ok-injective, ◌>>=◌, ◌>>◌, auth_error,
}
use voodoo_skillset.Python.Keeping.{bound, passed_if, Keeps}
use voodoo_skillset.Platform.{Platform}
use voodoo_skillset.Bridge.Request.{ExecutionRequest, lift, from_dict, validate}
use voodoo_skillset.Bridge.Request.Laws.{IsPermitted, validate-IsPermitted}
use voodoo_skillset.Bridge.Signing.{verify_signature}
use voodoo_skillset.Bridge.Replay.{claim}
use voodoo_skillset.Bridge.Service.{
  Serving, ExecutorService, run_of, workspace, claim_nonce, new_receipt, run_adapter,
  execute_request, signed, execute_signed,
}
use voodoo_skillset.Bridge.Keeping.{Keeps-from_dict, Keeps-validate, Keeps-workspace}

module _ (env : Platform) (service : ExecutorService) where
  -- What follows each method of the chain.
  abbrev pub after_adapter : ExecutionRequest → Fields → ℤ → Fields → Method Serving Fields
  after_adapter req value issued_at result =
      pure (new_receipt env service req value result issued_at)

  abbrev pub after_workspace : ExecutionRequest → Fields → ℤ → String → Method Serving Fields
  after_workspace req value issued_at target =
      run_adapter env service req target >>= after_adapter req value issued_at

  abbrev pub after_claim : ExecutionRequest → Fields → ℤ → Bool → Method Serving Fields
  after_claim req value issued_at accepted =
      raise_if (not accepted) (auth_error "request replay detected")
      >> (workspace env service req.workspace_id >>= after_workspace req value issued_at)

  abbrev pub after_validation : ExecutionRequest → Fields → ℤ → ℤ → Unit {0} → Method Serving Fields
  after_validation req value claimed_at issued_at _ =
      claim_nonce env service req.nonce req.expires_at claimed_at
      >>= after_claim req value issued_at

  abbrev pub after_reading : Fields → ℤ → ℤ → ℤ → ExecutionRequest → Method Serving Fields
  after_reading value now claimed_at issued_at req =
      validate env req now >>= after_validation req value claimed_at issued_at

  abbrev pub after_execution : Fields → Method Serving Fields
  after_execution receipt = pure (signed env service receipt)

  abbrev pub after_guard : Fields → ℤ → ℤ → ℤ → Unit {0} → Method Serving Fields
  after_guard value now claimed_at issued_at _ =
      execute_request env service value now claimed_at issued_at >>= after_execution

  abbrev pub after_signature : Fields → ℤ → ℤ → ℤ → Bool → Method Serving Fields
  after_signature value now claimed_at issued_at valid =
      raise_if (not valid) (auth_error "request signature invalid")
      >>= after_guard value now claimed_at issued_at

  -- The state after a claim that the ledger accepts.
  abbrev pub claimed : ExecutionRequest → ℤ → Serving → Serving
  claimed req claimed_at s = record s {
    nonces = (claim req.nonce req.expires_at claimed_at s.nonces).1;
  }

  -- A request that was executed: what it was, where it ran, what the adapter returned, and the state
  -- after it, with the nonce claimed and the one call that the adapter was given.
  pub record Executed (value : Fields) (now claimed_at issued_at : ℤ) (rows after : Serving)
      (receipt : Fields) : Type 0 where
    pub request : ExecutionRequest
    pub read : from_dict env value rows ≡ (ok request, rows)
    pub permitted : IsPermitted env request now
    pub accepted : (claim request.nonce request.expires_at claimed_at rows.nonces).0 ≡ true
    pub target : String
    pub placed :
        workspace env service request.workspace_id (claimed request claimed_at rows)
        ≡ (ok target, claimed request claimed_at rows)
    pub left : after ≡ record (claimed request claimed_at rows) {
      runs = run_of env service request target ∷ rows.runs;
    }
    pub result : Fields
    pub result_of :
        let run = run_of env service request target in
        service.execute run.capability_id run.payload run.envelope ≡ ok result
    pub receipt_of : receipt ≡ new_receipt env service request value result issued_at

  left_alone :
      {S A : Type 0} (m : Method S A) (s t : S) (r : Result A)
      → Keeps (λ x. x ≡ s) m
      → m s ≡ (r, t)
      → t ≡ s
  left_alone m s t r k e = sym (ap (λ q. q.1) e) ∙ k.at s refl

  -- What a chain behind the claim has done where it returns.
  record Done (req : ExecutionRequest) (value : Fields) (issued_at : ℤ) (b : Bool)
      (s after : Serving) (receipt : Fields) : Type 0 where
    passed : b ≡ true
    target : String
    placed : workspace env service req.workspace_id s ≡ (ok target, s)
    left : after ≡ record s { runs = run_of env service req target ∷ s.runs }
    result : Fields
    result_of :
        let run = run_of env service req target in
        service.execute run.capability_id run.payload run.envelope ≡ ok result
    receipt_of : receipt ≡ new_receipt env service req value result issued_at

  after_claim-Done :
      (req : ExecutionRequest) (value : Fields) (issued_at : ℤ) (b : Bool) (s : Serving)
      (receipt : Fields)
      → (after_claim req value issued_at b s).0 ≡ ok receipt
      → Done req value issued_at b s (after_claim req value issued_at b s).1 receipt
  unfolding run_adapter
  after_claim-Done req value issued_at false s receipt_ h = absurd (ground arith)
  after_claim-Done req value issued_at true s receipt_ h =
      let at_workspace =
        bound (workspace env service req.workspace_id) (after_workspace req value issued_at) s
          receipt_ h in
      let same =
        left_alone (workspace env service req.workspace_id) s at_workspace.state
          (ok at_workspace.value) (Keeps-workspace _ env service req.workspace_id)
          at_workspace.first in
      let at_adapter =
        bound (run_adapter env service req at_workspace.value) (after_adapter req value issued_at)
          at_workspace.state receipt_ at_workspace.then_ok in
      let ran = sym (ap (λ q. q.1) at_adapter.first) in
      record {
        passed = refl;
        target = at_workspace.value;
        placed =
            subst (λ x. workspace env service req.workspace_id s ≡ (ok at_workspace.value, x)) same
              at_workspace.first;
        left =
            ap (λ q. q.1) (at_workspace.result ∙ at_adapter.result)
            ∙ ran
            ∙ ap
                (λ (x : Serving). record x {
                  runs = run_of env service req at_workspace.value ∷ x.runs;
                })
                same;
        result = at_adapter.value;
        result_of = ap (λ q. q.0) at_adapter.first;
        receipt_of = ok-injective (sym at_adapter.then_ok);
      }

  claim_of :
      (req : ExecutionRequest) (now : ℤ) (s t : Serving) (b : Bool)
      → claim_nonce env service req.nonce req.expires_at now s ≡ (ok b, t)
      → ((claim req.nonce req.expires_at now s.nonces).0 ≡ b) × (t ≡ claimed req now s)
  unfolding claim_nonce
  claim_of req now s t b e = (ok-injective (ap (λ q. q.0) e), sym (ap (λ q. q.1) e))

  execute_request-Executed :
      (value : Fields) (now claimed_at issued_at : ℤ) (rows : Serving) (receipt : Fields)
      → (execute_request env service value now claimed_at issued_at rows).0 ≡ ok receipt
      → Executed value now claimed_at issued_at rows
          (execute_request env service value now claimed_at issued_at rows).1
          receipt
  unfolding execute_request
  execute_request-Executed value now claimed_at issued_at rows receipt_ h =
      let reading =
        bound (from_dict env value) (after_reading value now claimed_at issued_at) rows receipt_
          h in
      let req = reading.value in
      let same_1 =
        left_alone (from_dict env value) rows reading.state (ok req) (Keeps-from_dict _ env value)
          reading.first in
      let checking =
        bound (validate env req now) (after_validation req value claimed_at issued_at) reading.state
          receipt_ reading.then_ok in
      let same_2 =
        left_alone (validate env req now) reading.state checking.state (ok tt)
          (Keeps-validate _ env req now) checking.first in
      let claiming =
        bound (claim_nonce env service req.nonce req.expires_at claimed_at)
          (after_claim req value issued_at) checking.state receipt_ checking.then_ok in
      let (took, left) =
        claim_of req claimed_at checking.state claiming.state claiming.value claiming.first in
      let done =
        after_claim-Done req value issued_at claiming.value claiming.state receipt_
          claiming.then_ok in
      let back = same_2 ∙ same_1 in
      let since = left ∙ ap (claimed req claimed_at) back in
      record {
        request = req;
        read = subst (λ x. from_dict env value rows ≡ (ok req, x)) same_1 reading.first;
        permitted = validate-IsPermitted env req now reading.state (ap (λ q. q.0) checking.first);
        accepted =
            subst (λ (x : Serving). (claim req.nonce req.expires_at claimed_at x.nonces).0 ≡ true)
              back (took ∙ done.passed);
        target = done.target;
        placed =
            subst (λ x. workspace env service req.workspace_id x ≡ (ok done.target, x)) since
              done.placed;
        left =
            ap (λ q. q.1) (reading.result ∙ checking.result ∙ claiming.result)
            ∙ done.left
            ∙ ap (λ (x : Serving). record x { runs = run_of env service req done.target ∷ x.runs })
                since;
        result = done.result;
        result_of = done.result_of;
        receipt_of = done.receipt_of;
      }

  -- What `execute_signed` has returned a response for.
  pub record Served (value : Fields) (signature : String) (now claimed_at issued_at : ℤ)
      (rows after : Serving) (response : Fields) : Type 0 where
    pub genuine : verify_signature env value signature service.shared_secret ≡ ok true
    pub receipt : Fields
    pub executed : Executed value now claimed_at issued_at rows after receipt
    pub response_of : response ≡ signed env service receipt

  lift_of :
      {S A : Type 0} (r : Result A) (s t : S) (a : A) → lift r s ≡ (ok a, t) → (r ≡ ok a) × (t ≡ s)
  unfolding lift
  lift_of (ok b) s t a h = (ap (λ q. q.0) h, sym (ap (λ q. q.1) h))
  lift_of (err e) s t a h = absurd (ground arith)

  -- A response is returned only for a request with a genuine signature, which reads as a request that
  -- is permitted at that time and whose nonce the ledger accepts. Its receipt names the operation, the
  -- plan and the hash of the request and holds what the adapter returned, and comes with its signature;
  -- the state is that of the claim, with one more call of the adapter, in the request's workspace.
  pub execute_signed-Served :
      (value : Fields) (signature : String) (now claimed_at issued_at : ℤ) (rows : Serving)
      (response : Fields)
      → (execute_signed env service value signature now claimed_at issued_at rows).0 ≡ ok response
      → Served value signature now claimed_at issued_at rows
          (execute_signed env service value signature now claimed_at issued_at rows).1
          response
  unfolding execute_signed
  execute_signed-Served value signature now claimed_at issued_at rows response h =
      let opening =
        bound (lift (verify_signature env value signature service.shared_secret))
          (after_signature value now claimed_at issued_at) rows response h in
      let (checked, same) =
        lift_of (verify_signature env value signature service.shared_secret) rows opening.state
          opening.value opening.first in
      let guarding =
        bound (raise_if (not opening.value) (auth_error "request signature invalid"))
          (after_guard value now claimed_at issued_at) opening.state response opening.then_ok in
      let (valid, same_) =
        passed_if (not opening.value) (auth_error "request signature invalid") opening.state
          guarding.state guarding.first in
      let running =
        bound (execute_request env service value now claimed_at issued_at) (after_execution)
          guarding.state response guarding.then_ok in
      let back = same_ ∙ same in
      record {
        genuine = checked ∙ ap ok (ground arith);
        receipt = running.value;
        executed =
            subst (λ x. Executed value now claimed_at issued_at rows x running.value)
              (sym (
                ap (λ q. q.1) (opening.result ∙ guarding.result ∙ running.result)
                ∙ sym (ap (λ q. q.1) running.first)
                ∙ ap (λ x. (execute_request env service value now claimed_at issued_at x).1) back))
              (execute_request-Executed value now claimed_at issued_at rows running.value (
                subst
                  (λ x.
                    (execute_request env service value now claimed_at issued_at x).0
                    ≡ ok running.value)
                  back (ap (λ q. q.0) running.first)));
        response_of = sym (ok-injective running.then_ok);
      }
