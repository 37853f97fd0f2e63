-- ===== src/Bridge/Once.antt =====
-- A request is executed once: the nonce ledger over any calls of `execute_signed`
-- (src/voodoo_skillset/executor_bridge.py).
use voodoo_skillset.Prelude.{
  true, false, List, ◌≡◌, ◌≢◌, sym, ap, ◌∙◌, subst, arith, ℤ, ◌≤ℤ◌, All, Bool, inl, inr,
}
use voodoo_skillset.Json.{Fields}
use voodoo_skillset.Python.{ok, ok-injective}
use voodoo_skillset.Platform.{Platform}
use voodoo_skillset.Bridge.Request.{ExecutionRequest, from_dict}
use voodoo_skillset.Bridge.Replay.{is_guarded, claim_refused, claim_guards}
use voodoo_skillset.Bridge.Service.{Serving, ExecutorService}
use voodoo_skillset.Bridge.Served.{execute_signed-Served}
use voodoo_skillset.Bridge.Claims.{
  Call, answer, serve, ReadsAs, Guarded, Claimed, serve_keeps, claims_answer,
}

module _ (env : Platform) (service : ExecutorService) where
  same_request :
      (value : Fields) (req other : ExecutionRequest) (s : Serving)
      → ReadsAs env service value req
      → from_dict env value s ≡ (ok other, s)
      → other ≡ req
  same_request value req other s reads h = ok-injective (ap (λ q. q.0) (sym h ∙ reads s))

  Claimed-guards :
      (c : Call) (req : ExecutionRequest) (s after : Serving)
      → ReadsAs env service c.value req
      → Claimed env service c s after
      → Guarded env service req.nonce req.expires_at after
  Claimed-guards c req s after reads h =
      subst (λ (r : ExecutionRequest). Guarded env service r.nonce r.expires_at after)
        (same_request c.value req h.request s reads h.read)
        (subst (λ n. is_guarded h.request.nonce h.request.expires_at n ≡ true) (sym h.ledger)
          (claim_guards h.request.nonce h.request.expires_at c.claimed_at s.nonces h.accepted))

  Guarded-refuses :
      (c : Call) (req : ExecutionRequest) (until : ℤ) (s after : Serving)
      → ReadsAs env service c.value req
      → c.claimed_at ≤ℤ until
      → Guarded env service req.nonce until s
      → ¬ Claimed env service c s after
  Guarded-refuses c req until s after reads time g h =
      let refused =
        claim_refused h.request.nonce until h.request.expires_at c.claimed_at s.nonces time (
          subst (λ (r : ExecutionRequest). Guarded env service r.nonce until s)
            (sym (same_request c.value req h.request s reads h.read)) g) in
      contradiction _ refused h.accepted
    where
      contradiction : (b : Bool) → b ≡ false → b ≡ true → ⊥
      contradiction b e f = ground arith

  response-Claimed :
      (c : Call) (s : Serving) (response : Fields)
      → (answer env service c s).0 ≡ ok response
      → Claimed env service c s (answer env service c s).1
  response-Claimed c s response h =
      let served =
        (execute_signed-Served env service c.value c.signature c.now c.claimed_at c.issued_at s
          response h).executed in
      record {
        request = served.request;
        read = served.read;
        accepted = served.accepted;
        ledger = ap (λ (x : Serving). x.nonces) served.left;
      }

  -- Once the adapter has been called for a request, whether it returned or raised, no later call that
  -- reads as a request with the same nonce calls the adapter, changes the ledger or returns a response,
  -- whatever was called in between, as long as no call reads the clock at the ledger after the first
  -- request's expires_at.
  pub executed_once :
      (first : Call) (s : Serving) (req : ExecutionRequest)
      → ReadsAs env service first.value req
      → (answer env service first s).1.runs ≢ s.runs
      → (between : List Call) → All (λ c. c.claimed_at ≤ℤ req.expires_at) between
      → (again : Call) (other : ExecutionRequest) (response : Fields)
      → ReadsAs env service again.value other
      → other.nonce ≡ req.nonce
      → again.claimed_at ≤ℤ req.expires_at
      → let later = serve env service between (answer env service first s).1 in
        ((answer env service again later).1 ≡ later)
        × ((answer env service again later).0 ≢ ok response)
  executed_once first s req reads ran between times again other response reads' same time =
      let later = serve env service between (answer env service first s).1 in
      let never : (after : Serving) → ¬ Claimed env service again later after = λ after.
        Guarded-refuses again other req.expires_at later after reads' time (
          subst (λ n. Guarded env service n req.expires_at later) (sym same)
            (serve_keeps env service req.nonce req.expires_at between (answer env service first s).1
              times
              (elim (claims_answer env service first s) [
                | inl still ↦ absurd (ran (ap (λ (x : Serving). x.runs) still))
                | inr done ↦ Claimed-guards first req s (answer env service first s).1 reads done
              ]))) in
      (
        elim (claims_answer env service again later) [
          | inl still ↦ still
          | inr done ↦ absurd (never (answer env service again later).1 done)
        ],
        λ h. never (answer env service again later).1 (response-Claimed again later response h),
      )
