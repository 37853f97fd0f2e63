-- ===== src/Bridge/Trust.antt =====
-- What `RemoteExecutorClient.execute` accepts, and that it accepts what a service with its secret
-- answers (src/voodoo_skillset/executor_bridge.py).
use voodoo_skillset.Prelude.{
  String, Bool, true, false, Option, some, [], ◌∷◌, ◌≡◌, refl, sym, ap, ◌∙◌, subst, ℤ, pos, ltb,
  ltb_ℤ, starts_with-append, eq_refl, is_ascii,
}
use Prim.Native.String.{◌++◌, len}
use voodoo_skillset.Json.{Fields, text, bool, object, dict, get}
use voodoo_skillset.Python.{Result, ok, err, Method, ok-injective}
use voodoo_skillset.Python.Running.{Runs, Runs-bind}
use voodoo_skillset.Platform.{Platform}
use voodoo_skillset.Bridge.Request.{ExecutionRequest, to_dict, lift}
use voodoo_skillset.Bridge.Request.Laws.{from_dict-to_dict}
use voodoo_skillset.Bridge.Signing.{
  payload_sha256, sign_payload, signature_of, verify_signature, secret_bytes, compare_digest,
}
use voodoo_skillset.Bridge.Service.{
  Serving, ExecutorService, execute_signed, signed, new_receipt, respond, post_value, post_sized,
  do_post,
}
use voodoo_skillset.Bridge.Client.{
  HttpResponse, execute, post_request, open_body, open_response, check_receipt,
}
use voodoo_skillset.Bridge.Served.{execute_signed-Served}

signs :
    (env : Platform) (value : Fields) (secret : String)
    → secret_bytes secret ≡ ok secret
    → sign_payload env value secret ≡ ok (signature_of env value secret)
unfolding sign_payload
signs env value secret long = rw (long, sign_payload) refl

signed_verifies :
    (env : Platform) (value : Fields) (secret : String)
    → secret_bytes secret ≡ ok secret
    → is_ascii (signature_of env value secret) ≡ true
    → verify_signature env value (signature_of env value secret) secret ≡ ok true
unfolding verify_signature sign_payload signature_of compare_digest
signed_verifies env value secret long ascii =
    let digest = env.hmac_sha256 secret (env.dumps value) in
    let verdict : Bool → Result Bool = λ b. elim b [
      | false ↦ ok false
      | true ↦ elim (sign_payload env value secret) [
        | ok expected ↦ compare_digest expected ("v1=" ++ digest)
        | err e ↦ err e
      ]
    ] in
    subst (λ b. verdict b ≡ ok true) (sym (starts_with-append "v1=" digest))
      (rw (long, ascii, eq_refl ("v1=" ++ digest)) refl)

module _ (env : Platform) (service : ExecutorService) (now claimed_at issued_at : ℤ)
    (length_text : Fields → String) (encode : Fields → String) where
  -- The exchange with a service whose handler answers at once: `length_text` is the Content-Length of a
  -- request and `encode` writes the JSON text of a response.
  unfoldable pub served_by : String → Fields → String → Method Serving (Option HttpResponse)
  served_by path payload signature s =
      let (response, after) =
        do_post env service path (length_text payload) (λ n. env.dumps payload) signature now
          claimed_at issued_at s in
      (ok (some (record { status = response.0; body = encode response.1 })), after)

  -- The result of an accepted receipt.
  abbrev pub accepted : Fields → Fields
  accepted receipt = dict (
      ("receipt", object receipt)
      ∷ ("receipt_signature_verified", bool true)
      ∷ ("independent_verification", text "PENDING")
      ∷ [])

  -- The text of a request is read back as the request, and its size is admitted.
  abbrev pub Arrives : Fields → Type 0
  Arrives value =
      (size : ℤ) × (env.parse_int (length_text value) ≡ some size)
      × (ltb_ℤ size (pos 1) ≡ false)
      × (ltb_ℤ (pos 65536) size ≡ false)
      × (env.parse_json (env.dumps value) ≡ some (object value))

  -- The text of a response is read back as the response, and has 65536 bytes at most.
  abbrev pub Returns : Fields → Type 0
  Returns response =
      (ltb 65536 (len (encode response)) ≡ false)
      × (env.parse_json (encode response) ≡ some (object response))

  module _ (req : ExecutionRequest) (result : Fields) (s t : Serving)
      (long : secret_bytes service.shared_secret ≡ ok service.shared_secret)
      (ascii : (value : Fields) → is_ascii (signature_of env value service.shared_secret) ≡ true)
      (arrives : Arrives (to_dict req)) where
    abbrev receipt : Fields
    receipt = new_receipt env service req (to_dict req) result issued_at

    abbrev signature : String
    signature = signature_of env (to_dict req) service.shared_secret

    abbrev response : Fields
    response = signed env service receipt

    module _
        (answered : execute_signed env service (to_dict req) signature now claimed_at issued_at s
          ≡ (ok response, t))
        (returns : Returns response) where
      signature_runs :
          Runs (lift (sign_payload env (to_dict req) service.shared_secret)) s signature s
      unfolding lift
      signature_runs = record {
        equation = ap (λ r. lift r s) (signs env (to_dict req) service.shared_secret long);
      }

      served_runs :
          Runs
            (served_by "/v1/execute" (to_dict req) signature)
            s
            (some (record { status = 200; body = encode response }))
            t
      unfolding served_by do_post post_sized post_value respond
      served_runs = record {
        equation = rw (arrives.1, arrives.2, arrives.3, arrives.4, answered) refl;
      }

      opened_runs :
          Runs
            (open_body env served_by service.shared_secret
              (some (record { status = 200; body = encode response })))
            t
            response
            t
      unfolding open_body
      opened_runs = record { equation = rw (returns.0, returns.1) refl }

      posted_runs :
          Runs
            (post_request env served_by service.shared_secret "/v1/execute" (to_dict req))
            s
            response
            t
      unfolding post_request
      posted_runs = search (Runs-bind, signature_runs, served_runs, opened_runs) depth 6

      accepted_runs :
          Runs
            (open_response env served_by service.shared_secret req
              (to_dict req)
              (get "receipt" response)
              (get "signature" response))
            t
            (accepted receipt)
            t
      unfolding open_response check_receipt signed new_receipt lift
      accepted_runs = record {
        equation =
            rw
              (
                signed_verifies env receipt service.shared_secret long (ascii receipt),
                eq_refl req.operation_id,
                eq_refl (payload_sha256 env (to_dict req)),
              )
              refl;
      }

      execute_runs : Runs (execute env served_by service.shared_secret req) s (accepted receipt) t
      unfolding execute
      execute_runs = search (Runs-bind, posted_runs, accepted_runs) depth 4

  same_request :
      (r q : ExecutionRequest) (s : Serving)
      → (λ (x : Result ExecutionRequest × Serving). x) (ok r, s) ≡ (ok q, s)
      → r ≡ q
  same_request r q s h = ok-injective (ap (λ x. x.0) h)

  -- The client accepts what a service with its secret answers: when the service executes the request
  -- that the client sends, the client returns the service's receipt, as one with a verified signature,
  -- and the service is left as that execution leaves it; where the secret has 32 bytes, signatures are
  -- ASCII, the texts of the request and of the response are read back as what was written, and each has
  -- 65536 bytes at most.
  pub client_accepts_service :
      (req : ExecutionRequest) (s t : Serving) (response : Fields)
      → secret_bytes service.shared_secret ≡ ok service.shared_secret
      → ((value : Fields) → is_ascii (signature_of env value service.shared_secret) ≡ true)
      → Arrives (to_dict req)
      → execute_signed env service
          (to_dict req)
          (signature_of env (to_dict req) service.shared_secret)
          now
          claimed_at
          issued_at
          s
        ≡ (ok response, t)
      → Returns response
      → (receipt : Fields) × (response ≡ signed env service receipt)
        × (execute env served_by service.shared_secret req s ≡ (ok (accepted receipt), t))
  client_accepts_service req s t response_ long ascii arrives h returns =
      let signature_ = signature_of env (to_dict req) service.shared_secret in
      let a =
        execute_signed-Served env service (to_dict req) signature_ now claimed_at issued_at s
          response_ (ap (λ q. q.0) h) in
      let same =
        same_request req a.executed.request s
          (sym (from_dict-to_dict env req s) ∙ a.executed.read) in
      let made =
        a.executed.receipt_of
        ∙ ap (λ r. new_receipt env service r (to_dict req) a.executed.result issued_at)
            (sym same) in
      let whole = a.response_of ∙ ap (signed env service) made in
      (
        receipt req a.executed.result s t long ascii arrives,
        whole,
        (execute_runs req a.executed.result s t long ascii arrives
            (h ∙ ap (λ (x : Fields). (ok x, t)) whole) (subst Returns whole returns)).equation,
      )
