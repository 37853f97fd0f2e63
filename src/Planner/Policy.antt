-- ===== src/Planner/Policy.antt =====
-- `authority_gate` of src/voodoo_skillset/policy.py: whether a capability may act.
use voodoo_skillset.Prelude.{
  String, Bool, true, not, ◌||◌, List, ◌≡◌, ◌⊎◌, ◌↔◌, arith, contains, if◌then◌else◌,
}

pub data Authority : Type 0 where
  read compute write remote_write deploy destructive privileged : Authority

pub data Verdict : Type 0 where
  allow block approval_required : Verdict

-- The fields of the three records that the gate reads.
pub record Capability : Type 0 where
  pub id : String
  pub authority : Authority

pub record RuntimeManifest : Type 0 where
  pub tools : List String
  pub standing_grants : List String

pub record IntentProfile : Type 0 where
  pub write_intent : Bool
  pub deploy_intent : Bool

pub record GateDecision : Type 0 where
  pub capability_id : String
  pub authority : Authority
  pub verdict : Verdict
  pub reason : String

abbrev gate : Capability → Verdict → String → GateDecision
gate cap v reason = record {
  capability_id = cap.id;
  authority = cap.authority;
  verdict = v;
  reason = reason;
}

-- An authority that needs an intent and a standing grant of its name.
unfoldable pub granted_gate :
    Capability → RuntimeManifest → Bool → String → String → String → String → GateDecision
granted_gate cap runtime intended name no_intent granted required =
    if not intended
    then gate cap block no_intent
    else if contains name runtime.standing_grants
    then gate cap allow granted
    else gate cap approval_required required

unfoldable pub gate_of : Authority → Capability → IntentProfile → RuntimeManifest → GateDecision
unfolding granted_gate
gate_of read cap intent runtime = gate cap allow "read capability"
gate_of compute cap intent runtime =
    if contains "isolated-runner" runtime.tools || contains "test-runner" runtime.tools
    then gate cap allow "isolated compute runner available"
    else gate cap block "compute requires isolated runner"
gate_of write cap intent runtime =
    granted_gate cap runtime intent.write_intent "WRITE" "no explicit write intent"
      "standing WRITE grant" "bounded write authorization required"
gate_of remote_write cap intent runtime =
    granted_gate cap runtime intent.write_intent "REMOTE_WRITE" "no explicit remote-write intent"
      "standing REMOTE_WRITE grant" "bounded remote-write authorization required"
gate_of deploy cap intent runtime =
    granted_gate cap runtime intent.deploy_intent "DEPLOY" "no explicit deploy intent"
      "dedicated DEPLOY grant" "dedicated deploy approval required"
gate_of _ cap intent runtime =
    gate cap approval_required "explicit one-operation authorization required"

unfoldable pub authority_gate : Capability → IntentProfile → RuntimeManifest → GateDecision
unfolding gate_of
authority_gate cap intent runtime = gate_of cap.authority cap intent runtime

-- When an authority may act without asking.
abbrev pub IsStanding : Authority → IntentProfile → RuntimeManifest → Type 0
IsStanding read intent runtime = Unit
IsStanding compute intent runtime =
    (contains "isolated-runner" runtime.tools ≡ true)
    ⊎ (contains "test-runner" runtime.tools ≡ true)
IsStanding write intent runtime =
    (intent.write_intent ≡ true) × (contains "WRITE" runtime.standing_grants ≡ true)
IsStanding remote_write intent runtime =
    (intent.write_intent ≡ true) × (contains "REMOTE_WRITE" runtime.standing_grants ≡ true)
IsStanding deploy intent runtime =
    (intent.deploy_intent ≡ true) × (contains "DEPLOY" runtime.standing_grants ≡ true)
IsStanding destructive intent runtime = ⊥
IsStanding privileged intent runtime = ⊥

gate_of-IsStanding :
    (a : Authority) (cap : Capability) (intent : IntentProfile) (runtime : RuntimeManifest)
    → ((gate_of a cap intent runtime).verdict ≡ allow) ↔ IsStanding a intent runtime
unfolding gate_of granted_gate
gate_of-IsStanding read cap intent runtime = ground arith
gate_of-IsStanding compute cap intent runtime = ground arith
gate_of-IsStanding write cap intent runtime = ground arith
gate_of-IsStanding remote_write cap intent runtime = ground arith
gate_of-IsStanding deploy cap intent runtime = ground arith
gate_of-IsStanding destructive cap intent runtime = ground arith
gate_of-IsStanding privileged cap intent runtime = ground arith

-- The gate allows a capability without asking exactly where its authority stands: READ always, COMPUTE
-- with a runner, WRITE, REMOTE_WRITE and DEPLOY with an intent and a grant of that name, and
-- DESTRUCTIVE and PRIVILEGED never.
pub authority_gate-IsStanding :
    (cap : Capability) (intent : IntentProfile) (runtime : RuntimeManifest)
    → ((authority_gate cap intent runtime).verdict ≡ allow)
      ↔ IsStanding cap.authority intent runtime
unfolding authority_gate
authority_gate-IsStanding cap intent runtime = gate_of-IsStanding cap.authority cap intent runtime
