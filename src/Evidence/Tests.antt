-- ===== src/Evidence/Tests.antt =====
-- The evidence ledger of src/voodoo_skillset/evidence.py on a concrete event.
use voodoo_skillset.Prelude.{none, List, [], ◌≡◌, ◌↔◌}
use voodoo_skillset.Json.{end}
use voodoo_skillset.Platform.Sample.{sample}
use voodoo_skillset.Evidence.{EvidenceEvent, genesis, append, verify}
use voodoo_skillset.Evidence.Integrity.{IsSealed, verify-IsSealed, verify-append}

abbrev one_event : List EvidenceEvent
one_event = append sample "PLAN" "orchestrator" end "now" []

verify-IsSealed_example : (verify sample one_event ≡ none) ↔ IsSealed sample 1 genesis one_event
verify-IsSealed_example = verify-IsSealed sample one_event

empty_passes : verify sample [] ≡ none
empty_passes = (verify-IsSealed sample []).1 tt

verify-append_example : verify sample (append sample "DAG" "composer" end "now" []) ≡ none
verify-append_example = verify-append sample "DAG" "composer" end "now" [] empty_passes
