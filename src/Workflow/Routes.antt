-- ===== src/Workflow/Routes.antt =====
-- The playbooks against the dispatcher.
use recova.Prelude.{ℕ, ◌≡◌, refl, Option, some}
use recova.Constants.{Playbook}
use recova.Playbooks.{playbook_action}
use recova.Database.{Txn, AdapterCall}
use recova.Workflow.Execute.{adapter_call}

-- The dispatcher has a route for the action of every playbook.
playbook_action-routed :
    (p : Playbook) (txn : Txn) (amount : Option ℕ)
    → (call : AdapterCall) × (adapter_call txn amount (playbook_action p).0 ≡ some call)
unfolding playbook_action adapter_call
playbook_action-routed Playbook.reroute_rail txn amount = (_, refl)
playbook_action-routed Playbook.preauth_link txn amount = (_, refl)
playbook_action-routed Playbook.upi_autopay_nudge txn amount = (_, refl)
playbook_action-routed Playbook.negotiation txn amount = (_, refl)
playbook_action-routed Playbook.salary_cycle_sequencer txn amount = (_, refl)
playbook_action-routed Playbook.mandate_refresh txn amount = (_, refl)
playbook_action-routed Playbook.p2p_tracker txn amount = (_, refl)
