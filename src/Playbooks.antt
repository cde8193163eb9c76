-- ===== src/Playbooks.antt =====
-- Backend/application/operations/playbook_map.py: playbooks to actions and channels, and the
-- default playbook of each class.
use recova.Prelude.{Option, none, some}
use recova.Constants.{FailureClass, Channel, Action, Playbook}

-- `PLAYBOOK_ACTION`
unfoldable pub playbook_action : Playbook → Action × Option Channel
playbook_action Playbook.reroute_rail = (Action.generate_payment_link, some Channel.payment_link)
playbook_action Playbook.preauth_link = (Action.generate_payment_link, some Channel.payment_link)
playbook_action Playbook.upi_autopay_nudge = (Action.send_whatsapp, some Channel.whatsapp)
playbook_action Playbook.negotiation = (Action.offer_fee_waiver, some Channel.whatsapp)
playbook_action Playbook.salary_cycle_sequencer = (Action.retry_charge, none)
playbook_action Playbook.mandate_refresh = (Action.voice_call, some Channel.voice)
playbook_action Playbook.p2p_tracker = (Action.send_whatsapp, some Channel.whatsapp)

-- `DEFAULT_PLAYBOOK`
unfoldable pub default_playbook : FailureClass → Playbook
default_playbook FailureClass.realtime_degradation = Playbook.reroute_rail
default_playbook FailureClass.checkout_abandonment = Playbook.upi_autopay_nudge
default_playbook FailureClass.subscription_mandate = Playbook.salary_cycle_sequencer
default_playbook FailureClass.b2b_receivables = Playbook.p2p_tracker
