-- ===== src/Principal/Examples.antt =====
-- Tests and witnesses of provenance.
use the_dudes_daemon.Base.{◌≡◌, ◌↔◌, refl, true, false, none, some, arith}
use the_dudes_daemon.Principal.{
  Value, boolean, text, number, object, array, empty, nil, field, Sender, SenderType, Origin,
  principal_from_agent_send, principal_from_queue_deliver, is_non_owner_turn, deny, default,
  acp_permission_decision_for_turn, claude_permission_mode_for_turn, same_turn_principal,
  mark_non_owner_message, unprovenanced,
}
use the_dudes_daemon.Principal.Trust.{SaysOwner, agent_send-owner_iff, unproven-denied}

opened : Unit {0}
unfolding principal_from_agent_send principal_from_queue_deliver is_non_owner_turn
    same_turn_principal mark_non_owner_message
opened = tt

abbrev sender : Value
sender = object (field "type" (text "user") (field "id" (text "u1") (field "name" (number 3) nil)))

-- A flag that is the text "true" is not the boolean.
abbrev forged : Value
forged =
    object
      (field "isAgentOwner" (text "true") (field "from" sender (field "origin" (text "user") nil)))

abbrev owner_frame : Value
owner_frame = object (field "from" sender (field "isAgentOwner" (boolean true) nil))

abbrev from_u1 : Sender
from_u1 = record { type = SenderType.user; id = "u1"; name = none }

frames :
    (principal_from_agent_send forged
      ≡ record { from = some from_u1; is_agent_owner = some false; origin = some Origin.user })
    × (principal_from_agent_send owner_frame
        ≡ record { from = some from_u1; is_agent_owner = some true; origin = none })
    × (principal_from_queue_deliver (array empty) ≡ unprovenanced)
    × (same_turn_principal none none ≡ false)
unfolding opened
frames = (refl, refl, refl, refl)

label_of_system :
    mark_non_owner_message
      (λ s. s)
      (λ s. s)
      (λ s. s)
      "rm"
      (some (record { from = none; is_agent_owner = some true; origin = some Origin.system }))
    ≡ "rm"
unfolding opened
label_of_system = refl

agent_send-owner_iff_example :
    (is_non_owner_turn (some (principal_from_agent_send owner_frame)) ≡ false)
    ↔ SaysOwner owner_frame
agent_send-owner_iff_example = agent_send-owner_iff owner_frame

forged-not_owner : ¬ SaysOwner forged
forged-not_owner (msg, e, flag) = ground arith

unproven-denied_example :
    (acp_permission_decision_for_turn (some (principal_from_agent_send forged)) ≡ deny)
    × (claude_permission_mode_for_turn (some (principal_from_agent_send forged)) true ≡ default)
    × (acp_permission_decision_for_turn (some (principal_from_queue_deliver forged)) ≡ deny)
    × (claude_permission_mode_for_turn (some (principal_from_queue_deliver forged)) true ≡ default)
unproven-denied_example = unproven-denied forged true forged-not_owner
