-- ===== src/Principal/Trust.antt =====
-- A frame raises trust by the literal `isAgentOwner: true` alone.
use the_dudes_daemon.Base.{
  ◌≡◌, ◌↔◌, ◌⊎◌, inl, inr, refl, Bool, true, false, some, arith, Option-cases, Bool-cases,
}
use the_dudes_daemon.Principal.{
  Value, undefined, null, boolean, number, text, array, object, Fields, own, object_of, is_true,
  Principal, principal_of_fields, principal_from_agent_send, principal_from_queue_deliver,
  is_non_owner_turn, deny, default, acp_permission_decision_for_turn,
  claude_permission_mode_for_turn, is_boolean,
}

-- The value is an object whose property `isAgentOwner` is the boolean true.
abbrev pub SaysOwner : Value → Type 0
SaysOwner value =
    (msg : Fields) × (object_of value ≡ some msg) × (own "isAgentOwner" msg ≡ boolean true)

is_true-cases : (v : Value) → (is_true v ≡ false) ⊎ (v ≡ boolean true)
is_true-cases (boolean true) = inr refl
is_true-cases (boolean false) = inl refl
is_true-cases undefined = inl refl
is_true-cases null = inl refl
is_true-cases (number n) = inl refl
is_true-cases (text s) = inl refl
is_true-cases (array vs) = inl refl
is_true-cases (object fields) = inl refl

of_fields-cases :
    (msg : Fields)
    → (is_non_owner_turn (some (principal_of_fields msg)) ≡ true)
      ⊎ (own "isAgentOwner" msg ≡ boolean true)
unfolding principal_of_fields is_non_owner_turn
of_fields-cases msg = elim (is_true-cases (own "isAgentOwner" msg)) [
  | inl no_flag ↦ inl (rw no_flag)
  | inr flag ↦ inr flag
]

agent_send-cases :
    (value : Value)
    → (is_non_owner_turn (some (principal_from_agent_send value)) ≡ true) ⊎ SaysOwner value
unfolding principal_from_agent_send is_non_owner_turn
agent_send-cases value = elim (Option-cases (object_of value)) [
  | inl e ↦ inl (rw (e, principal_from_agent_send))
  | inr (msg, e) ↦ elim (of_fields-cases msg) [
    | inl member ↦ inl (rw (e, principal_from_agent_send) member)
    | inr flag ↦ inr (msg, e, flag)
  ]
]

agent_send-owner :
    (value : Value)
    → SaysOwner value
    → is_non_owner_turn (some (principal_from_agent_send value)) ≡ false
unfolding principal_from_agent_send is_non_owner_turn
agent_send-owner value (msg, e, flag) = rw (e, principal_from_agent_send, flag)

-- A turn from an `agent:send` frame is the owner's exactly when the frame is an object whose
-- `isAgentOwner` is the boolean true: no other value, no other property and no origin raises trust.
pub agent_send-owner_iff :
    (value : Value)
    → (is_non_owner_turn (some (principal_from_agent_send value)) ≡ false) ↔ SaysOwner value
agent_send-owner_iff value = (
  λ h. elim (agent_send-cases value) [ inl member ↦ absurd (cc (h, member)) | inr says ↦ says ],
  agent_send-owner value,
)

flag-is_boolean : (v : Value) → v ≡ boolean true → is_boolean v ≡ true
flag-is_boolean v e = rw e

queue_deliver-cases :
    (value : Value)
    → (is_non_owner_turn (some (principal_from_queue_deliver value)) ≡ true) ⊎ SaysOwner value
unfolding principal_from_queue_deliver
queue_deliver-cases value = elim (Option-cases (object_of value)) [
  | inl e ↦ inl (rw (e, principal_from_queue_deliver) (unfold is_non_owner_turn in refl))
  | inr (msg, e) ↦ elim (Bool-cases (is_boolean (own "isAgentOwner" msg))) [
    | inl given ↦ elim (of_fields-cases msg) [
      | inl member ↦ inl (rw (e, principal_from_queue_deliver, given) member)
      | inr flag ↦ inr (msg, e, flag)
    ]
    | inr missing ↦ inl (
        rw (e, principal_from_queue_deliver, missing)
          (unfold is_non_owner_turn principal_of_fields in refl))
  ]
]

queue_deliver-owner :
    (value : Value)
    → SaysOwner value
    → is_non_owner_turn (some (principal_from_queue_deliver value)) ≡ false
unfolding principal_from_queue_deliver is_non_owner_turn
queue_deliver-owner value (msg, e, flag) =
    rw (e, principal_from_queue_deliver, flag-is_boolean _ flag, flag)

-- The same holds of an item that comes back from the retained queue.
pub queue_deliver-owner_iff :
    (value : Value)
    → (is_non_owner_turn (some (principal_from_queue_deliver value)) ≡ false) ↔ SaysOwner value
queue_deliver-owner_iff value = (
  λ h. elim (queue_deliver-cases value) [ inl member ↦ absurd (cc (h, member)) | inr says ↦ says ],
  queue_deliver-owner value,
)

denied :
    (p : Principal) (auto : Bool)
    → is_non_owner_turn (some p) ≡ true
    → (acp_permission_decision_for_turn (some p) ≡ deny)
      × (claude_permission_mode_for_turn (some p) auto ≡ default)
unfolding acp_permission_decision_for_turn claude_permission_mode_for_turn
denied p auto h = ground arith

-- Fail closed: a frame or a retained item that does not carry the boolean true gives a turn whose
-- permission requests are denied and whose permission mode is the default one, even where the owner
-- approves automatically.
pub unproven-denied :
    (value : Value) (auto : Bool)
    → ¬ SaysOwner value
    → let sent = some (principal_from_agent_send value) in
      let kept = some (principal_from_queue_deliver value) in
      (acp_permission_decision_for_turn sent ≡ deny)
      × (claude_permission_mode_for_turn sent auto ≡ default)
      × (acp_permission_decision_for_turn kept ≡ deny)
      × (claude_permission_mode_for_turn kept auto ≡ default)
unproven-denied value auto no_flag =
    let sent : is_non_owner_turn (some (principal_from_agent_send value)) ≡ true =
      elim (agent_send-cases value) [ inl h ↦ h | inr says ↦ absurd (no_flag says) ] in
    let kept : is_non_owner_turn (some (principal_from_queue_deliver value)) ≡ true =
      elim (queue_deliver-cases value) [ inl h ↦ h | inr says ↦ absurd (no_flag says) ] in
    let (a, b) = denied (principal_from_agent_send value) auto sent in
    let (c, d) = denied (principal_from_queue_deliver value) auto kept in (a, b, c, d)
