-- ===== src/Dispatch/Decoder.antt =====
-- packages/upr_runtime/src/decoder/protocol_decoder.cpp and
-- packages/upr_runtime/include/universal_protocol_runtime/decoder/protocol_decoder.hpp: decoding by name,
-- with a mask of fields and with a plan. A protocol that is pointed to is told from others by its address,
-- a number. `out_of_fuel` cannot be the end of a decoding that is as deep as the layouts nest, and is
-- passed on; a decoding that fails leaves the message alone.
use Prim.Native.String.{String}
use universal_protocol_runti.Base.{
  ℕ, zero, suc, Bool, true, false, ◌&&◌, not, List, Option, none, some, ◌==◌, if◌then◌else◌,
}
use universal_protocol_runti.Core.{DecodeStatus}
use universal_protocol_runti.Outcome.{Outcome, done, failed, fault, out_of_fuel}
use universal_protocol_runti.ByteOps.{ByteOps}
use universal_protocol_runti.Layout
use universal_protocol_runti.Layout.{CompiledProtocol}
use universal_protocol_runti.Layout.Names.{find_message}
use universal_protocol_runti.Decoded.{DecodedMessage, max_fields_per_message}
use universal_protocol_runti.Decoded.Assign.{assign_from_layout}

-- Whether the first `n` fields are selected.
unfoldable pub all_selected : (ℕ → Bool) → ℕ → Bool
all_selected selected zero = true
all_selected selected (suc n) =
    let rest = all_selected selected n in if selected n then rest else false

-- `DecodeFieldMask`, by its array.
unfoldable pub selects_all : (ℕ → Bool) → Bool
unfolding all_selected
selects_all selected_fields = all_selected selected_fields max_fields_per_message

pub record DecodePlan : Type 0 where
  pub protocol : Option ℕ
  pub layout : Option Layout.CompiledMessage
  pub field_mask : ℕ → Bool
  pub has_field_mask : Bool

-- `ProtocolDecoder`: the address of its protocol, and the protocol there.
pub record ProtocolDecoder : Type 0 where
  pub address : ℕ
  pub protocol : CompiledProtocol

-- The status that a call returns, and the message that it leaves.
abbrev pub Decoding : Type 0
Decoding = Outcome (DecodeStatus × DecodedMessage)

-- The outcome of `assign_from_layout` on a message.
abbrev pub assigned : Outcome (DecodedMessage × ℕ) → DecodedMessage → Decoding
assigned (done r) message = done (DecodeStatus.ok, r.0)
assigned (failed status) message = done (status, message)
assigned fault message = fault
assigned out_of_fuel message = out_of_fuel

-- field_mask.selects_all() ? nullptr : &field_mask
abbrev pub mask_pointer : (ℕ → Bool) → Option (ℕ → Bool)
mask_pointer mask = if selects_all mask then none else some mask

-- The plan without a mask.
abbrev pub plain_plan : ProtocolDecoder → Layout.CompiledMessage → DecodePlan
plain_plan decoder layout = record {
  protocol = some decoder.address;
  layout = some layout;
  field_mask = λ i. false;
  has_field_mask = false;
}

-- The plan with a mask, which is dropped if it selects all fields.
abbrev pub masked_plan : ProtocolDecoder → Layout.CompiledMessage → (ℕ → Bool) → DecodePlan
masked_plan decoder layout mask = if selects_all mask then plain_plan decoder layout else record {
  protocol = some decoder.address;
  layout = some layout;
  field_mask = mask;
  has_field_mask = true;
}

unfoldable pub make_plan : ProtocolDecoder → String → Option DecodePlan
make_plan decoder name = elim (find_message decoder.protocol name) [
  | none ↦ none
  | some layout ↦ some (plain_plan decoder layout)
]

unfoldable pub make_plan_masked : ProtocolDecoder → String → (ℕ → Bool) → Option DecodePlan
make_plan_masked decoder name mask = elim (find_message decoder.protocol name) [
  | none ↦ none
  | some layout ↦ some (masked_plan decoder layout mask)
]

module _ (ops : ByteOps) (fuel : ℕ) (decoder : ProtocolDecoder) where
  unfoldable pub decode_message :
      Layout.CompiledMessage → List ℕ → DecodedMessage → Option (ℕ → Bool) → Decoding
  decode_message layout frame message field_mask =
      assigned (assign_from_layout ops decoder.protocol fuel layout frame field_mask false) message

  -- decode_as(message_name, frame, message)
  unfoldable pub decode_as : String → List ℕ → DecodedMessage → Decoding
  unfolding decode_message
  decode_as name frame message = elim (find_message decoder.protocol name) [
    | none ↦ done (DecodeStatus.message_not_found, message)
    | some layout ↦ decode_message layout frame message none
  ]

  -- decode_as(message_name, frame, message, field_mask)
  unfoldable pub decode_as_masked : String → List ℕ → DecodedMessage → (ℕ → Bool) → Decoding
  unfolding decode_message
  decode_as_masked name frame message mask = elim (find_message decoder.protocol name) [
    | none ↦ done (DecodeStatus.message_not_found, message)
    | some layout ↦ decode_message layout frame message (mask_pointer mask)
  ]

  -- What `decode_with_plan` does with the plan's layout.
  abbrev pub decode_planned :
      Option Layout.CompiledMessage → DecodePlan → List ℕ → DecodedMessage → Decoding
  decode_planned none plan frame message = done (DecodeStatus.message_not_found, message)
  decode_planned (some layout) plan frame message = decode_message layout frame message (
      if plan.has_field_mask && not (selects_all plan.field_mask)
      then some plan.field_mask
      else none)

  unfoldable pub decode_with_plan : DecodePlan → List ℕ → DecodedMessage → Decoding
  unfolding decode_message
  decode_with_plan plan frame message = elim plan.protocol [
    | none ↦ done (DecodeStatus.message_not_found, message)
    | some address ↦
        if address == decoder.address
        then decode_planned plan.layout plan frame message
        else done (DecodeStatus.message_not_found, message)
  ]
