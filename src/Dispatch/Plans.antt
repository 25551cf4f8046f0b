-- ===== src/Dispatch/Plans.antt =====
-- Plans and masks of packages/upr_runtime/src/decoder/protocol_decoder.cpp.
use Prim.Native.String.{String}
use text.Mathlib.Text.{◌==◌}
use universal_protocol_runti.Base
use universal_protocol_runti.Base.{
  ℕ, zero, suc, Bool, true, false, ◌≡◌, ◌↔◌, refl, sym, ap, ◌∙◌, List, [], ◌∷◌, Option, none, some,
  Bool-cases, Option-cases, inl, inr, arith, get_elem?, if◌then◌else◌,
}
use universal_protocol_runti.Core.{DecodeStatus}
use universal_protocol_runti.Outcome.{done}
use universal_protocol_runti.ByteOps.{ByteOps}
use universal_protocol_runti.Decoded.{DecodedMessage}
use mathlib.Core.Path.{subst}
use universal_protocol_runti.Layout
use universal_protocol_runti.Layout.Names.{find_message, find_named}
use universal_protocol_runti.Dispatch.Decoder.{
  ProtocolDecoder, DecodePlan, decode_message, decode_as_masked, masked_plan, decode_with_plan,
  make_plan_masked, selects_all, mask_pointer,
}

some_of {ℓ} : {A : Type ℓ} (a b : A) → some a ≡ some b → a ≡ b
some_of a b e = ap (λ o. elim o [ none ↦ a | some x ↦ x ]) e

taken_none {ℓ} :
    {A : Type ℓ} (test : Bool) (a : A) (rest : Option A)
    → (if test then some a else rest) ≡ none
    → (test ≡ false) × (rest ≡ none)
taken_none true a rest h = cc
taken_none false a rest h = (refl, h)

module _ {ℓ} {A : Type ℓ} (name_of : A → String) (name : String) where
  -- What is not found by its name does not have it.
  find_named-none :
      (others : List A)
      → find_named name_of name others ≡ none
      → (index : ℕ) (a : A) → get_elem? others index ≡ some a
      → (name_of a == name) ≡ false
  unfolding find_named
  find_named-none [] h index a e = cc
  find_named-none (x ∷ others) h zero a e =
      subst (λ (y : A). (name_of y == name) ≡ false) (some_of x a e)
        (taken_none (name_of x == name) x (find_named name_of name others) h).0
  find_named-none (x ∷ others) h (suc index) a e =
      find_named-none others (taken_none (name_of x == name) x (find_named name_of name others) h).1
        index a e

  find_named-missing :
      (others : List A)
      → ((index : ℕ) (a : A) → get_elem? others index ≡ some a → (name_of a == name) ≡ false)
      → find_named name_of name others ≡ none
  unfolding find_named
  find_named-missing [] k = refl
  find_named-missing (x ∷ others) k =
      rw (k 0 x refl) (find_named-missing others (λ index a e. k (suc index) a e))

module _ (ops : ByteOps) (fuel : ℕ) (decoder : ProtocolDecoder) where
  decode_with_plan-masked :
      (mask : ℕ → Bool) (layout : Layout.CompiledMessage) (frame : List ℕ)
      (message : DecodedMessage)
      → decode_with_plan ops fuel decoder (masked_plan decoder layout mask) frame message
        ≡ decode_message ops fuel decoder layout frame message (mask_pointer mask)
  unfolding decode_with_plan
  decode_with_plan-masked mask layout frame message =
      let t : Base.◌==◌ decoder.address decoder.address ≡ true = ground arith in
      elim (Bool-cases (selects_all mask)) [ inl e ↦ rw (e, t) refl | inr e ↦ rw (e, t, e) refl ]

  no_plan :
      (name : String) (mask : ℕ → Bool)
      → (make_plan_masked decoder name mask ≡ none) ↔ (
          (index : ℕ) (layout : Layout.CompiledMessage)
          → get_elem? (decoder.protocol).messages index ≡ some layout
          → (layout.name == name) ≡ false)
  unfolding make_plan_masked find_message
  no_plan name mask = (
    λ h.
        find_named-none (λ (m : Layout.CompiledMessage). m.name) name (decoder.protocol).messages
          (planned (find_message decoder.protocol name) h),
    λ k.
        let n : find_message decoder.protocol name ≡ none =
          find_named-missing (λ (m : Layout.CompiledMessage). m.name) name
            (decoder.protocol).messages k in
        ap
          (λ (o : Option Layout.CompiledMessage). elim o [
            | none ↦ none
            | some layout ↦ some (masked_plan decoder layout mask)
          ])
          n,
  )
    where
      planned :
          (o : Option Layout.CompiledMessage)
          → (elim o [ none ↦ none | some layout ↦ some (masked_plan decoder layout mask) ]) ≡ none
          → o ≡ none
      planned none h = refl
      planned (some layout) h = cc

  -- A plan, made once, decodes every frame as `decode_as` with the same name and mask does. There is
  -- no plan exactly where no message of the protocol has the name, and without a plan `decode_as`
  -- leaves the message alone and returns `kMessageNotFound`.
  pub decode_with_plan-make_plan :
      (name : String) (mask : ℕ → Bool) (frame : List ℕ) (message : DecodedMessage)
      → ((plan : DecodePlan)
          → make_plan_masked decoder name mask ≡ some plan
          → decode_with_plan ops fuel decoder plan frame message
            ≡ decode_as_masked ops fuel decoder name frame message mask)
        × (make_plan_masked decoder name mask ≡ none
            → decode_as_masked ops fuel decoder name frame message mask
              ≡ done (DecodeStatus.message_not_found, message))
        × ((make_plan_masked decoder name mask ≡ none) ↔ (
            (index : ℕ) (layout : Layout.CompiledMessage)
            → get_elem? (decoder.protocol).messages index ≡ some layout
            → (layout.name == name) ≡ false))
  unfolding make_plan_masked decode_as_masked
  decode_with_plan-make_plan name mask frame message =
      elim (Option-cases (find_message decoder.protocol name)) [
        | inl n ↦ (
          λ plan h.
              let y : make_plan_masked decoder name mask ≡ none = rw (n, make_plan_masked) refl in
              cc,
          λ h. rw (n, decode_as_masked) refl,
          no_plan name mask,
        )
        | inr (layout, f) ↦
            let y : make_plan_masked decoder name mask ≡ some (masked_plan decoder layout mask) =
              rw (f, make_plan_masked) refl in
            let z : decode_as_masked ops fuel decoder name frame message mask
                ≡ decode_message ops fuel decoder layout frame message (mask_pointer mask) =
              rw (f, decode_as_masked) refl in
            (
              λ plan h.
                  subst
                    (λ (p : DecodePlan).
                      decode_with_plan ops fuel decoder p frame message
                      ≡ decode_as_masked ops fuel decoder name frame message mask)
                    (some_of (masked_plan decoder layout mask) plan (sym y ∙ h))
                    (decode_with_plan-masked mask layout frame message ∙ sym z),
              λ h. cc,
              no_plan name mask,
            )
      ]
