-- ===== src/Decoded/Alignment.antt =====
-- The arithmetic of sizes in packages/upr_runtime/src/decoder/decoded_message.cpp is exact where it
-- stays in range.
use native.Mathlib.Nat.{mod-eq_of_lt, mod-lt, mod-add-mod, mod_self, mod-one}
use universal_protocol_runti.Base.{
  ℕ, zero, suc, ◌+◌, ◌-◌, ◌%◌, ◌^◌, ◌≤◌, ◌<◌, ◌≡◌, ap, ◌∙◌, sym, inl, inr, leb, ◌==◌, arith,
  Bool-cases, leb→le,
}
use universal_protocol_runti.Decoded.{align_up}

-- From an aligned position to the next one.
next_aligned : (offset a : ℕ) → 0 < a → (offset + (a - offset % a)) % a ≡ 0
next_aligned offset a h =
    let l = mod-lt offset h in
    let e : offset % a + (a - offset % a) ≡ a = omega (arith, l) in
    sym (mod-add-mod offset a (a - offset % a)) ∙ (ap (λ x. x % a) e ∙ mod_self a)

-- `align_up` is the next multiple of the alignment, at or after the offset and less than one alignment
-- away, where that cannot leave the range of `size_t`.
pub align_up-IsNext :
    (offset alignment : ℕ)
    → 0 < alignment
    → offset + alignment ≤ 2 ^ 64
    → (offset ≤ align_up offset alignment)
      × (align_up offset alignment < offset + alignment)
      × (align_up offset alignment % alignment ≡ 0)
unfolding align_up
align_up-IsNext offset alignment h b =
    let l = mod-lt offset h in
    elim (Bool-cases (leb alignment 1)) [
      | inl e ↦
          let one : alignment ≡ 1 = omega (arith, leb→le alignment 1 e) in
          rw e (omega arith, omega arith, ap (λ a. offset % a) one ∙ mod-one offset)
      | inr e ↦ rw e (elim (Bool-cases (offset % alignment == 0)) [
        | inl z ↦ rw z (omega arith, omega arith, ground (arith, z))
        | inr z ↦
            let r : 0 < offset % alignment = ground (arith, z) in
            let s : offset + (alignment - offset % alignment) < 2 ^ 64 = omega (arith, l) in
            rw (z, mod-eq_of_lt s)
              (omega (arith, l), omega (arith, l), next_aligned offset alignment h)
      ])
    ]

-- Without a condition on the alignment, which counts as 1 when it is 0.
pub align_up_ge :
    (offset alignment : ℕ) → offset + alignment ≤ 2 ^ 64 → offset ≤ align_up offset alignment
align_up_ge offset zero b = unfold align_up in omega arith
align_up_ge offset (suc a) b = (align_up-IsNext offset (suc a) (omega arith) b).0
