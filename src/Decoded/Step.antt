-- ===== src/Decoded/Step.antt =====
-- One round of the loop over the fields keeps the invariant: what is needed of the round.
use mathlib.Core.Path.{subst}
use native.Mathlib.Decide.{ℕ_discrete}
use universal_protocol_runti.Base.{
  ℕ, suc, ◌+◌, ◌≤◌, ◌≡◌, ◌≢◌, sym, ap, ◌∙◌, Bool, true, List, some, length, get_elem?, arith,
}
use universal_protocol_runti.ByteOps.{ByteOps}
use universal_protocol_runti.Layout.{CompiledField, CompiledMessage, CompiledProtocol}
use universal_protocol_runti.Decoded.{DecodedMessage, ResolvedField}
use universal_protocol_runti.Decoded.Invariant.{Settled, Settles, Extends, Running}

-- Entries that stay what they were stay settled, further on as well.
Settled-later :
    (ops : ByteOps) (frame : List ℕ) (bound bound' : ℕ) (field : CompiledField) (p p' : Bool)
    (r r' : ResolvedField) (v v' : Bool) (x x' : ℕ)
    → bound ≤ bound'
    → p' ≡ p
    → r' ≡ r
    → v' ≡ v
    → x' ≡ x
    → Settled ops frame bound field p r v x
    → Settled ops frame bound' field p' r' v' x'
Settled-later ops frame bound bound' field p p' r r' v v' x x' l ep er ev ex s =
    let t : Settled ops frame bound' field p r v x = record {
      inside = λ e. omega (arith, s.inside e);
      width = s.width;
      cached = s.cached;
      expected = s.expected;
      encoded = s.encoded;
      reserved = s.reserved;
    } in
    rw (ep, er, ev, ex) t

module _ (ops : ByteOps) (protocol : CompiledProtocol) (layout : CompiledMessage)
    (frame : List ℕ) where
  pub Running-Extends :
      (k : ℕ) (m m' : DecodedMessage) (offset offset' : ℕ) (field : CompiledField)
      → Running ops protocol layout frame k m offset
      → Extends k m m'
      → offset ≤ offset'
      → offset' ≤ length frame
      → get_elem? layout.fields k ≡ some field
      → Settles ops frame offset' field m' k
      → (m'.field_present k ≡ true → offset ≤ (m'.resolved_fields k).offset)
      → Running ops protocol layout frame (suc k) m' offset'
  Running-Extends k m m' offset offset' field r x l b g s after =
      let other =
        λ (i : ℕ) (h : i ≢ k) (p : m'.field_present i ≡ true). sym (x.same_present i h) ∙ p in
      record {
        message_is = x.same_message ∙ r.message_is;
        protocol_is = x.same_protocol ∙ r.protocol_is;
        frame_is = x.same_frame ∙ r.frame_is;
        count_is = x.same_count ∙ r.count_is;
        offset_le = b;
        untouched = λ i h.
            let ne : i ≢ k = omega arith in
            let (p, v) = r.untouched i (omega arith) in
            (x.same_present i ne ∙ p, x.same_valid i ne ∙ v);
        settled = λ i f h g'. elim (ℕ_discrete i k) [
          | yes e ↦
              let ef : some field ≡ some f = sym g ∙ (sym (ap (get_elem? layout.fields) e) ∙ g') in
              let e' : field ≡ f = ground (arith, ef) in
              subst (λ (y : CompiledField). Settles ops frame offset' y m' i) e'
                (subst (λ (j : ℕ). Settles ops frame offset' field m' j) (sym e) s)
          | no ne ↦
              Settled-later ops frame offset offset' f (m.field_present i) (m'.field_present i)
                (m.resolved_fields i) (m'.resolved_fields i) (m.scalar_cache_valid i)
                (m'.scalar_cache_valid i) (m.scalar_cache_values i) (m'.scalar_cache_values i) l
                (x.same_present i ne) (x.same_resolved i ne) (x.same_valid i ne)
                (x.same_values i ne) (r.settled i f (omega (arith, ne)) g')
        ];
        before = λ i h p. elim (ℕ_discrete i k) [
          | yes e ↦
              subst
                (λ (j : ℕ).
                  m'.field_present j ≡ true
                  → (m'.resolved_fields j).offset + (m'.resolved_fields j).size ≤ offset')
                (sym e) s.inside p
          | no ne ↦
              rw (x.same_resolved i ne)
                (omega (arith, r.before i (omega (arith, ne)) (other i ne p)))
        ];
        ordered = λ i j h h' p p'.
            let ne : i ≢ k = omega arith in
            elim (ℕ_discrete j k) [
              | yes e ↦
                  let a : offset ≤ (m'.resolved_fields j).offset =
                    subst
                      (λ (n : ℕ).
                        m'.field_present n ≡ true → offset ≤ (m'.resolved_fields n).offset)
                      (sym e) after p' in
                  rw (x.same_resolved i ne)
                    (omega (arith, a, r.before i (omega (arith, e)) (other i ne p)))
              | no ne' ↦
                  rw (x.same_resolved i ne, x.same_resolved j ne')
                    (r.ordered i j h (omega (arith, ne')) (other i ne p) (other j ne' p'))
            ];
      }
