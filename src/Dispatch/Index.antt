-- ===== src/Dispatch/Index.antt =====
-- The table of dispatch candidates of `CompiledProtocol`, entry by entry.
use native.Mathlib.Decide.{ℕ_discrete}
use mathlib.Core.List.{append-nil, append_assoc}
use universal_protocol_runti.Base.{
  ℕ, zero, suc, ◌<◌, ◌≡◌, ◌≢◌, refl, sym, ap, ◌∙◌, Bool, true, false, List, [], ◌∷◌, ◌++◌, arith,
  ◌==◌, if◌then◌else◌, length, set, length-set, if_true_elim, if_false_elim,
}
use universal_protocol_runti.Dispatch.{CompiledMessage, Candidates, ids_at, enter, enter_all}

-- The first byte of a prefix.
abbrev pub begins : ℕ → List ℕ → Bool
begins b [] = false
begins b (p ∷ prefix) = p == b

abbrev pub ids_where :
    {Layout : Type 0} → (List ℕ → Bool) → ℕ → List (CompiledMessage Layout) → List ℕ
ids_where p index [] = []
ids_where p index (m ∷ messages) =
    let later = ids_where p (suc index) messages in
    if p m.dispatch_prefix then index ∷ later else later

abbrev pub is_empty : List ℕ → Bool
is_empty [] = true
is_empty (p ∷ prefix) = false

ids_at-set_same :
    (table : List (List ℕ)) (b : ℕ) (ids : List ℕ)
    → b < length table
    → ids_at (set table b ids) b ≡ ids
ids_at-set_same [] b ids h = absurd (omega arith)
ids_at-set_same (t ∷ table) zero ids h = refl
ids_at-set_same (t ∷ table) (suc b) ids h = ids_at-set_same table b ids (omega arith)

ids_at-set_other :
    (table : List (List ℕ)) (b p : ℕ) (ids : List ℕ)
    → p ≢ b
    → ids_at (set table p ids) b ≡ ids_at table b
ids_at-set_other [] b p ids h = refl
ids_at-set_other (t ∷ table) zero zero ids h = absurd (h refl)
ids_at-set_other (t ∷ table) zero (suc p) ids h = refl
ids_at-set_other (t ∷ table) (suc b) zero ids h = refl
ids_at-set_other (t ∷ table) (suc b) (suc p) ids h =
    ids_at-set_other table b p ids (λ e. h (ap suc e))

length-enter :
    (prefix : List ℕ) (index : ℕ) (c : Candidates)
    → length (enter prefix index c).dispatch_message_ids ≡ length c.dispatch_message_ids
unfolding enter
length-enter [] index c = refl
length-enter (p ∷ prefix) index c = length-set c.dispatch_message_ids p _

ids_at-enter :
    (prefix : List ℕ) (index b : ℕ) (c : Candidates)
    → b < length c.dispatch_message_ids
    → ids_at (enter prefix index c).dispatch_message_ids b
      ≡ ids_at c.dispatch_message_ids b ++ (if begins b prefix then index ∷ [] else [])
unfolding enter
ids_at-enter [] index b c h = sym (append-nil _)
ids_at-enter (p ∷ prefix) index b c h = elim (ℕ_discrete p b) [
  | yes e ↦
      if_true_elim
        (λ s.
          ids_at (set c.dispatch_message_ids p (ids_at c.dispatch_message_ids p ++ (index ∷ []))) b
          ≡ ids_at c.dispatch_message_ids b ++ s)
        (p == b) _ _ (ground arith) (rw e (ids_at-set_same c.dispatch_message_ids b _ h))
  | no n ↦
      if_false_elim
        (λ s.
          ids_at (set c.dispatch_message_ids p (ids_at c.dispatch_message_ids p ++ (index ∷ []))) b
          ≡ ids_at c.dispatch_message_ids b ++ s)
        (p == b) _ _ (ground arith)
        (ids_at-set_other c.dispatch_message_ids b p _ n ∙ sym (append-nil _))
]

fallback-enter :
    (prefix : List ℕ) (index : ℕ) (c : Candidates)
    → (enter prefix index c).fallback_message_ids
      ≡ c.fallback_message_ids ++ (if is_empty prefix then index ∷ [] else [])
unfolding enter
fallback-enter [] index c = refl
fallback-enter (p ∷ prefix) index c = sym (append-nil _)

-- An index in front of the later ones.
append-if :
    (ids later : List ℕ) (index : ℕ) (b : Bool)
    → (ids ++ (if b then index ∷ [] else [])) ++ later ≡ ids ++ (if b then index ∷ later else later)
append-if ids later index true = append_assoc ids (index ∷ []) later
append-if ids later index false = ap (λ s. s ++ later) (append-nil ids)

pub ids_at-enter_all :
    {Layout : Type 0} (messages : List (CompiledMessage Layout)) (index b : ℕ) (c : Candidates)
    → b < length c.dispatch_message_ids
    → ids_at (enter_all messages index c).dispatch_message_ids b
      ≡ ids_at c.dispatch_message_ids b ++ ids_where (begins b) index messages
unfolding enter_all
ids_at-enter_all [] index b c h = sym (append-nil _)
ids_at-enter_all (m ∷ messages) index b c h =
    ids_at-enter_all messages (suc index) b (enter m.dispatch_prefix index c)
      (omega (arith, length-enter m.dispatch_prefix index c))
    ∙ ap (λ ids. ids ++ ids_where (begins b) (suc index) messages)
        (ids_at-enter m.dispatch_prefix index b c h)
    ∙ append-if (ids_at c.dispatch_message_ids b) _ index (begins b m.dispatch_prefix)

pub fallback-enter_all :
    {Layout : Type 0} (messages : List (CompiledMessage Layout)) (index : ℕ) (c : Candidates)
    → (enter_all messages index c).fallback_message_ids
      ≡ c.fallback_message_ids ++ ids_where is_empty index messages
unfolding enter_all
fallback-enter_all [] index c = sym (append-nil _)
fallback-enter_all (m ∷ messages) index c =
    fallback-enter_all messages (suc index) (enter m.dispatch_prefix index c)
    ∙ ap (λ ids. ids ++ ids_where is_empty (suc index) messages)
        (fallback-enter m.dispatch_prefix index c)
    ∙ append-if c.fallback_message_ids _ index (is_empty m.dispatch_prefix)
