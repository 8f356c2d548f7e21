-- ===== src/Authority/Members.antt =====
-- The list of validators of ProofOfAuthority: no address stands twice, and what a change of one does.
use mathlib.Core.Logic.Or
use mathlib.Core.HLevel.{⊥_prop}
use mathlib.Core.List.{
  Mem, Perm, Nodup, mem-cons, not-mem-nil, Nodup-cons, Nodup-nil, mem-cons_self, mem-cons_of_mem,
  perm_middle, append-nil, Sublist,
}
use mathlib.Core.List.Nodup
use mathlib.Core.List.Perm
use mathlib.Core.List.Sublist
use deo.Prelude.{
  ℕ, ◌%◌, ◌≡◌, refl, sym, ap, Bool, true, false, Bool-cases, inl, inr, if◌then◌else◌, Option, none,
  some, List, [], ◌∷◌, ◌++◌, length, get_elem?, arith,
}
use deo.Prelude.Texts.{Text, same_text, same_text_iff}
use deo.Authority.{
  Validator, ProofOfAuthority, new_proof_of_authority, addresses, has_address, update_first,
  erase_first, with_priority, with_active, with_stake, by_priority, active_of, any_authorized,
  is_authorized_validator, give_turn, get_next_validator, add_validator, remove_validator,
  set_validator_active, update_validator_stake,
}

abbrev IsUnique : List Validator → Type 0
IsUnique validators = Nodup (addresses validators)

not_member :
    (a : Text) (validators : List Validator)
    → has_address a validators ≡ false
    → ¬ Mem a (addresses validators)
unfolding has_address
not_member a [] e m = not-mem-nil m
not_member a (v ∷ validators) e m =
    Or.elim ⊥_prop (mem-cons.0 m) (λ same. ground (arith, e, same_text_iff v.address a, sym same))
      (not_member a validators (ground (arith, e)))

keeps_addresses :
    (change : Validator → Validator) (a : Text) (validators : List Validator)
    → ((v : Validator) → (change v).address ≡ v.address)
    → addresses (update_first change a validators) ≡ addresses validators
unfolding update_first
keeps_addresses change a [] k = refl
keeps_addresses change a (v ∷ validators) k =
    ground (arith, k v, keeps_addresses change a validators k)

erased :
    (a : Text) (validators : List Validator)
    → Sublist (addresses (erase_first a validators)) (addresses validators)
unfolding erase_first
erased a [] = Sublist.refl []
erased a (v ∷ validators) = elim (Bool-cases (same_text v.address a)) [
  | inl hit ↦ rw hit (Sublist.cons v.address (Sublist.refl (addresses validators)))
  | inr miss ↦ rw miss (Sublist.cons-cons v.address (erased a validators))
]

addresses-append :
    (validators : List Validator) (v : Validator)
    → addresses (validators ++ v ∷ []) ≡ addresses validators ++ v.address ∷ []
addresses-append [] v = refl
addresses-append (w ∷ validators) v = ap (w.address ∷◌) (addresses-append validators v)

added :
    (validators : List Validator) (v : Validator)
    → has_address v.address validators ≡ false
    → IsUnique validators
    → IsUnique (validators ++ v ∷ [])
added validators v e u = rw (addresses-append validators v) (
    Perm.nodup (Perm.symm (perm_middle (addresses validators) [])) (
      rw (append-nil (addresses validators)) (Nodup-cons.1 (not_member v.address validators e, u))))

changed :
    (change : Validator → Validator) (a : Text) (validators : List Validator)
    → ((v : Validator) → (change v).address ≡ v.address)
    → IsUnique validators
    → IsUnique (update_first change a validators)
changed change a validators k u = rw (keeps_addresses change a validators k) u

unlisted :
    (a : Text) (validators : List Validator)
    → ¬ Mem a (addresses validators)
    → any_authorized a validators ≡ false
unfolding any_authorized
unlisted a [] n = refl
unlisted a (v ∷ validators) n = elim (Bool-cases (same_text v.address a)) [
  | inl hit ↦
      let same : v.address ≡ a = (same_text_iff v.address a).0 hit in
      absurd (n (rw same mem-cons_self))
  | inr miss ↦ rw miss (unlisted a validators (λ m. n (mem-cons_of_mem v.address m)))
]

-- What the change of the first validator with an address does to the others of the list.
activated :
    (a x : Text) (b : Bool) (validators : List Validator)
    → IsUnique validators
    → has_address a validators ≡ true
    → any_authorized x (update_first (with_active b) a validators)
      ≡ (if same_text a x then b else any_authorized x validators)
unfolding any_authorized update_first has_address
activated a x b [] u h = absurd (cc)
activated a x b (v ∷ validators) u h =
    let parts = Nodup-cons.0 u in
    elim (Bool-cases (same_text v.address a)) [
      | inl hit ↦
          let same : v.address ≡ a = (same_text_iff v.address a).0 hit in
          let alone = unlisted a validators (rw same at (parts.0)) in
          rw hit (ground (arith, alone, same, same_text_iff v.address x, same_text_iff a x))
      | inr miss ↦ ground (
        arith,
        miss,
        same_text_iff v.address a,
        same_text_iff v.address x,
        same_text_iff a x,
        activated a x b validators parts.1 (ground (arith, miss, h)),
      )
    ]

module _ (std_sort : (Validator → Validator → Bool) → List Validator → List Validator) where
  -- The calls that change the list of validators. setBlockTime, which leaves it, is not among them.
  pub data Step : ProofOfAuthority → ProofOfAuthority → Type 0 where
    adds : {p : ProofOfAuthority} (v : Validator) → Step p (add_validator std_sort v p).1
    removes : {p : ProofOfAuthority} (a : Text) → Step p (remove_validator a p).1
    activates : {p : ProofOfAuthority} (a : Text) (b : Bool) → Step p (set_validator_active a b p).1
    stakes :
        {p : ProofOfAuthority} (a : Text) (n : ℕ) → Step p (update_validator_stake std_sort a n p).1
    turns : {p : ProofOfAuthority} (height : ℕ) → Step p (get_next_validator height p).1

  pub data Reach : ProofOfAuthority → Type 0 where
    starts : Reach new_proof_of_authority
    steps : {p q : ProofOfAuthority} → Reach p → Step p q → Reach q

  turn-IsUnique :
      (height : ℕ) (who : Option Validator) (p : ProofOfAuthority)
      → IsUnique p.validators
      → IsUnique (give_turn height who p).1.validators
  unfolding give_turn
  turn-IsUnique height none p u = u
  turn-IsUnique height (some v) p u =
      changed (with_priority height) v.address p.validators (λ w. refl) u

  -- `std::sort` permutes its range.
  module _
      (sorts : (validators : List Validator)
        → Perm (std_sort by_priority validators) validators) where
    sorted-IsUnique :
        (validators : List Validator)
        → IsUnique validators
        → IsUnique (std_sort by_priority validators)
    sorted-IsUnique validators u =
        Perm.nodup (Perm.symm (Perm.map (λ (v : Validator). v.address) (sorts validators))) u

    step-IsUnique :
        {p q : ProofOfAuthority} → Step p q → IsUnique p.validators → IsUnique q.validators
    unfolding add_validator remove_validator set_validator_active update_validator_stake
        get_next_validator
    step-IsUnique (adds {p} v) u = elim (Bool-cases (has_address v.address p.validators)) [
      | inl known ↦ rw known u
      | inr new ↦ rw new (sorted-IsUnique (p.validators ++ v ∷ []) (added p.validators v new u))
    ]
    step-IsUnique (removes {p} a) u = elim (Bool-cases (has_address a p.validators)) [
      | inl known ↦ rw known (Nodup.sublist (erased a p.validators) u)
      | inr unknown ↦ rw unknown u
    ]
    step-IsUnique (activates {p} a b) u = elim (Bool-cases (has_address a p.validators)) [
      | inl known ↦ rw known (changed (with_active b) a p.validators (λ w. refl) u)
      | inr unknown ↦ rw unknown u
    ]
    step-IsUnique (stakes {p} a n) u = elim (Bool-cases (has_address a p.validators)) [
      | inl known ↦ rw known (
          sorted-IsUnique (update_first (with_stake n) a p.validators)
            (changed (with_stake n) a p.validators (λ w. refl) u))
      | inr unknown ↦ rw unknown u
    ]
    step-IsUnique (turns {p} height) u =
        turn-IsUnique height
          (get_elem? (active_of p.validators) (height % length (active_of p.validators))) p u

    -- Whatever calls are made of a new engine, no address stands twice in its list of validators.
    pub Reach-IsUnique : {p : ProofOfAuthority} → Reach p → Nodup (addresses p.validators)
    Reach-IsUnique starts = Nodup-nil
    Reach-IsUnique (steps r s) = step-IsUnique s (Reach-IsUnique r)

    -- After a call of setValidatorActive for a known address, that address is authorized just as the call
    -- says, and any other as before.
    pub set_validator_active-is_authorized :
        {p : ProofOfAuthority} (a x : Text) (b : Bool)
        → Reach p
        → has_address a p.validators ≡ true
        → is_authorized_validator x (set_validator_active a b p).1
          ≡ (if same_text a x then b else is_authorized_validator x p)
    unfolding set_validator_active is_authorized_validator
    set_validator_active-is_authorized {p} a x b r h =
        rw h (activated a x b p.validators (Reach-IsUnique r) h)
