-- ===== src/Peers/Keys.antt =====
-- The keys of src/network/peer_manager.cpp: formatPeerKey tells the addresses and ports apart.
use deo.Prelude.{
  ℕ, zero, suc, ◌+◌, ◌-◌, ◌*◌, ◌/◌, ◌%◌, ◌^◌, ◌<◌, ◌≡◌, ◌≢◌, refl, sym, ap, ◌∙◌, Bool-cases, inl,
  inr, false, [], ◌∷◌, ◌++◌, All, ltb, arith,
}
use deo.Prelude.Texts.{Text, same_text, same_text_iff}
use deo.Transaction.{decimal, decimal_digits}
use deo.Peers.{format_peer_key}

-- The number that digits write after another.
unfoldable value_from : ℕ → Text → ℕ
value_from v [] = v
value_from v (d ∷ ds) = value_from (v * 10 + (d - b'0')) ds

value_from-decimal_digits :
    (places n : ℕ) (acc : Text)
    → n < 10 ^ places
    → value_from 0 (decimal_digits places n acc) ≡ value_from n acc
unfolding decimal_digits value_from
value_from-decimal_digits zero n acc h = ap (λ v. value_from v acc) (omega (arith, h))
value_from-decimal_digits (suc places) n acc h = elim (Bool-cases (ltb n 10)) [
  | inl last ↦ rw last (ap (λ v. value_from v acc) (omega arith))
  | inr more ↦ rw more (
      value_from-decimal_digits places (n / 10) ((b'0' + n % 10) ∷ acc) (omega (arith, h))
      ∙ ap (λ v. value_from v acc) (omega arith))
]

abbrev IsDigit : ℕ → Type 0
IsDigit d = d < b':'

decimal_digits-IsDigit :
    (places n : ℕ) (acc : Text) → All IsDigit acc → All IsDigit (decimal_digits places n acc)
unfolding decimal_digits
decimal_digits-IsDigit zero n acc h = h
decimal_digits-IsDigit (suc places) n acc h = elim (Bool-cases (ltb n 10)) [
  | inl last ↦ rw last (ground (arith, last), h)
  | inr more ↦ rw more (decimal_digits-IsDigit places (n / 10) _ (omega arith, h))
]

no_colon : (before ds rest : Text) → All IsDigit ds → ds ≡ before ++ b':' ∷ rest → ⊥
no_colon before ds rest h e = in_digits before (rw e at h)
  where
    in_digits : (before : Text) → All IsDigit (before ++ b':' ∷ rest) → ⊥
    in_digits [] (h, hs) = absurd (omega (arith, h))
    in_digits (c ∷ before) (h, hs) = in_digits before hs

-- The same text split at its last colon, twice.
same_split :
    (a b ds es : Text)
    → All IsDigit ds
    → All IsDigit es
    → a ++ b':' ∷ ds ≡ b ++ b':' ∷ es
    → (a ≡ b) × (ds ≡ es)
same_split [] [] ds es h k e = (refl, (cc))
same_split [] (c ∷ b) ds es h k e = absurd (no_colon b ds es h (cc))
same_split (c ∷ a) [] ds es h k e = absurd (no_colon a es ds k (cc))
same_split (c ∷ a) (d ∷ b) ds es h k e =
    let first : c ≡ d = cc in
    let rest = same_split a b ds es h k (cc) in (rw (first, rest.0) refl, rest.1)

value_from-decimal : (n : ℕ) → n < 2 ^ 64 → value_from 0 (decimal n) ≡ n
unfolding decimal value_from
value_from-decimal n h = value_from-decimal_digits 20 n [] (omega (arith, h))

-- Two pairs of an address and a port of 16 bits have the same key only where they are the same.
pub format_peer_key_injective :
    (address other : Text) (port other_port : ℕ)
    → port < 2 ^ 16
    → other_port < 2 ^ 16
    → format_peer_key address port ≡ format_peer_key other other_port
    → (address ≡ other) × (port ≡ other_port)
unfolding format_peer_key decimal
format_peer_key_injective address other port other_port fits other_fits e =
    let digits = decimal_digits-IsDigit 20 port [] tt in
    let other_digits = decimal_digits-IsDigit 20 other_port [] tt in
    let (same, same_digits) = same_split address other _ _ digits other_digits e in
    (
      same,
      sym (value_from-decimal port (omega (arith, fits)))
          ∙ ap (value_from 0) same_digits
          ∙ value_from-decimal other_port (omega (arith, other_fits)),
    )

pub same_text-format_peer_key :
    (address other : Text) (port other_port : ℕ)
    → port < 2 ^ 16
    → other_port < 2 ^ 16
    → (address ≡ other → port ≢ other_port)
    → same_text (format_peer_key address port) (format_peer_key other other_port) ≡ false
same_text-format_peer_key address other port other_port fits other_fits differ =
    let key = format_peer_key address port in
    let other_key = format_peer_key other other_port in
    elim (Bool-cases (same_text key other_key)) [
      | inl hit ↦
          let (same, same_port) =
            format_peer_key_injective address other port other_port fits other_fits
              ((same_text_iff key other_key).0 hit) in
          absurd (differ same same_port)
      | inr miss ↦ miss
    ]
