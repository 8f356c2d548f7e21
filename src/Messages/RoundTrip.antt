-- ===== src/Messages/RoundTrip.antt =====
-- What of a message of src/network/network_messages.cpp comes back from its bytes.
use deo.Prelude.{
  ℕ, ◌^◌, ◌<◌, ◌≤◌, ◌≡◌, ◌≢◌, refl, ◌∙◌, Bool, true, false, ◌==◌, some, List, [], ◌∷◌, ◌++◌, length,
  All, arith,
}
use deo.Prelude.Run.{ok}
use deo.Transaction.Wire.{number_bytes, of_number_bytes, text_bytes, read_number, read_items}
use deo.Transaction.WireReaders.{
  length-number_bytes, read_bytes-append, read_u32, read_u64, read_text-text_bytes,
}
use deo.Transaction.WireRoundTrip.{read_items_step}
use deo.Messages.{
  PeerAddress, Message, addr, type_of, payload, serialize_addresses, serialize, create_message,
  read_address, read_addresses, deserialize,
}

-- The fields of an address fit their places in the bytes.
pub record IsSendable (a : PeerAddress) : Type 0 where
  pub address_fits : length a.address < 2 ^ 32
  pub port_fits : a.port < 2 ^ 16
  pub timestamp_fits : a.timestamp < 2 ^ 64
  pub services_fit : a.services < 2 ^ 64

u16_bytes : (n : ℕ) → n < 2 ^ 16 → of_number_bytes (number_bytes 2 n) ≡ n
unfolding of_number_bytes number_bytes
u16_bytes n h = omega arith

read_u16 :
    (n : ℕ) (ys : List ℕ) → n < 2 ^ 16 → read_number 2 (number_bytes 2 n ++ ys) ≡ some (n, ys)
unfolding read_number
read_u16 n ys h =
    rw (read_bytes-append 2 (number_bytes 2 n) ys (length-number_bytes 2 n), u16_bytes n h) refl

abbrev address_bytes : PeerAddress → List ℕ → List ℕ
address_bytes a rest =
    text_bytes a.address
    ++ (number_bytes 2 a.port
        ++ (number_bytes 8 a.timestamp ++ (number_bytes 8 a.services ++ rest)))

read_address_round :
    (a : PeerAddress) (rest : List ℕ)
    → IsSendable a
    → read_address (address_bytes a rest) ≡ some (a, rest)
unfolding read_address
read_address_round a rest h =
    rw
      (
        read_text-text_bytes a.address _ h.address_fits,
        read_u16 a.port _ h.port_fits,
        read_u64 a.timestamp _ h.timestamp_fits,
        read_u64 a.services _ h.services_fit,
      )
      refl

addresses_round :
    (addresses : List PeerAddress)
    → All IsSendable addresses
    → read_items read_address (length addresses) (serialize_addresses addresses)
      ≡ (addresses, some [])
unfolding serialize_addresses
addresses_round [] h = unfold read_items in refl
addresses_round (a ∷ addresses) (h, hs) =
    rw
      (
        read_items_step read_address (length addresses)
            (address_bytes a (serialize_addresses addresses)) (serialize_addresses addresses) a
            (read_address_round a (serialize_addresses addresses) h),
        addresses_round addresses hs,
      )
      refl

payload_other : (message : Message) → type_of message ≢ 0x14 → payload message ≡ []
unfolding payload type_of
payload_other (addr addresses) other = absurd (other refl)
payload_other message other = refl

module _ (room : ℕ → Bool) where
  -- A message of at most 2 ^ 32 - 1 addresses that fit their places comes back whole from its bytes, into
  -- any message of that type, where their number can be reserved.
  pub deserialize-serialize_addresses :
      (before addresses : List PeerAddress)
      → All IsSendable addresses
      → length addresses < 2 ^ 32
      → room (length addresses) ≡ true
      → deserialize room (addr before) (serialize (addr addresses)) ≡ ok (true, addr addresses)
  unfolding deserialize serialize read_addresses
  deserialize-serialize_addresses before addresses fits few reserved =
      rw
        (
          read_u32 (length addresses) (serialize_addresses addresses) few,
          addresses_round addresses fits,
          reserved,
        )
        refl

  reads_other :
      (before : Message) (code : ℕ) (data_ : List ℕ)
      → type_of before ≢ 0x14
      → deserialize room before (code ∷ data_) ≡ ok (code == type_of before, before)
  unfolding deserialize type_of
  reads_other (addr addresses) code data_ other = absurd (other refl)
  reads_other before code data_ other = refl

  -- A message of any other type comes back from its bytes as the one that they are read into: nothing but
  -- the type is sent.
  pub deserialize-serialize_other :
      (before sent : Message)
      → type_of sent ≡ type_of before
      → type_of sent ≢ 0x14
      → (deserialize room before (serialize sent) ≡ ok (true, before))
        × (serialize sent ≡ type_of sent ∷ [])
  unfolding serialize
  deserialize-serialize_other before sent same other =
      let empty = payload_other sent other in
      let reads = reads_other before (type_of sent) (payload sent) (λ e. other (same ∙ e)) in
      let matches : (type_of sent == type_of before) ≡ true = ground (arith, same) in
      (reads ∙ rw matches refl, rw empty refl)

  -- The messages that the factory makes for block requests, header requests and headers have another type,
  -- so their bytes are refused.
  pub created_unread :
      (code : ℕ) (message : Message) (data_ : List ℕ)
      → create_message code ≡ some message
      → 8 ≤ code
      → code ≤ 10
      → deserialize room message (code ∷ data_) ≡ ok (false, message)
  unfolding create_message type_of
  created_unread code message data_ made low high =
      let other : type_of message ≢ 0x14 = ground (arith, made) in
      reads_other message code data_ other ∙ ground (arith, made)
