-- ===== src/Messages.antt =====
-- The messages between peers of include/network/network_messages.h and src/network/network_messages.cpp.
-- Their JSON forms and timestamps are left out. What std::vector::reserve can provide is a parameter.
pub mod RoundTrip
use deo.Prelude.{
  ℕ, zero, suc, ◌+◌, ◌%◌, ◌^◌, Bool, true, false, ◌==◌, ◌&&◌, ◌||◌, not, ltb, if◌then◌else◌, Option,
  none, some, List, [], ◌∷◌, ◌++◌, length,
}
use deo.Prelude.Run.{Run, ok, throws, bad_alloc}
use deo.Prelude.Texts.{Text}
use deo.Transaction.{Transaction, is_empty_text}
use deo.Transaction.Wire.{number_bytes, text_bytes, read_number, read_text, read_items, ◌|>◌}
use deo.Block.{Block}

pub record PeerAddress : Type 0 where
  pub address : Text
  pub port : ℕ
  pub timestamp : ℕ
  pub services : ℕ

-- The subclasses of NetworkMessage, with the members of their own.
pub data Message : Type 0 where
  hello : (version : ℕ) (node_id : Text) (capabilities : List Text) (user_agent : Text) → Message
  inv : (inventory : List Text) → Message
  get_data : (items : List Text) → Message
  block : Option Block → Message
  tx : Option Transaction → Message
  ping : (nonce : ℕ) → Message
  pong : (nonce : ℕ) → Message
  reject : (reason data_hash : Text) → Message
  get_addr : Message
  addr : (addresses : List PeerAddress) → Message

-- type_, as its byte
unfoldable pub type_of : Message → ℕ
type_of (hello version node_id capabilities user_agent) = 0x01
type_of (inv inventory) = 0x02
type_of (get_data items) = 0x03
type_of (block b) = 0x04
type_of (tx t) = 0x05
type_of (ping nonce) = 0x06
type_of (pong nonce) = 0x07
type_of (reject reason data_hash) = 0x0b
type_of get_addr = 0x15
type_of (addr addresses) = 0x14

-- MessageFactory::createMessage, of the byte of a type
unfoldable pub create_message : ℕ → Option Message
create_message code =
    if code == 0x01
    then some (hello 1 [] [] [])
    else if code == 0x02 || code == 0x0a
    then some (inv [])
    else if code == 0x03 || (code == 0x08 || code == 0x09)
    then some (get_data [])
    else if code == 0x04
    then some (block none)
    else if code == 0x05
    then some (tx none)
    else if code == 0x06
    then some (ping 0)
    else if code == 0x07
    then some (pong 0)
    else if code == 0x15
    then some get_addr
    else if code == 0x14
    then some (addr [])
    else none

unfoldable pub serialize_addresses : List PeerAddress → List ℕ
serialize_addresses [] = []
serialize_addresses (a ∷ addresses) =
    text_bytes a.address
    ++ (number_bytes 2 a.port
        ++ (number_bytes 8 a.timestamp
            ++ (number_bytes 8 a.services ++ serialize_addresses addresses)))

-- What each serialize writes after the byte of the type.
unfoldable pub payload : Message → List ℕ
unfolding serialize_addresses
payload (addr addresses) = number_bytes 4 (length addresses) ++ serialize_addresses addresses
payload other = []

unfoldable pub serialize : Message → List ℕ
unfolding type_of payload
serialize message = type_of message ∷ payload message

unfoldable pub read_address : List ℕ → Option (PeerAddress × List ℕ)
read_address data_ = read_text data_ |> λ address. read_number 2 address.1 |> λ port.
    read_number 8 port.1 |> λ timestamp. read_number 8 timestamp.1 |> λ services. some (
      record { address = address.0; port = port.0; timestamp = timestamp.0; services = services.0 },
      services.1,
    )

abbrev pub is_read : Option (List ℕ) → Bool
is_read none = false
is_read (some rest) = true

module _ (room : ℕ → Bool) where
  -- AddrMessage::deserialize after the byte of the type: the addresses that were read stay.
  unfoldable pub read_addresses : List PeerAddress → Option (ℕ × List ℕ) → Run (Bool × Message)
  unfolding read_address
  read_addresses before none = ok (false, addr before)
  read_addresses before (some (count, rest)) =
      let (addresses, end) = read_items read_address count rest in
      if room count then ok (is_read end, addr addresses) else throws bad_alloc

  -- deserialize, of the bytes into a message
  unfoldable pub deserialize : Message → List ℕ → Run (Bool × Message)
  unfolding type_of read_addresses
  deserialize message [] = ok (false, message)
  deserialize (addr before) (code ∷ data_) =
      if not (code == 0x14)
      then ok (false, addr before)
      else read_addresses before (read_number 4 data_)
  deserialize message (code ∷ data_) = ok (code == type_of message, message)

unfoldable pub valid_addresses : List PeerAddress → Bool
valid_addresses [] = true
valid_addresses (a ∷ addresses) =
    let rest = valid_addresses addresses in
    if is_empty_text a.address || a.port == 0 then false else rest

abbrev pub is_there {ℓ} : {A : Type ℓ} → Option A → Bool
is_there none = false
is_there (some a) = true

unfoldable pub validate : Message → Bool
unfolding valid_addresses
validate (hello version node_id capabilities user_agent) =
    not (is_empty_text node_id) && ltb 0 version
validate (block b) = is_there b
validate (tx t) = is_there t
validate (reject reason data_hash) = not (is_empty_text reason) && not (is_empty_text data_hash)
validate (addr addresses) = valid_addresses addresses
validate other = true
