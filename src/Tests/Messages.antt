-- ===== src/Tests/Messages.antt =====
-- The theorems on messages at an answer with two addresses.
use deo.Prelude.{ℕ, ◌^◌, ◌<◌, ◌≡◌, refl, All, true, List, [], ◌∷◌, arith}
use deo.Prelude.Run.{ok}
use deo.Messages.{PeerAddress, addr, serialize, deserialize}
use deo.Messages.RoundTrip.{IsSendable, deserialize-serialize_addresses}

abbrev peer_address : ℕ → PeerAddress
peer_address port = record {
  address = b'h' ∷ b'1' ∷ [];
  port = port;
  timestamp = 1700000000;
  services = 1;
}

abbrev two_addresses : List PeerAddress
two_addresses = peer_address 8333 ∷ peer_address 8334 ∷ []

peer_address-IsSendable : (port : ℕ) → port < 2 ^ 16 → IsSendable (peer_address port)
peer_address-IsSendable port h = record {
  address_fits = omega arith;
  port_fits = h;
  timestamp_fits = omega arith;
  services_fit = omega arith;
}

two_addresses-IsSendable : All IsSendable two_addresses
two_addresses-IsSendable =
    (peer_address-IsSendable 8333 (omega arith), (peer_address-IsSendable 8334 (omega arith), tt))

deserialize-serialize_addresses_example :
    deserialize (λ n. true) (addr []) (serialize (addr two_addresses))
    ≡ ok (true, addr two_addresses)
deserialize-serialize_addresses_example =
    deserialize-serialize_addresses (λ n. true) [] two_addresses two_addresses-IsSendable
      (omega arith) refl
