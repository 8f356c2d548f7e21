-- ===== src/Tests/Transactions.antt =====
-- The theorems on transactions and fees at a payment of one input and two outputs.
use deo.Prelude.{
  ℕ, zero, suc, ◌<◌, All, ◌≡◌, refl, Bool, true, false, List, [], ◌∷◌, take, replicate, arith,
}
use deo.Prelude.Run.{Run, ok, ◌>>=◌}
use deo.Prelude.Texts.{Text}
use deo.Transaction.{
  TransactionInput, TransactionOutput, regular, coinbase, Transaction, new_transaction,
}
use deo.Transaction.Wire.{bytes_to_hex, hex_to_bytes, serialize, deserialize}
use deo.Transaction.WireRoundTrip.{deserialize-serialize}

-- The hash of an earlier transaction, of 32 bytes.
abbrev pub earlier : Text
earlier = bytes_to_hex (replicate 32 171)

abbrev pub owner : Text
owner = b'K' ∷ []

abbrev pub spent : TransactionInput
spent = record {
  previous_tx_hash = earlier;
  output_index = 3;
  signature = [];
  public_key = owner;
  sequence = 7;
}

abbrev pub paid : TransactionOutput
paid = record {
  value = 500;
  recipient_address = b'A' ∷ [];
  script_pubkey = b'S' ∷ [];
  output_index = 0;
}

abbrev pub change : TransactionOutput
change = record { value = 70; recipient_address = b'B' ∷ []; script_pubkey = []; output_index = 1 }

abbrev pub payment : Transaction
payment = new_transaction (spent ∷ []) (paid ∷ change ∷ []) regular

-- A stand-in for a hash: the first characters.
abbrev pub shortened_hash : Text → Text
shortened_hash t = take 4 t

-- A stand-in for a scheme: every signature with a byte verifies; its text has to be hexadecimal.
abbrev pub is_some_byte : List ℕ → Bool
is_some_byte [] = false
is_some_byte (byte ∷ bytes) = true

abbrev pub accepts_marked : Text → Text → Text → Run Bool
accepts_marked d signature key = do bytes ← hex_to_bytes signature; ok (is_some_byte bytes)

small_bytes : (n : ℕ) → All (λ b. b < 256) (replicate n 171)
small_bytes zero = tt
small_bytes (suc n) = (omega arith, small_bytes n)

deserialize-serialize_example :
    (bytes : List ℕ) × (serialize payment ≡ ok bytes)
    × (deserialize (new_transaction [] [] coinbase) bytes
        ≡ (true, record payment { type_ = coinbase; cached_hash = []; hash_cached = false }))
unfolding bytes_to_hex
deserialize-serialize_example =
    deserialize-serialize payment (new_transaction [] [] coinbase) (record {
      version_fits = omega arith;
      inputs_fit = (
        record {
          hash = (replicate 32 171, (small_bytes 32), refl, refl);
          index = omega arith;
          sig = omega arith;
          key = omega arith;
          seq = omega arith;
        },
        tt,
      );
      input_count = omega arith;
      outputs_fit = (
        record {
          amount = omega arith;
          address = omega arith;
          script = omega arith;
          index = omega arith;
        },
        (
          record {
            amount = omega arith;
            address = omega arith;
            script = omega arith;
            index = omega arith;
          },
          tt,
        ),
      );
      output_count = omega arith;
      lock_fits = omega arith;
    })
