-- ===== src/Tests/Blocks.antt =====
-- The theorems on blocks at a block of one payment.
use deo.Prelude.{◌≡◌, refl, true, false, [], ◌∷◌, length}
use deo.Uint256.Hex.{hex_digit}
use deo.Transaction.{Transaction}
use deo.Transaction as Transaction
use deo.Transaction.Wire.{bytes_to_hex}
use deo.Block.{
  Block, new_header, block_of, rebuild_merkle_tree, update_merkle_root, id_of, has_id,
  remove_transaction,
}
use deo.Tests.Transactions.{payment, shortened_hash}

abbrev paid_block : Block
paid_block = block_of shortened_hash new_header (payment ∷ [])

abbrev emptied_block : Block
emptied_block = (remove_transaction shortened_hash (id_of shortened_hash payment) paid_block).1

one_payment : length paid_block.transactions ≡ 1
unfolding block_of update_merkle_root rebuild_merkle_tree
one_payment = refl

payment_valid : Transaction.validate payment ≡ true
unfolding Transaction.validate Transaction.validate_input Transaction.validate_output
    Transaction.all_inputs_valid Transaction.all_outputs_valid bytes_to_hex hex_digit
payment_valid = refl

nothing_known : has_id shortened_hash (id_of shortened_hash payment) [] ≡ false
unfolding has_id
nothing_known = refl
