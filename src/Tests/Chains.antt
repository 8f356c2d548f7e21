-- ===== src/Tests/Chains.antt =====
-- The theorems on the chain at chains of two or three blocks.
use deo.Prelude.{◌<◌, ◌≡◌, refl, true, false, Option, some, List, [], ◌∷◌, ◌++◌, arith}
use mathlib.Core.Path.{subst}
use deo.Prelude.Run.{ok}
use deo.Prelude.Texts.{Text, same_text}
use deo.Prelude.Dicts.{Dict, lookup, insert, text_lt}
use deo.Transaction.{Transaction, decimal, decimal_digits}
use deo.Block.{
  Block, new_block, set_height, set_previous_hash, set_timestamp, set_difficulty, zeros, get_hash,
  update_hash, header_data,
}
use deo.Chain.{Blockchain, BlockchainConfig, new_blockchain, hash_of, last_of}
use deo.Chain.Ancestry.{find_common_ancestor}
use deo.Chain.Growth.{validate_block, json, load_state, index_all}
use deo.Chain.Extension.{add_block}
use deo.Chain.Lineage.{Lineage, Rises, IsAbove}
use deo.Chain.Locks.{AddsAs, add_block_exact}
use deo.Chain.Walks.{find_common_ancestor-IsFirst, IsFirst, hashes_of}
use deo.Tests.Transactions.{accepts_marked}

-- A hash that is the data itself.
abbrev plain_hash : Text → Text
plain_hash text = text

abbrev first_key : Dict Transaction → Text
first_key [] = []
first_key ((k, tx) ∷ m) = k

abbrev config : BlockchainConfig
config = record {
  max_block_size = 1000000;
  genesis_timestamp = 0;
  genesis_merkle_root = zeros;
  initial_difficulty = 1;
}

-- Two blocks of which the second names the hash of the first.
abbrev base_block : Block
base_block = set_previous_hash [] new_block

abbrev next_block : Block
next_block =
    set_difficulty 5 (
      set_timestamp 100
        (set_height 1 (set_previous_hash (hash_of plain_hash base_block) new_block)))

abbrev two_blocks : Blockchain
two_blocks = load_state plain_hash (json (base_block ∷ next_block ∷ [])) (new_blockchain config)

two_blocks_free : two_blocks.held ≡ false
unfolding load_state
two_blocks_free = refl

base_is_low : (a : Block) → ◌≡◌ {A = Option Block} (some base_block) (some a) → a.header.height < 1
base_is_low a found =
    let same : base_block ≡ a = cc in subst (λ (b : Block). b.header.height < 1) same (omega arith)

next_IsAbove : IsAbove two_blocks.block_index next_block
unfolding load_state index_all lookup insert get_hash update_hash header_data decimal decimal_digits
    same_text text_lt
next_IsAbove a longer found = base_is_low a found

base_IsAbove : IsAbove two_blocks.block_index base_block
base_IsAbove a longer found = absurd (longer refl)

two_blocks_rise : Rises two_blocks.block_index
unfolding load_state index_all lookup insert get_hash update_hash header_data decimal decimal_digits
    same_text text_lt
two_blocks_rise =
    (λ a longer found. absurd (longer refl), (λ a longer found. base_is_low a found, tt))

find_common_ancestor-IsFirst_example :
    (bs1 : List Block) × (bs2 : List Block) × (found : Option Block) × Lineage
      two_blocks.block_index base_block bs1
    × Lineage two_blocks.block_index next_block bs2
    × (find_common_ancestor plain_hash 2 (some base_block) (some next_block) two_blocks ≡ ok found)
    × IsFirst plain_hash (hashes_of plain_hash bs1) bs2 found
find_common_ancestor-IsFirst_example =
    find_common_ancestor-IsFirst two_blocks two_blocks_free plain_hash 2 base_block next_block
      two_blocks_rise base_IsAbove next_IsAbove (omega arith) (omega arith)

two_blocks_tip : last_of two_blocks.blocks ≡ some next_block
unfolding load_state
two_blocks_tip = refl

add_block_exact_example :
    AddsAs plain_hash accepts_marked first_key
      (λ b. true)
      9
      next_block
      two_blocks
      (validate_block plain_hash accepts_marked next_block two_blocks)
      (add_block plain_hash accepts_marked first_key (λ b. true) 9 (some next_block) two_blocks)
add_block_exact_example =
    add_block_exact plain_hash accepts_marked first_key (λ b. true) 9 next_block two_blocks
      two_blocks_free

two_blocks_blocks : two_blocks.blocks ≡ [] ++ (base_block ∷ next_block ∷ [])
unfolding load_state
two_blocks_blocks = refl
