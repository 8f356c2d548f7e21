-- ===== src/Vm/Shuffle.antt =====
-- handleDup and handleSwap of src/vm/instruction_handlers.cpp against lists.
use deo.Prelude.{
  ℕ, suc, ◌+◌, ◌-◌, ◌<◌, ◌≡◌, refl, ap, ◌∙◌, le→ltb, List, [], ◌∷◌, ◌++◌, length, length-append,
  arith,
}
use deo.Prelude.Run.{ok}
use deo.Uint256.{Uint256}
use deo.Vm.State.{VmState}
use deo.Vm.Arithmetic.{move, restore, swap_moved, handle_dup, handle_swap}

move-append : (xs r temp : List Uint256) → move (length xs) (xs ++ r) temp ≡ (r, restore xs temp)
unfolding move restore
move-append [] r temp = refl
move-append (x ∷ xs) r temp = move-append xs r (x ∷ temp)

restore-restore : (xs temp s : List Uint256) → restore (restore xs temp) s ≡ restore temp (xs ++ s)
unfolding restore
restore-restore [] temp s = refl
restore-restore (x ∷ xs) temp s = restore-restore xs (x ∷ temp) s

length-restore : (xs temp : List Uint256) → length (restore xs temp) ≡ length xs + length temp
unfolding restore
length-restore [] temp = omega arith
length-restore (x ∷ xs) temp = omega (arith, length-restore xs (x ∷ temp))

swap_moved_lem :
    (st : VmState) (y : Uint256) (r temp : List Uint256)
    → 0 < length temp
    → swap_moved st (y ∷ r, temp) ≡ ok (record st { stack = y ∷ restore temp r })
unfolding restore
swap_moved_lem st y r [] h = absurd (omega arith)
swap_moved_lem st y r (b ∷ temp) h = refl

module _ (st : VmState) (n : ℕ) (y : Uint256) (xs r : List Uint256)
    (shape : st.stack ≡ xs ++ (y ∷ r)) where
  tall : length st.stack ≡ length xs + suc (length r)
  tall = rw shape (length-append xs (y ∷ r))

  -- DUPn pushes a copy of the n-th word and leaves the rest.
  pub handle_dup_exact :
      length xs + 1 ≡ n → handle_dup n st ≡ ok (record st { stack = y ∷ st.stack })
  unfolding handle_dup restore
  handle_dup_exact e =
      let count : n - 1 ≡ length xs = omega arith in
      let back = restore-restore xs [] (y ∷ r) in
      rw (le→ltb (length st.stack) n (omega (arith, tall)), count, shape, move-append xs (y ∷ r) [])
        (rw (back, ← shape) refl)

  -- SWAPn takes the word under the top n words to the top and moves those down by one.
  pub handle_swap_rotates :
      length xs ≡ n → 0 < n → handle_swap n st ≡ ok (record st { stack = y ∷ (xs ++ r) })
  unfolding handle_swap restore
  handle_swap_rotates e pos =
      let some_moved : 0 < length (restore xs []) = omega (arith, length-restore xs []) in
      rw
        (
          le→ltb (length st.stack) (n + 1) (omega (arith, tall)),
          ← e,
          shape,
          move-append xs (y ∷ r) [],
        )
        (swap_moved_lem st y r (restore xs []) some_moved
          ∙ ap (λ (t : List Uint256). ok (record st { stack = y ∷ t })) (restore-restore xs [] r))
