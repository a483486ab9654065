-- ===== src/Bencode/Limits.antt =====
-- Nesting beyond the limit of the decoder.
use browsertorrent.Common.{
  ℕ, zero, suc, ◌+◌, ◌≤◌, ◌≡◌, refl, ◌∙◌, Bool, true, false, none, List, ◌∷◌, ◌++◌, length, leb,
  arith, replicate, length-replicate,
}
use browsertorrent.Bencode.{nil}
use browsertorrent.Bencode.Decode.{Frame, list_frame, next, depth_exceeded, failed}
use browsertorrent.Bencode.Loop.{round, read_more, read_next, on_token, open_container, decode_one}
use browsertorrent.Bencode.Steps.{at, Reaches, Reaches-trans, Reaches-round, Reaches-failed}

-- Opened lists on the stack.
abbrev opened : ℕ → List Frame
opened n = replicate n (list_frame nil)

module _ (encode_text decode_text : List ℕ → List ℕ) (max_depth : ℕ)
    (use_map allow_unsorted : Bool) where
  list_token :
      (n : ℕ) (rest : List ℕ)
      → round encode_text decode_text max_depth use_map allow_unsorted (108 ∷ rest) (opened n) none
        ≡ open_container encode_text decode_text max_depth use_map allow_unsorted 108 rest
            (opened n)
  unfolding round read_more read_next on_token
  list_token zero rest = refl
  list_token (suc n) rest = refl

  lists_open :
      (n m : ℕ) (rest : List ℕ)
      → n + m ≤ max_depth
      → Reaches encode_text decode_text max_depth use_map allow_unsorted
          (at (replicate n 108 ++ rest) (opened m) none)
          (at rest (opened (n + m)) none)
  lists_open zero m rest h =
      let none_left : 0 + m ≡ m = omega arith in rw none_left (λ fuel. (fuel, refl))
  lists_open (suc n) m rest h =
      let test : leb max_depth (length (opened m)) ≡ false =
        ground (arith, length-replicate m (list_frame nil)) in
      let tail : List ℕ = replicate n 108 ++ rest in
      let step : round encode_text decode_text max_depth use_map allow_unsorted (108 ∷ tail)
            (opened m) none
          ≡ next (at tail (opened (suc m)) none) =
        list_token m tail ∙ (unfold open_container in rw test) in
      let onward = lists_open n (suc m) rest (omega (arith, h)) in
      let sum : n + suc m ≡ suc n + m = omega arith in
      Reaches-trans encode_text decode_text max_depth use_map allow_unsorted _ _ _
        (Reaches-round encode_text decode_text max_depth use_map allow_unsorted
          (at (108 ∷ tail) (opened m) none) (at tail (opened (suc m)) none) step)
        (rw sum at onward)

  -- More lists inside one another than the limit are refused, whatever follows.
  pub decode_one-too_deep :
      (rest : List ℕ)
      → decode_one encode_text decode_text max_depth use_map allow_unsorted
          (replicate max_depth 108 ++ (108 ∷ rest))
        ≡ failed depth_exceeded
  decode_one-too_deep rest =
      let full : max_depth + 0 ≡ max_depth = omega arith in
      let run = lists_open max_depth 0 (108 ∷ rest) (omega arith) in
      let test : leb max_depth (length (opened max_depth)) ≡ true =
        ground (arith, length-replicate max_depth (list_frame nil)) in
      Reaches-failed encode_text decode_text max_depth use_map allow_unsorted _
        (at (108 ∷ rest) (opened max_depth) none) depth_exceeded (rw full at run)
        (list_token max_depth rest ∙ (unfold open_container in rw test))
