-- ===== src/Bencode/Steps.antt =====
-- Runs of the loop of the decoder.
use browsertorrent.Common.{
  ℕ, zero, suc, ◌*◌, ◌≡◌, ◌≢◌, refl, sym, ◌∙◌, Bool, Option, none, some, List, [], length,
}
use browsertorrent.Bencode.{Value}
use browsertorrent.Bencode.Decode.{
  put_value, Frame, Decoder, Round, next, finished, thrown, DecodeError, Outcome, decoded, failed,
  out_of_fuel,
}
use browsertorrent.Bencode.Loop.{after_round, round, decode_loop, decode_one}
use browsertorrent.Bencode.Termination.{decode_one-halts}

abbrev pub at : List ℕ → List Frame → Option Value → Decoder
at rest fs o = record { rest = rest; stack = fs; current = o }

module _ (encode_text decode_text : List ℕ → List ℕ) (max_depth : ℕ)
    (use_map allow_unsorted : Bool) where
  -- The loop comes from the one state to the other: on any fuel there, with some more fuel here.
  abbrev pub Reaches : Decoder → Decoder → Type 0
  Reaches d d' =
      (fuel : ℕ)
      → (fuel' : ℕ) × (decode_loop encode_text decode_text max_depth use_map allow_unsorted fuel' d
          ≡ decode_loop encode_text decode_text max_depth use_map allow_unsorted fuel d')

  pub Reaches-trans : (a b c : Decoder) → Reaches a b → Reaches b c → Reaches a c
  Reaches-trans a b c f g fuel = let (n, e) = g fuel in let (m, h) = f n in (m, h ∙ e)

  pub Reaches-round :
      (d d' : Decoder)
      → round encode_text decode_text max_depth use_map allow_unsorted d.rest d.stack d.current
        ≡ next d'
      → Reaches d d'
  Reaches-round d d' e fuel = (suc fuel, unfold decode_loop after_round in rw e)

  -- The fuel makes no difference where it is enough.
  same_end :
      (n m : ℕ) (d : Decoder)
      → decode_loop encode_text decode_text max_depth use_map allow_unsorted n d ≢ out_of_fuel
      → decode_loop encode_text decode_text max_depth use_map allow_unsorted m d ≢ out_of_fuel
      → decode_loop encode_text decode_text max_depth use_map allow_unsorted n d
        ≡ decode_loop encode_text decode_text max_depth use_map allow_unsorted m d
  unfolding decode_loop after_round
  same_end zero m d h k = absurd (h refl)
  same_end (suc n) zero d h k = absurd (k refl)
  same_end (suc n) (suc m) d h k =
      go (round encode_text decode_text max_depth use_map allow_unsorted d.rest d.stack d.current)
        (λ d'. same_end n m d') h k
    where
      go :
          (r : Round)
          → ((d' : Decoder)
              → decode_loop encode_text decode_text max_depth use_map allow_unsorted n d'
                ≢ out_of_fuel
              → decode_loop encode_text decode_text max_depth use_map allow_unsorted m d'
                ≢ out_of_fuel
              → decode_loop encode_text decode_text max_depth use_map allow_unsorted n d'
                ≡ decode_loop encode_text decode_text max_depth use_map allow_unsorted m d')
          → after_round
              (λ d'. decode_loop encode_text decode_text max_depth use_map allow_unsorted n d')
              r
            ≢ out_of_fuel
          → after_round
              (λ d'. decode_loop encode_text decode_text max_depth use_map allow_unsorted m d')
              r
            ≢ out_of_fuel
          → after_round
              (λ d'. decode_loop encode_text decode_text max_depth use_map allow_unsorted n d')
              r
            ≡ after_round
                (λ d'. decode_loop encode_text decode_text max_depth use_map allow_unsorted m d')
                r
      go (next d') ih h k = ih d' h k
      go (finished v rest) ih h k = refl
      go (thrown e) ih h k = refl

  -- A run from the start to a state that ends in one round tells what the decoder returns.
  Reaches-ends :
      (input : List ℕ) (d : Decoder) (end : Outcome)
      → Reaches (at input [] none) d
      → decode_loop encode_text decode_text max_depth use_map allow_unsorted 1 d ≡ end
      → end ≢ out_of_fuel
      → decode_one encode_text decode_text max_depth use_map allow_unsorted input ≡ end
  Reaches-ends input d end run last ended =
      let (fuel, e) = run 1 in
      let ends : decode_loop encode_text decode_text max_depth use_map allow_unsorted fuel
            (at input [] none)
          ≡ end =
        e ∙ last in
      unfold decode_one in
      same_end (suc (length input * 2)) fuel (at input [] none)
        (unfold decode_one in
          decode_one-halts encode_text decode_text max_depth use_map allow_unsorted input)
        (λ none_left. ended (sym ends ∙ none_left))
      ∙ ends

  -- At a value on an empty stack, the decoder returns the value.
  pub Reaches-decoded :
      (input rest : List ℕ) (v : Value)
      → Reaches (at input [] none) (at rest [] (some v))
      → decode_one encode_text decode_text max_depth use_map allow_unsorted input ≡ decoded v rest
  Reaches-decoded input rest v run =
      Reaches-ends input (at rest [] (some v)) (decoded v rest) run
        (unfold decode_loop after_round round put_value in refl) (λ e. cc)

  -- At a round that throws, the decoder fails.
  pub Reaches-failed :
      (input : List ℕ) (d : Decoder) (e : DecodeError)
      → Reaches (at input [] none) d
      → round encode_text decode_text max_depth use_map allow_unsorted d.rest d.stack d.current
        ≡ thrown e
      → decode_one encode_text decode_text max_depth use_map allow_unsorted input ≡ failed e
  Reaches-failed input d e run throws =
      Reaches-ends input d (failed e) run (unfold decode_loop after_round in rw throws) (λ h. cc)
