-- ===== src/Handshake/Laws.antt =====
-- `setExtension` and `hasExtension` on the eight reserved bytes.
use browsertorrent.Common.{
  ℕ, ◌^◌, ◌<◌, ◌≡◌, ◌≢◌, refl, sym, ap, ◌∙◌, Bool, true, false, inl, inr, List, [], ◌∷◌, arith,
  ◌==◌, if◌then◌else◌, ==_iff, ok, length, get_or, set, get_or-set_self, get_or-set_ne, length-set,
  Bool-cases, ◌⊎◌, ◌↔◌, set-get_or_self, bit_or,
}
use browsertorrent.Common.Words.{AllBytes, AllBytes-get_or, AllBytes-set}
use browsertorrent.Handshake.{
  HandshakeExtension, fast, extension_protocol, dht, v2, extension_byte, has_extension,
  set_extension, set_extensions, enabled_among, all_extensions,
}
use browsertorrent.Handshake.Extensions.{
  extension_index, mask_lem, index-lt, byte-lt, apart, with_bit, has_bit, has_bit-with_bit,
  with_bit-lt, with_bit_again,
}

-- Eight reserved bytes.
pub record IsReserved (reserved : List ℕ) : Type 0 where
  pub size : length reserved ≡ 8
  pub bytes : AllBytes reserved

has_extension-bit :
    (r : List ℕ) (e : HandshakeExtension)
    → length r ≡ 8
    → has_extension r e ≡ has_bit (get_or r (extension_byte e) 0) (4 ^ extension_index e)
unfolding has_extension
has_extension-bit r e size = rw (size, mask_lem e)

pub set_extension-eq-ok :
    (r : List ℕ) (e : HandshakeExtension) (on : Bool)
    → length r ≡ 8
    → set_extension r e on
      ≡ ok (
          set r
            (extension_byte e)
            (with_bit (get_or r (extension_byte e) 0) (4 ^ extension_index e) on))
unfolding set_extension
set_extension-eq-ok r e on size = rw (size, mask_lem e)

-- On eight reserved bytes `setExtension` succeeds; `hasExtension` then answers what was set for
-- this extension, and as before for every other. The result is eight bytes again.
pub has_extension-set_extension :
    (r : List ℕ) (e : HandshakeExtension) (on : Bool)
    → IsReserved r
    → (r' : List ℕ) × (set_extension r e on ≡ ok r')
      × IsReserved r'
      × (has_extension r' e ≡ on)
      × ((e' : HandshakeExtension) → e ≢ e' → has_extension r' e' ≡ has_extension r e')
has_extension-set_extension r e on v =
    let byte : ℕ = extension_byte e in
    let old : ℕ = get_or r byte 0 in
    let small : old < 256 = AllBytes-get_or r byte v.bytes in
    let new' : ℕ = with_bit old (4 ^ extension_index e) on in
    let r' : List ℕ = set r byte new' in
    let size : length r' ≡ 8 = length-set r byte new' ∙ v.size in
    let cell : get_or r' byte 0 ≡ new' =
      get_or-set_self r byte new' 0 (omega (arith, v.size, byte-lt e)) in
    let bit : (j : ℕ)
        → j < 3
        → has_bit new' (4 ^ j) ≡ (if extension_index e == j then on else has_bit old (4 ^ j)) =
      λ j lt. has_bit-with_bit old small (extension_index e) j on (index-lt e) lt in
    (
      r',
      set_extension-eq-ok r e on v.size,
      record {
        size = size;
        bytes =
            AllBytes-set r byte new' v.bytes
              (with_bit-lt old small (extension_index e) on (index-lt e));
      },
      has_extension-bit r' e size
          ∙ rw cell (
              bit (extension_index e) (index-lt e)
              ∙ rw ((==_iff (extension_index e) (extension_index e)).1 refl)),
      λ e' ne.
          has_extension-bit r' e' size
          ∙ (elim (apart e e' ne) [
            | inl far ↦ rw (get_or-set_ne r byte (extension_byte e') new' 0 far)
            | inr other ↦ elim (Bool-cases (byte == extension_byte e')) [
              | inl here ↦
                  let at : byte ≡ extension_byte e' = (==_iff _ _).0 here in
                  let unlike : (extension_index e == extension_index e') ≡ false = ground arith in
                  rw (← at, cell) (bit (extension_index e') (index-lt e') ∙ rw unlike)
              | inr there ↦ rw (get_or-set_ne r byte (extension_byte e') new' 0 (ground arith))
            ]
          ])
          ∙ sym (has_extension-bit r e' v.size),
    )

pub HandshakeExtension-discrete : Discrete HandshakeExtension
HandshakeExtension-discrete = hlevel

-- The extension stands in the list.
abbrev pub Named : HandshakeExtension → List HandshakeExtension → Type 0
Named e [] = ⊥
Named e (x ∷ xs) = (x ≡ e) ⊎ Named e xs

Named-dec : (e : HandshakeExtension) (es : List HandshakeExtension) → Dec (Named e es)
Named-dec e [] = no (λ h. h)
Named-dec e (x ∷ xs) = elim (HandshakeExtension-discrete x e) [
  | yes p ↦ yes (inl p)
  | no p ↦ elim (Named-dec e xs) [
    | yes q ↦ yes (inr q)
    | no q ↦ no (elim [ inl h ↦ p h | inr h ↦ q h ])
  ]
]

-- On eight reserved bytes the loop of `encodeHandshake` over the extensions succeeds with eight
-- bytes, in which every extension of the list is on, and every other is as it was.
pub set_extensions_lem :
    (r : List ℕ) (es : List HandshakeExtension)
    → IsReserved r
    → (r' : List ℕ) × (set_extensions r es ≡ ok r')
      × IsReserved r'
      × ((e : HandshakeExtension) → Named e es → has_extension r' e ≡ true)
      × ((e : HandshakeExtension) → ¬ Named e es → has_extension r' e ≡ has_extension r e)
unfolding set_extensions
set_extensions_lem r [] v = (r, refl, v, λ e h. absurd h, λ e h. refl)
set_extensions_lem r (x ∷ xs) v =
    let (r1, set1, v1, on1, same1) = has_extension-set_extension r x true v in
    let (r', sets, v', on, same) = set_extensions_lem r1 xs v1 in
    (
      r',
      rw set1 sets,
      v',
      λ e h. elim (Named-dec e xs) [
        | yes q ↦ on e q
        | no q ↦
            same e q
            ∙ (elim h [ inl at ↦ ap (has_extension r1) (sym at) ∙ on1 | inr q' ↦ absurd (q q') ])
      ],
      λ e h. same e (λ q. h (inr q)) ∙ same1 e (λ at. h (inl at)),
    )

-- An extension stands among those of a list that are found on exactly when it stands in the list
-- and `hasExtension` answers that it is on.
pub Named-enabled_among :
    (r : List ℕ) (e : HandshakeExtension) (es : List HandshakeExtension)
    → Named e (enabled_among r es) ↔ (Named e es × (has_extension r e ≡ true))
unfolding enabled_among
Named-enabled_among r e [] = (λ h. absurd h, λ h. h.0)
Named-enabled_among r e (x ∷ xs) =
    let (there, back) = Named-enabled_among r e xs in
    elim (Bool-cases (has_extension r x)) [
      | inl on ↦ rw on (
        elim [ inl at ↦ (inl at, rw (← at) on) | inr h ↦ (inr (there h).0, (there h).1) ],
        λ h. elim h.0 [ inl at ↦ inl at | inr q ↦ inr (back (q, h.1)) ],
      )
      | inr off ↦ rw off (
        λ h. (inr (there h).0, (there h).1),
        λ h. elim h.0 [ inl at ↦ cc (ap (has_extension r) at, h.1) | inr q ↦ back (q, h.1) ],
      )
    ]

pub Named-all_extensions : (e : HandshakeExtension) → Named e all_extensions
Named-all_extensions fast = inl refl
Named-all_extensions extension_protocol = inr (inl refl)
Named-all_extensions dht = inr (inr (inl refl))
Named-all_extensions v2 = inr (inr (inr (inl refl)))

set_extension_again :
    (r : List ℕ) (e : HandshakeExtension)
    → IsReserved r
    → has_extension r e ≡ true
    → set_extension r e true ≡ ok r
set_extension_again r e v on =
    let byte : ℕ = extension_byte e in
    let old : ℕ = get_or r byte 0 in
    let same : bit_or old (4 ^ extension_index e) ≡ old =
      with_bit_again old (AllBytes-get_or r byte v.bytes) (extension_index e) (index-lt e)
        (sym (has_extension-bit r e v.size) ∙ on) in
    set_extension-eq-ok r e true v.size
    ∙ ap (λ t. ok (set r byte t)) same
    ∙ ap ok (set-get_or_self r byte 0)

-- On eight reserved bytes, setting those extensions of a list that are on succeeds and changes
-- nothing.
pub set_extensions-enabled_among :
    (r : List ℕ) (es : List HandshakeExtension)
    → IsReserved r
    → set_extensions r (enabled_among r es) ≡ ok r
unfolding set_extensions enabled_among
set_extensions-enabled_among r [] v = refl
set_extensions-enabled_among r (x ∷ xs) v = elim (Bool-cases (has_extension r x)) [
  | inl on ↦ rw on (rw (set_extension_again r x v on) (set_extensions-enabled_among r xs v))
  | inr off ↦ rw off (set_extensions-enabled_among r xs v)
]
