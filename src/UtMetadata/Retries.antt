-- ===== src/UtMetadata/Retries.antt =====
-- Requests that time out or are rejected.
use browsertorrent.Common.{
  ℕ, zero, suc, ◌+◌, ◌≤◌, ◌≡◌, refl, ap, ◌∙◌, Bool, true, none, some, List, [], ◌∷◌, arith,
  Bool-cases, inl, inr, ◌&&◌, &&-eq-true,
}
use browsertorrent.Common.Int.{ℤ, pos, negsuc, sub_ℕ, is_positive}
use browsertorrent.UtMetadata.{
  UtMetadata, Bencode, Effect, Message, Warning, PieceRequest, warning, emit, find_request,
  delete_request, attempts_after, drop_request, request_piece, Outcome, done, thrown, and_then,
  state, on_reject, handle_timeout,
}
use mathlib.Core.Path.{subst}
use browsertorrent.UtMetadata.Frame.{Frame, request_piece-Frame, drop_request-Frame}
use browsertorrent.UtMetadata.Counts.{
  sends, timeout_warnings, sends-append, SendsOne, clear_request_timer-counts,
  request_piece-SendsOne, request_piece-counts,
}

find-delete :
    (piece : ℕ) (rs : List PieceRequest) → find_request piece (delete_request piece rs) ≡ none
unfolding find_request delete_request
find-delete piece [] = refl
find-delete piece (r ∷ rs) = ground (arith, find-delete piece rs)

drop_request-counts :
    (piece : ℕ) (s : UtMetadata) → sends (drop_request piece s).effects ≡ sends s.effects
unfolding drop_request
drop_request-counts piece s = (clear_request_timer-counts (find_request piece s.requested) s).0

-- While metadata is fetched, a timeout repeats the request with one attempt noted, since the
-- request is deleted before its attempts are read.
handle_timeout-fetching :
    (codec : Bencode) (peer_has : Bool) (piece : ℕ) (s : UtMetadata)
    → s.fetching ≡ true
    → handle_timeout codec peer_has piece s
      ≡ request_piece piece (record s { requested = delete_request piece s.requested })
unfolding handle_timeout attempts_after
handle_timeout-fetching codec peer_has piece s h = rw (h, find-delete piece s.requested)

-- The state after a number of timeouts of one piece, up to those that throw.
pub timeouts : Bencode → Bool → ℕ → ℕ → UtMetadata → UtMetadata
timeouts codec peer_has zero piece s = s
timeouts codec peer_has (suc n) piece s =
    timeouts codec peer_has n piece (state (handle_timeout codec peer_has piece s))

-- While metadata is fetched, the peer's extension ID is known and the wire takes the request for a
-- piece, any number of timeouts of that piece sends the request again that many times, and no
-- timeout warning is ever given: the bound of three attempts is never reached.
pub timeouts_never_warn :
    (codec : Bencode) (peer_has : Bool) (n piece : ℕ) (s : UtMetadata) (id : ℤ)
    → s.fetching ≡ true
    → s.extension_id ≡ some id
    → s.wire_accepts id (Message.request piece) ≡ true
    → (sends (timeouts codec peer_has n piece s).effects ≡ sends s.effects + n)
      × (timeout_warnings (timeouts codec peer_has n piece s).effects ≡ timeout_warnings s.effects)
unfolding timeouts
timeouts_never_warn codec peer_has zero piece s id h known accepts = (omega arith, refl)
timeouts_never_warn codec peer_has (suc n) piece s id h known accepts =
    let t : UtMetadata = record s { requested = delete_request piece s.requested } in
    let (u, returns, one, quiet) = request_piece-counts piece t id known accepts in
    let e : state (handle_timeout codec peer_has piece s) ≡ u =
      ap state (handle_timeout-fetching codec peer_has piece s h ∙ returns) in
    let f : Frame t u = subst (λ o. Frame t (state o)) returns (request_piece-Frame piece t) in
    let (more, silent) =
      timeouts_never_warn codec peer_has n piece u id (f.fetching ∙ h) (f.extension_id ∙ known)
        (ap (λ a. a id (Message.request piece)) f.wire_accepts ∙ accepts) in
    (
      ap (λ r. sends (timeouts codec peer_has n piece r).effects) e ∙ omega (arith, more, one),
      ap (λ r. timeout_warnings (timeouts codec peer_has n piece r).effects) e ∙ silent ∙ quiet,
    )

abbrev pub pos_part : ℤ → ℕ
pos_part (pos n) = n
pos_part (negsuc n) = 0

-- The state after the peer rejected these pieces, in this order.
pub rejects : List ℕ → UtMetadata → UtMetadata
rejects [] s = s
rejects (piece ∷ pieces) s = rejects pieces (state (on_reject piece s))

pos_part-sub_ℕ : (a : ℤ) → is_positive a ≡ true → pos_part (sub_ℕ a 1) + 1 ≡ pos_part a
pos_part-sub_ℕ (pos n) h = ground arith
pos_part-sub_ℕ (negsuc n) h = cc

-- A rejection sends at most one message, and pays for it with one of `_remainingRejects`.
on_reject-counts :
    (piece : ℕ) (s : UtMetadata)
    → sends (state (on_reject piece s)).effects
        + pos_part (state (on_reject piece s)).remaining_rejects
      ≤ sends s.effects + pos_part s.remaining_rejects
unfolding on_reject
on_reject-counts piece s =
    let t : UtMetadata = drop_request piece s in
    let f = drop_request-Frame piece s in
    let dropped = drop_request-counts piece s in
    let left = ap pos_part f.remaining_rejects in
    elim (Bool-cases (is_positive t.remaining_rejects && t.fetching)) [
      | inl again ↦
          let positive = (&&-eq-true (is_positive t.remaining_rejects) t.fetching again).0 in
          let paid =
            pays t (request_piece piece t) positive (request_piece-SendsOne piece t)
              (request_piece-Frame piece t) in
          rw again (omega (arith, paid, dropped, left))
      | inr stop ↦
          let w : List Effect = warning Warning.too_many_rejects ∷ [] in
          rw stop (unfold emit sends in omega (arith, sends-append t.effects w, dropped, left))
    ]
  where
    pays :
        (t : UtMetadata) (o : Outcome)
        → is_positive t.remaining_rejects ≡ true
        → SendsOne t o
        → Frame t (state o)
        → let u = state (
            and_then
              (λ r. done (record r { remaining_rejects = sub_ℕ r.remaining_rejects 1 }))
              o) in
          sends u.effects + pos_part u.remaining_rejects
          ≤ sends t.effects + pos_part t.remaining_rejects
    pays t (done u) positive h g = omega (
      arith,
      h.0,
      ap (λ r. pos_part (sub_ℕ r 1)) g.remaining_rejects,
      pos_part-sub_ℕ t.remaining_rejects positive,
    )
    pays t (thrown u) positive h g = omega (arith, h.0, ap pos_part g.remaining_rejects)

-- However many pieces the peer rejects, the messages sent in answer are at most as many as
-- `_remainingRejects` was.
pub rejects_bounded :
    (pieces : List ℕ) (s : UtMetadata)
    → sends (rejects pieces s).effects ≤ sends s.effects + pos_part s.remaining_rejects
unfolding rejects
rejects_bounded [] s = omega arith
rejects_bounded (piece ∷ pieces) s =
    omega (arith, rejects_bounded pieces (state (on_reject piece s)), on_reject-counts piece s)
