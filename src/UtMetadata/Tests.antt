-- ===== src/UtMetadata/Tests.antt =====
-- A transfer of five bytes of metadata in one piece, written out.
use browsertorrent.Common.{
  ◌++◌, ℕ, List, ok, length, arith, ◌*◌, ◌+◌, ◌≡◌, ◌≤◌, refl, true, false, some, none, [], ◌∷◌,
  replicate,
}
use browsertorrent.Common.Int.{pos}
use browsertorrent.UtMetadata.{
  UtMetadata, Bencode, done, state, note_request, Message, piece_data, request, send, start_timer,
  initial, empty_bitfield, attempts_after, ExtendedHandshake, m_object, absent, number,
  on_extended_handshake, fetch, piece_count, valid_size, request_pieces, request_from,
  request_piece, find_request, put_request, send_message, send_to, emit, clear_request_timer,
}
use browsertorrent.UtMetadata.Counts.{sends, timeout_warnings}
use browsertorrent.UtMetadata.Retries.{
  timeouts, timeouts_never_warn, rejects, rejects_bounded, pos_part,
}
use browsertorrent.UtMetadata.Buffer.{on_extended_handshake_overwrites, fetch_forgets}
use browsertorrent.UtMetadata.Sized.{Sized}
use browsertorrent.Bencode.{Value, text_key, dict, Entries, entry, end}
use browsertorrent.Bencode.Decimal.{decimal, decimal_int, digits}
use browsertorrent.Bencode.Encode.{
  encode, encode_sorted, sort_entries, insert_entry, write_entries, encode_bytes, encode_integer,
}
use browsertorrent.Bencode.Canonical.{Canonical, depth}
use browsertorrent.UtMetadata.Info.{codec, info_name, info_bytes-encode}
use browsertorrent.UtMetadata.Codec.{message_buffer, read_message, read_message-message_buffer}
use browsertorrent.UtMetadata.Steps.{handshake, message, step, new, after, reachable-Sized}

abbrev any_bytes : Bencode
any_bytes = record { decodes = λ bytes. true; info_bytes = λ bytes. none }

abbrev five_bytes : ExtendedHandshake
five_bytes = m_object (number (pos 3)) (number (pos 5)) absent

-- The state after the peer announced five bytes.
abbrev announced : UtMetadata
announced = record {
  metadata_complete = false;
  fetching = true;
  metadata_size = some 5;
  num_pieces = 1;
  remaining_rejects = pos 2;
  bitfield = empty_bitfield 1;
  metadata = some (replicate 5 0);
  requested = record { piece = 0; attempts = 1; timer = 0 } ∷ [];
  extension_id = some (pos 3);
  next_timer = 1;
  wire_accepts = λ id m. true;
  effects = send (pos 3) (request 0) ∷ start_timer 0 0 ∷ [];
}

abbrev complete : UtMetadata
complete = record announced {
  fetching = false;
  metadata_complete = true;
  metadata = some (1 ∷ 2 ∷ 3 ∷ 4 ∷ 5 ∷ []);
  requested = [];
}

announces : on_extended_handshake five_bytes (initial (λ id m. true)) ≡ done announced
unfolding on_extended_handshake valid_size request_pieces request_from request_piece find_request
    put_request note_request send_message send_to emit clear_request_timer initial attempts_after
announces = refl

timeouts_never_warn_example :
    (sends (timeouts any_bytes false 4 0 announced).effects ≡ sends announced.effects + 4)
    × (timeout_warnings (timeouts any_bytes false 4 0 announced).effects
        ≡ timeout_warnings announced.effects)
timeouts_never_warn_example =
    timeouts_never_warn any_bytes false 4 0 announced (pos 3) refl refl refl

rejects_bounded_example :
    sends (rejects (0 ∷ 0 ∷ 0 ∷ []) announced).effects ≤ sends announced.effects + pos_part (pos 2)
rejects_bounded_example = rejects_bounded (0 ∷ 0 ∷ 0 ∷ []) announced

five : valid_size (number (pos 5)) ≡ some 5
unfolding valid_size
five = refl

on_extended_handshake_overwrites_example :
    (let s' = state (on_extended_handshake five_bytes complete) in
      (s'.metadata ≡ some (replicate 5 0))
      × (s'.metadata_size ≡ some 5)
      × (s'.fetching ≡ true)
      × (s'.metadata_complete ≡ true)
      × (s'.num_pieces ≡ piece_count 5)
      × (s'.extension_id ≡ some (pos 3)))
on_extended_handshake_overwrites_example =
    on_extended_handshake_overwrites five_bytes complete (pos 3) 5 refl five

fetch_forgets_example :
    ((state (fetch announced)).metadata ≡ some (replicate 5 0))
    × ((state (fetch announced)).bitfield ≡ announced.bitfield)
    × ((state (fetch announced)).fetching ≡ true)
fetch_forgets_example = fetch_forgets announced 4 refl refl

-- The peer announces five bytes and sends them.
abbrev transfer : UtMetadata
transfer = state (
    step any_bytes false (message 1 0 (1 ∷ 2 ∷ 3 ∷ 4 ∷ 5 ∷ []))
      (state (step any_bytes false (handshake five_bytes) (initial (λ id m. true)))))

reachable-Sized_example : Sized transfer
reachable-Sized_example = reachable-Sized any_bytes false transfer (
    after (message 1 0 (1 ∷ 2 ∷ 3 ∷ 4 ∷ 5 ∷ [])) _
      (after (handshake five_bytes) _ (new (λ id m. true))))

abbrev own_code : List ℕ → List ℕ
own_code t = t

-- The second piece, with the size of the metadata and three bytes.
abbrev piece_message : Message
piece_message = piece_data 1 (some 16387) (1 ∷ 2 ∷ 3 ∷ [])

read_message-message_buffer_example :
    (buffer : List ℕ) × (message_buffer own_code piece_message ≡ ok buffer)
    × (length buffer ≤ 64 * 1024 * 1024
        → read_message own_code own_code buffer ≡ some (1, 1, 1 ∷ 2 ∷ 3 ∷ []))
read_message-message_buffer_example =
    read_message-message_buffer own_code own_code (record { forth = λ t h. refl })
      (record { forth = λ bs h. refl; back = λ bs t h l e. e }) piece_message
      (omega arith, omega arith)

-- "d1:ai1ee" and "d4:infod1:ai1eee"
abbrev info_value : Value
info_value = dict (entry (text_key (97 ∷ [])) (Value.number (pos 1)) end)

abbrev info_file : List ℕ
info_file = 100 ∷ 49 ∷ 58 ∷ 97 ∷ 105 ∷ 49 ∷ 101 ∷ 101 ∷ []

abbrev torrent_entries : Entries
torrent_entries = entry (text_key info_name) info_value end

abbrev torrent_file : List ℕ
torrent_file = 100 ∷ 52 ∷ 58 ∷ 105 ∷ 110 ∷ 102 ∷ 111 ∷ (info_file ++ (101 ∷ []))

info_encodes : encode own_code info_value ≡ ok info_file
unfolding encode encode_sorted sort_entries insert_entry write_entries encode_bytes encode_integer
    decimal_int decimal digits
info_encodes = refl

torrent_encodes : encode own_code (dict torrent_entries) ≡ ok torrent_file
unfolding encode encode_sorted sort_entries insert_entry write_entries encode_bytes encode_integer
    decimal_int decimal digits
torrent_encodes = refl

torrent-Canonical : Canonical own_code own_code false (dict torrent_entries)
unfolding Canonical
torrent-Canonical = (
  refl,
  (
    ((refl, refl), λ h. refl),
    (omega arith, (omega arith, (omega arith, (omega arith, tt)))),
    omega arith,
    tt,
    (refl, (((refl, refl), λ h. refl), (omega arith, tt), omega arith, tt, refl, tt)),
    tt,
  ),
)

torrent-depth : depth (dict torrent_entries) ≤ 1000
unfolding depth
torrent-depth = omega arith

info_bytes-encode_example :
    ((codec own_code own_code).decodes torrent_file ≡ true)
    × ((codec own_code own_code).info_bytes torrent_file ≡ some info_file)
info_bytes-encode_example =
    info_bytes-encode own_code own_code (record { forth = λ bs h. refl; back = λ bs t h l e. e })
      torrent_entries info_value torrent_file info_file torrent-Canonical torrent-depth
      torrent_encodes (omega arith) refl refl info_encodes
