-- ===== src/Protocol/Packets.antt =====
-- The layout of the packets' payloads: Protocol/protocol.h. A payload is a list of
-- bytes; the host is little-endian and the records are packed.
use pega_s.Prelude.{ℕ, List, [], ◌∷◌, ◌++◌}
use pega_s.ByteBuffer.{bytes_of_uint16, bytes_of_uint32}

-- `pkt_error_payload_t` and what follows it.
abbrev pub error_payload : ℕ → List ℕ → ℕ → List ℕ
error_payload error_code message message_length =
    error_code ∷ (bytes_of_uint16 message_length ++ message)

-- `pkt_sync_state_payload_t` or `pkt_reconnect_payload_t`, and the token.
abbrev pub token_payload : ℕ → List ℕ → ℕ → List ℕ
token_payload user_id token token_length =
    bytes_of_uint32 user_id ++ (bytes_of_uint16 token_length ++ token)

-- `pkt_session_state_payload_t`.
abbrev pub state_payload : ℕ → ℕ → ℕ → ℕ → ℕ → List ℕ
state_payload session_id max_card_value nbr_lign nbr_cards_lign nbr_cards_player =
    bytes_of_uint32 session_id
    ++ (bytes_of_uint16 max_card_value
        ++ (bytes_of_uint16 nbr_lign
            ++ (bytes_of_uint16 nbr_cards_lign ++ bytes_of_uint16 nbr_cards_player)))

-- `pkt_card_t`.
abbrev pub card_size : ℕ
card_size = 12

abbrev pub card_payload : ℕ → ℕ → ℕ → List ℕ
card_payload num number_head client_id =
    bytes_of_uint32 num ++ (bytes_of_uint32 number_head ++ bytes_of_uint32 client_id)

-- `pkt_player_score_t`.
abbrev pub score_size : ℕ
score_size = 5

abbrev pub score_payload : ℕ → ℕ → List ℕ
score_payload player_id nb_head = bytes_of_uint32 player_id ++ (nb_head ∷ [])
