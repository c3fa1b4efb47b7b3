-- ===== src/Protocol/Pkt.antt =====
-- `packet_type_t` of Protocol/protocol.h.
use pega_s.Prelude.{ℕ}

abbrev pub ping : ℕ
ping = 1

abbrev pub pong : ℕ
pong = 2

abbrev pub hello : ℕ
hello = 3

abbrev pub welcome : ℕ
welcome = 4

abbrev pub register : ℕ
register = 5

abbrev pub reconnect : ℕ
reconnect = 6

abbrev pub unregister : ℕ
unregister = 7

abbrev pub unregister_return : ℕ
unregister_return = 8

abbrev pub sync_state : ℕ
sync_state = 9

abbrev pub get_session_list : ℕ
get_session_list = 100

abbrev pub session_list : ℕ
session_list = 101

abbrev pub session_join : ℕ
session_join = 10

abbrev pub session_leave : ℕ
session_leave = 11

abbrev pub session_create : ℕ
session_create = 12

abbrev pub session_close : ℕ
session_close = 13

abbrev pub session_set_game_rules : ℕ
session_set_game_rules = 14

abbrev pub session_state : ℕ
session_state = 15

abbrev pub add_bot : ℕ
add_bot = 16

abbrev pub start_session : ℕ
start_session = 17

abbrev pub session_info : ℕ
session_info = 19

abbrev pub session_info_return : ℕ
session_info_return = 20

abbrev pub request_extra : ℕ
request_extra = 21

abbrev pub response_extra : ℕ
response_extra = 22

abbrev pub phase_result : ℕ
phase_result = 23

abbrev pub session_end : ℕ
session_end = 24

abbrev pub error : ℕ
error = 255
