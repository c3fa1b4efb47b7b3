-- ===== src/Lib.antt =====
-- A server for the card game "6 nimmt" in C. Clients send packets to the server thread, which cuts
-- them out of a receive buffer for each connection and hands them over lock-free rings to the
-- threads of the sessions; a session keeps its players and one game, and places the cards that
-- they play. Tables from descriptors and ids to pointers keep connections, clients and sessions.
--
-- Each file opens with the source file that it models. All of them model functions as functions:
-- what a function changes through a pointer is an argument and is returned beside the result.
-- `none` as the result of a whole function is undefined behaviour of C, an access out of a block's
-- bounds or through a null pointer, so a theorem that something is returned says there is none; in
-- LogBus and Connection it is also a call that still waits for another thread or for the kernel.
--
-- Prelude: numbers, lists, options, loads and stores, the widths of words.
-- Ring: src/SupportStructure/spsc_buffer.c. The ring, its invariant, the bounded queue that it
--   implements (Ring/Queue) and the refinement (Ring/Refine).
-- FdMap: src/SupportStructure/fd_map.c. The growing table; FdMap/Laws reads it as a map.
-- Protocol: src/Protocol/protocol.c, the packets' header, and src/Protocol/proto_io.c, the
--   receive buffer (Protocol/Rx). Protocol/Encode is about headers, Protocol/Stream about the
--   bytes received, and Protocol/Payload about what the caller reads.
-- SessionBus: src/SupportStructure/session_bus.c, the messages between the threads, and the
--   rings that carry them.
-- Session: src/Session/session.c. The seats are in Session and Session/Seats, Session/Members
--   and Session/Join are about `add_player`, Session/Leave has `remove_player` and
--   `change_player_role`. Session/Move has `start_move` of Session/Game/game_packet.c and
--   Session/Play the packets of the game; Session/Send has the packets sent, of
--   Session/session_packet.c; Session/Result and Session/Handle have the handlers of
--   Session/message_handler.c. Session/Sound says when a session is in order, Session/Info is
--   about sending the packets that show the game, Session/Filled about their size, Session/Report
--   about the report of a play, Session/Choose about a card that is chosen, and Session/Turn about
--   a player's packet as a whole; Session/Roster, Session/Removed and Session/Remove are about
--   `remove_player`.
-- LogBus: src/SupportStructure/log_bus.c. LogBus/Refine is about each call, LogBus/Run about any
--   calls in order.
-- Connection: the bytes queued for a connection, of src/Protocol/proto_io.c, src/Server/server.c
--   and src/Server/server_client.c. Connection/Written and Connection/Enqueued are about
--   `handle_write`, Connection/Message about `enqueue_message`.
-- Bot: how a bot chooses a card, with `shuffle`, of src/Bot/bot_high_dif.c. Bot/Danger is level
--   0, of src/Bot/bot_play.c, Bot/Best is level 1, of src/Bot/bot_high_dif.c, with Bot/Enemy and
--   Bot/Step for what it simulates, and Bot/Deep the higher levels, of src/Bot/bot_test_dif.c.
--   Bot/Choice is about level 0, Bot/Shuffle about the shuffle, Bot/Rivals and Bot/Guess about
--   what another player is thought to play, Bot/Played and Bot/Simulated about a simulated turn,
--   and Bot/Blind about the higher levels.
-- ByteBuffer: src/SupportStructure/bytebuffer.c. ByteBuffer/Fields is about one put,
--   ByteBuffer/Get about gets, and ByteBuffer/Round about the two together.
-- Player: src/Session/player.c.
-- Game: src/Session/Game/game.c, with the dealing in Game/Deal, and, in Game/Place, game_alt.c.
--   Game/Shuffle and Game/Ids are about shuffled decks, Game/Dealt about the hands, Game/Board
--   about the board, Game/Heads about the deck and Game/Distrib about the whole of
--   `distrib_cards`; Game/Visible models the search for a card in Session/Game/game_packet.c.
--   Game/Row is about `take_line`, Game/Smallest and Game/Closest about the searches of
--   `place_card`, Game/Table about the boards, hands and seats that a session sets up, Game/Turn
--   about a round of `place_card`, Game/Hands about players with no card left, and Game/Outcome
--   and Game/Frame about the whole.
--
-- Integers are natural numbers, with the wrap-around of a field or a cast written out where the
-- code stores into a narrower type; an `int` that is a card's index or -1 is an option. A loop
-- recurs on the rounds that its bound leaves, so no fuel is invented; only `handle_write` and a
-- push that blocks run on what the kernel or the other threads do, which is a list, and the
-- theorems say how long a list is enough. What malloc, realloc and getrandom return is an
-- argument, but that malloc is taken to succeed for the packets of Session/Send.
--
-- Not modelled: sockets, epoll, timers, the log file, the terminal and the threads themselves,
-- which are input and output; what the log is told; freeing of records that nothing reads again;
-- the server's clients, sessions and packet handlers, the bots' packets, and the user's client.
pub mod Prelude
pub mod Bot
pub mod ByteBuffer
pub mod Connection
pub mod FdMap
pub mod Game
pub mod LogBus
pub mod Player
pub mod Protocol
pub mod Ring
pub mod Session
pub mod SessionBus
