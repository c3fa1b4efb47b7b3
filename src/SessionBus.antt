-- ===== src/SessionBus.antt =====
-- The messages between the server's thread and a session's, and the two rings that carry them:
-- SupportStructure/session_bus.h and session_bus.c. The wake-up through `event_fd` is the kernel's.
use pega_s.Prelude.{ℕ, Bool, Option, none, some, List, ℤ, if◌then◌else◌, ◌&&◌}
use pega_s.Ring.{Ring, init, destroy, push as ring_push}

abbrev pub sp_max_frame : ℕ
sp_max_frame = 4096

-- `system_message_type_t`.
pub data SystemType : Type 0 where
  session_unregister session_unregistered user_connected user_disconnected : SystemType
  user_unregister user_left update_state add_bot : SystemType

-- `system_message_t`. The code leaves the fields unset that the message's type does not use; they
-- are 0 here, and no reader looks at them.
pub record SystemMessage : Type 0 where
  pub message_type : SystemType
  pub session_id : ℕ
  pub user_id : ℕ
  pub bot_difficulty : ℕ

-- `user_message_t`; the first `payload_length` bytes of `buf`.
pub record UserMessage : Type 0 where
  pub client_id : ℕ
  pub packet_type : ℕ
  pub payload : List ℕ

-- `session_message_t`.
pub data Message : Type 0 where
  system : SystemMessage → Message
  user : UserMessage → Message

-- `session_bus_t`, without the descriptors.
pub record SessionBus : Type 0 where
  pub session_id : ℕ
  pub read_queue : Ring Message
  pub write_queue : Ring Message

-- Whether `buffer_init` succeeded.
abbrev pub done : ℤ → Bool
done (ℤ.pos ℕ.zero) = Bool.true
done (ℤ.pos (ℕ.suc n)) = Bool.false
done (ℤ.negsuc n) = Bool.false

-- What malloc and eventfd give to `create_session_bus`.
pub record BusBlocks : Type 0 where
  pub bus_block : Bool
  pub read_fd : Bool
  pub write_fd : Bool
  pub read_block : Option (List Message)
  pub write_block : Option (List Message)

-- The fresh record's rings are not set; `init` sets each of them whole when it succeeds.
unfoldable pub create_session_bus : BusBlocks → Ring Message → ℕ → ℕ → Option SessionBus
create_session_bus blocks unset capacity session_id =
    let read = init unset capacity 8 blocks.read_block in
    let write = init unset capacity 8 blocks.write_block in
    if blocks.bus_block && (blocks.read_fd && (blocks.write_fd && (done read.0 && done write.0)))
    then some (record { session_id = session_id; read_queue = read.1; write_queue = write.1 })
    else none

unfoldable pub destroy_session_bus : SessionBus → SessionBus
destroy_session_bus bus = record bus {
  read_queue = destroy bus.read_queue;
  write_queue = destroy bus.write_queue;
}

unfoldable pub session_bus_push : Ring Message → Message → Option (ℤ × Ring Message)
session_bus_push queue message = ring_push queue message
