-- ===== src/Network/Message.antt =====
-- Network/net_defs.h and Network/net_message_item.cpp: the limits on sizes, and a message that is
-- sent or waits. A time is a number of nanoseconds since the epoch, which is the default of a time
-- point. A callback is modelled by whether it is set: who is called, and with what, is an event.
use helpz.Prelude.{ℕ, ◌-◌, ◌*◌, ◌/◌, Bool, false, Option, none, ltb, if◌then◌else◌, Bytes}

abbrev pub max_udp_packet_size : ℕ
max_udp_packet_size = 65507

abbrev pub max_packet_data_size : ℕ
max_packet_data_size = max_udp_packet_size - 17

abbrev pub max_message_data_size : ℕ
max_message_data_size = max_packet_data_size / 2

abbrev pub protocol_max_message_size : ℕ
protocol_max_message_size = 2147483648

abbrev pub ms : ℕ → ℕ
ms n = n * 1000000

abbrev pub seconds : ℕ → ℕ
seconds n = n * 1000000000

-- A device with its position.
pub record Buffer : Type 0 where
  pub bytes : Bytes
  pub pos : ℕ

pub record MessageItem : Type 0 where
  pub id : Option ℕ
  pub answer_id : Option ℕ
  pub resend_timeout : ℕ
  pub end_time : ℕ
  pub data_device : Option Buffer
  pub answer_func : Bool
  pub timeout_func : Bool
  pub finally_func : Bool
  pub cmd : ℕ
  pub flags : ℕ
  pub fragment_size : ℕ
  pub min_compress_size : ℕ

unfoldable pub message_item : ℕ → Option ℕ → Option Buffer → ℕ → MessageItem
message_item command answer_id device resend_timeout = record {
  id = none;
  answer_id = answer_id;
  resend_timeout = resend_timeout;
  end_time = 0;
  data_device = device;
  answer_func = false;
  timeout_func = false;
  finally_func = false;
  cmd = command;
  flags = 0;
  fragment_size = max_message_data_size;
  min_compress_size = 512;
}

unfoldable pub set_flags : ℕ → MessageItem → MessageItem
set_flags flags msg = record msg { flags = flags }

-- `set_fragment_size` keeps the size between 32 and what a packet holds.
unfoldable pub set_fragment_size : ℕ → MessageItem → MessageItem
set_fragment_size size msg = record msg {
  fragment_size =
      if ltb size 32
      then 32
      else if ltb max_packet_data_size size
      then max_packet_data_size
      else size;
}

unfoldable pub set_min_compress_size : ℕ → MessageItem → MessageItem
set_min_compress_size size msg = record msg { min_compress_size = size }
