-- ===== src/Network/Sender.antt =====
-- `Protocol_Sender` in Network/net_protocol_sender.cpp, `Protocol::send` and `send_answer`: a message
-- under construction, which the destructor sends. What is streamed in goes to the device.
use helpz.Network.Qt.{Device}
use helpz.Prelude.{
  ℕ, ◌+◌, Bool, true, false, Option, none, some, [], ltb, if◌then◌else◌, length, Bytes,
}
use helpz.Network.Message.{
  Buffer, MessageItem, message_item, set_flags, set_fragment_size, seconds, ms,
}
use helpz.Network.Protocol.{Protocol, send_message, destroy}

-- Whether it has a protocol to send by, and the message.
pub record Sender : Type 0 where
  pub has_protocol : Bool
  pub msg : MessageItem

-- The constructor. Without a device it makes an empty buffer.
unfoldable pub sender : Bool → ℕ → Option ℕ → Option Buffer → ℕ → Sender
unfolding message_item
sender has_protocol command answer_id device resend_timeout = record {
  has_protocol = has_protocol;
  msg =
      message_item command answer_id
        (elim device [ none ↦ some (record { bytes = []; pos = 0 }) | some d ↦ some d ])
        resend_timeout;
}

-- `send_answer`, and with no id `send`. With no writer the sender gets no protocol.
unfoldable pub send_answer : ℕ → Option ℕ → Protocol → Sender
unfolding sender
send_answer cmd msg_id p = elim p.writer [
  | none ↦ sender false cmd msg_id none (ms 3000)
  | some _ ↦ sender true cmd msg_id none (ms 3000)
]

unfoldable pub send : ℕ → Protocol → Sender
unfolding send_answer
send cmd p = send_answer cmd none p

-- `sender << item`, by the bytes of the item: they are written at the position of the device.
unfoldable pub put : Device → Bytes → Sender → Sender
put device bytes s = record s {
  msg = record (s.msg) {
    data_device = elim s.msg.data_device [
      | none ↦ none
      | some d ↦
          some (record { bytes = device.write_at d.bytes d.pos bytes; pos = d.pos + length bytes })
    ];
  };
}

unfoldable pub put_flags : ℕ → Sender → Sender
unfolding set_flags
put_flags flags s = record s { msg = set_flags flags s.msg }

-- `release`: the destructor will send nothing.
unfoldable pub release : Sender → Sender
release s = record s { has_protocol = false }

-- `set_data_device`: another device in place of the buffer; no device is ignored.
unfoldable pub set_data_device : Option Buffer → ℕ → Sender → Sender
unfolding set_fragment_size
set_data_device device fragment_size s = elim device [
  | none ↦ s
  | some d ↦ record s {
    msg = record (set_fragment_size fragment_size s.msg) { data_device = some d };
  }
]

-- `answer`: the message waits for its answer for 10 s, if it has no later end.
unfoldable pub answer : ℕ → Bool → Sender → Sender
answer now func s = record s {
  msg = record (s.msg) {
    answer_func = func;
    end_time = if ltb s.msg.end_time now then now + seconds 10 else s.msg.end_time;
  };
}

unfoldable pub timeout : ℕ → Bool → ℕ → ℕ → Sender → Sender
timeout now func timeout_duration resend_timeout s = record s {
  msg = record (s.msg) {
    timeout_func = func;
    end_time = now + timeout_duration;
    resend_timeout = resend_timeout;
  };
}

unfoldable pub finally_do : Bool → Sender → Sender
finally_do func s = record s { msg = record (s.msg) { finally_func = func } }

-- The destructor: with a protocol and a device the message is sent, its device moved to the end. Else
-- the message goes.
unfoldable pub destroy_sender : Sender → Protocol → Protocol
unfolding send_message destroy
destroy_sender s p = elim s.msg.data_device [
  | none ↦ destroy s.msg p
  | some d ↦
      let at_end = record d { pos = length d.bytes } in
      if s.has_protocol
      then send_message (record (s.msg) { data_device = some at_end }) p
      else destroy s.msg p
]

-- A sender with flags and with what is streamed into it, until it is destroyed.
unfoldable pub send_with : Device → ℕ → Option ℕ → ℕ → Bytes → Protocol → Protocol
unfolding send_answer put_flags put destroy_sender
send_with device cmd answer_id flags bytes p =
    destroy_sender (put device bytes (put_flags flags (send_answer cmd answer_id p))) p
