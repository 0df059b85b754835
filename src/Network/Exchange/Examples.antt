-- ===== src/Network/Exchange/Examples.antt =====
-- An exchange at a concrete message.
use helpz.Prelude.{◌≡◌, refl, none, some, [], ◌∷◌, ◌++◌, arith}
use helpz.Network.Example.{test_qt, test_app}
use helpz.Network.Message.{Buffer, MessageItem, message_item}
use helpz.Network.Protocol.{Protocol, protocol, process_message}
use helpz.Network.Sequence.{accept_id}
use helpz.Network.Packet.{packed, take_id, prepare_packet_to_send}
use helpz.Network.Stream.{done, enqueue, process_bytes}
use helpz.Network.Exchange.{IsPlain, exchange}

abbrev hello : Buffer
hello = record { bytes = 9 ∷ 8 ∷ []; pos = 2 }

abbrev hello_message : MessageItem
unfolding message_item
hello_message = message_item 20 none (some hello) 3000

hello-IsPlain : IsPlain hello_message hello
unfolding message_item
hello-IsPlain = record {
  on_device = refl;
  no_answer = refl;
  no_flags = refl;
  of_program = omega arith;
  fits = omega arith;
  sized = omega arith;
}

exchange_example :
    let bytes = (prepare_packet_to_send test_qt 1 hello_message protocol).0 in
    let id = (take_id hello_message protocol).0 in
    let flags = (packed test_qt hello_message.min_compress_size 0 hello.bytes).0 in
    (q : Protocol) × (process_bytes test_qt test_app 2 bytes protocol ≡ done q)
    × (q.log
        ≡ (accept_id 2 id flags (enqueue 2 bytes protocol)).1.log
          ++ process_message id hello_message.cmd hello.bytes ∷ [])
    × (q.device ≡ [])
    × (q.packet_end_position ≡ [])
unfolding message_item protocol take_id
exchange_example =
    exchange test_qt test_app 1 2 hello_message hello protocol protocol hello-IsPlain (omega arith)
      (omega arith) refl refl refl
