-- ===== src/Network/Stream/Examples.antt =====
-- Inputs at which the theorems on the stream apply.
use helpz.Prelude.{◌≡◌, refl, ◌≢◌, true, false, [], ◌∷◌, ◌++◌, arith, length}
use helpz.Network.Example.{test_qt, test_app}
use helpz.Network.Protocol.{Protocol, protocol, remove_fragment_cmd}
use helpz.Network.Sequence.{advance, accept_id, is_lost_message}
use helpz.Network.Packet.{packet}
use helpz.Network.Receive.{call, process_content, internal_process_message}
use helpz.Network.Stream.{
  real_size, retry, process_stream, parse_header, done, empty_front, no_fuel, process_bytes,
  enqueue, look,
}
use helpz.Network.Stream.Delivery.{Wire, IsWire, wire_bytes, handle_all, process_bytes-wires}
use helpz.Network.Stream.Termination.{process_bytes_ends}
use helpz.Network.Stream.Fault.{remove_fragment_faults}
use helpz.Network.Stream.Sync.{InSync, process_bytes-InSync, retry_out_of_sync}

abbrev hello : Wire
hello = record { id = 0; cmd = 20; flags = 0; body = 9 ∷ 8 ∷ [] }

hello-IsWire : IsWire hello
hello-IsWire = omega arith

process_bytes-wires_example :
    process_bytes test_qt test_app 5 (wire_bytes test_qt test_app (hello ∷ [])) protocol
    ≡ done
        (record ((handle_all test_qt test_app 5
          (hello ∷ [])
          (enqueue 5 (wire_bytes test_qt test_app (hello ∷ [])) protocol)).1) {
            device = [];
            packet_end_position = [];
          })
unfolding protocol handle_all internal_process_message accept_id process_content is_lost_message
    call enqueue
process_bytes-wires_example =
    process_bytes-wires test_qt test_app 5 hello [] protocol (hello-IsWire, tt) refl refl refl

process_bytes_ends_example : process_bytes test_qt test_app 5 (1 ∷ 2 ∷ []) protocol ≢ no_fuel
process_bytes_ends_example = process_bytes_ends test_qt test_app 5 (1 ∷ 2 ∷ []) protocol

remove_fragment_faults_example :
    process_bytes test_qt test_app 5 (packet test_qt 3 remove_fragment_cmd 0 []) protocol
    ≡ empty_front
unfolding protocol
remove_fragment_faults_example =
    remove_fragment_faults test_qt test_app 5 3 protocol (omega arith) refl refl

-- Two bytes stay until the rest of the header comes.
process_bytes-InSync_example :
    (q : Protocol) × (process_bytes test_qt test_app 5 (1 ∷ 2 ∷ []) protocol ≡ done q) × InSync q
unfolding protocol enqueue process_stream
process_bytes-InSync_example =
    process_bytes-InSync test_qt test_app 5 (1 ∷ 2 ∷ []) protocol
      (record { ok = true; pos = 0; protocol = enqueue 5 (1 ∷ 2 ∷ []) protocol }) refl (omega arith)
      refl refl

-- A message in two packets, and nine bytes with a wrong checksum.
abbrev split : Protocol
unfolding protocol
split = record protocol {
  device = wire_bytes test_qt test_app (hello ∷ []) ++ 0 ∷ 1 ∷ 0 ∷ 0 ∷ 0 ∷ 0 ∷ 0 ∷ 0 ∷ 0 ∷ [];
  packet_end_position = 5 ∷ 15 ∷ [];
}

retry_out_of_sync_example :
    (q : Protocol) × (retry test_qt test_app 2 5 split ≡ retry test_qt test_app 1 5 q)
    × (q.packet_end_position ≡ [])
    × (length q.device ≡ 5)
unfolding protocol process_stream internal_process_message accept_id process_content is_lost_message
    call look parse_header packet real_size advance
retry_out_of_sync_example =
    retry_out_of_sync test_qt test_app 1 5 5 15 split
      (record {
        ok = false;
        pos = 11;
        protocol = (internal_process_message test_qt test_app 5 0 20 0 (9 ∷ 8 ∷ []) split).1;
      })
      refl refl refl refl (omega arith) (omega arith)
