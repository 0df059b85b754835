-- ===== src/Dtls/Records.antt =====
-- The received records of `Server_Controller` in DTLS/dtls_server_controller.cpp, which its threads
-- take from a queue, and `tls_record_received` of DTLS/dtls_server_node.cpp.
pub mod Order
mod Examples
use helpz.Prelude.{
  ℕ, Bool, true, false, not, ◌&&◌, ◌||◌, List, [], ◌∷◌, ◌++◌, Option, none, some, if◌then◌else◌,
  lookup, erase, has_key, Bytes,
}

-- `Record_Item`: a node by a number, and the bytes.
pub record RecordItem : Type 0 where
  pub node : ℕ
  pub buffer : Bytes

-- `held` are the records that a thread has taken and not yet handed on, by the thread. `calls` are the
-- calls of `process_bytes`, the first one first.
pub record Records : Type 0 where
  pub break_flag : Bool
  pub records_queue : List RecordItem
  pub held : List (ℕ × RecordItem)
  pub calls : List RecordItem

abbrev pub records : Records
records = record { break_flag = false; records_queue = []; held = []; calls = [] }

unfoldable pub add_received_record : RecordItem → Records → Records
add_received_record item s = record s { records_queue = s.records_queue ++ (item ∷ []) }

unfoldable pub tls_record_received : ℕ → Bytes → Records → Records
unfolding add_received_record
tls_record_received node bytes s = add_received_record (record { node = node; buffer = bytes }) s

-- The destructor.
unfoldable pub break_records : Records → Records
break_records s = record s { break_flag = true }

abbrev pub take_record : ℕ → List RecordItem → Records → Records
take_record thread [] s = s
take_record thread (item ∷ rest) s = record s {
  records_queue = rest;
  held = s.held ++ (thread, item) ∷ [];
}

-- A round of `records_thread_run` up to the end of the lock: the thread waits if there is no record,
-- and ends on the flag. A thread that has a record is not here.
unfoldable pub pop_record : ℕ → Records → Records
pop_record thread s =
    if s.break_flag || has_key thread s.held then s else take_record thread s.records_queue s

-- The rest of the round: the record goes to the protocol of the node, if it has one at this time. The
-- lock of the node is taken for the call.
unfoldable pub hand_on : Bool → ℕ → Records → Records
hand_on has_protocol thread s = elim (lookup thread s.held) [
  | none ↦ s
  | some item ↦ record s {
    held = erase thread s.held;
    calls = if has_protocol then s.calls ++ (item ∷ []) else s.calls;
  }
]
