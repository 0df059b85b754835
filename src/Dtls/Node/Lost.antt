-- ===== src/Dtls/Node/Lost.antt =====
-- An exception at the end of the handshake of a client, in `process_received_data` of
-- DTLS/dtls_node.cpp.
use helpz.Prelude.{ℕ}
use helpz.Dtls.Node.{Notice, Node, ready_write, bytes_processed, writer_set}
use helpz.Dtls.Node.Channel.{Channel}

-- Whether a notice gives a protocol something: a writer, bytes, or the word that it can write.
abbrev pub reaches_protocol : Notice → ℕ
reaches_protocol (writer_set p) = 1
reaches_protocol (ready_write p) = 1
reaches_protocol (bytes_processed p bytes) = 1
reaches_protocol _ = 0
