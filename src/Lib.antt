-- ===== src/Lib.antt =====
-- Helpz: models and theorems.
--
-- Network/ holds a message protocol over datagrams. `Protocol` (Network/net_protocol.h and .cpp) gives
-- each message an id of 8 bits, splits long messages into fragments, sends again what was not answered,
-- and takes apart what comes in. Prepared packets go through a writer, timeouts come back through
-- `process_wait_list`, and what the program that derives from `Protocol` is told is a virtual call or a
-- callback.
--
-- A `Protocol_Timer` brings the timeouts. DTLS/ runs the protocol over DTLS: a server keeps a node for
-- each remote endpoint, which holds a protocol and a channel. Database/ builds SQL statements for the
-- tables of DBMeta/, executes them over a connection, deletes a row with what refers to it, and runs
-- tasks in threads. Base/ reads numbers and the arguments of calls from bytes, trims texts, and
-- reads files and settings. Service/ runs a worker as a service.
--
-- Where the parts are:
-- Prelude: lists, maps and Boolean tests over the native numbers.
-- Network/Qt: QIODevice, QDataStream, qChecksum, qCompress and qUncompress, which are parameters with
-- the behaviour that is documented for them. Network/Example has an instance in which tests run.
-- Network/Message: net_defs.h and `Message_Item`. Network/Fragment: `Fragmented_Message`.
-- Network/Protocol: the state, with the calls to the outside as a log of events, and `send_message`.
-- Network/Sender: `Protocol_Sender`. Network/Waiting: the messages that wait for an answer.
-- Network/Sequence: the message ids (`is_lost_message`, `fill_lost_msg`). Network/Packet:
-- `prepare_packet_to_send`. Network/Receive: `internal_process_message`. Network/Stream:
-- `process_stream` and `process_bytes`. Network/Timeouts: `process_wait_list`. Network/Exchange joins
-- the sending side to the receiving side. Network/Dialogue is the talk of two sides about a long message,
-- from `send_message` to the program of the receiver: Query the query, Answer and Reply the fragment,
-- Fragment what the receiver does with it, Talk the rounds, Offer and Message the whole way, Whole a query
-- for all bytes at once.
--
-- Network/Timer: `Protocol_Timer`. Network/WaitHelper: `WaitHelper` and `Waiter`.
-- Database/Text: QString as a list of code points, with `arg` as a parameter. Database/Table: `Table`.
-- Database/Query: the texts of the statements and `get_q_array`. Database/Connection: `Base` with its
-- driver as a parameter. Database/Builder: the conditions over ids of db_builder.h. Database/DeleteRow:
-- `Delete_Row_Helper`. Database/Thread: `Thread`. Database/Meta: what HELPZ_DB_META of DBMeta/db_meta.h
-- gives a type, and the functions of db_builder.h that read objects from queries. Database/Info:
-- `Connection_Info`.
-- Dtls/Node: `Node`, with Node/Channel for what its channel calls back and Node/Calls for its calls
-- in a row; a channel is a parameter. Dtls/Tasks: the writes and removals that are posted to the
-- io_context. Dtls/Socket: `Socket`. Dtls/Server: the cleaning of `Server`. Dtls/ClientThread and
-- Dtls/ServerThread: the two threads, as what they do in order. Dtls/Credentials:
-- `Credentials_Manager`. Dtls/Clients: the clients of `Server_Controller`. Dtls/Client: the
-- deadline of `Client` and the ping of `Client_Node`. Dtls/Records: the received records of
-- `Server_Controller` and the threads that take them. Dtls/Sessions: `Session_Manager_SQL`, with
-- its table and the encryption as parameters.
-- Base/DataStream: `Data_Stream`. Base/Trim: `String::trim`. Base/ApplyParse: `parse_out` and
-- `apply_parse`, with the stream operators of the types as parameters. Base/File: `File`, with the system as
-- a parameter. Base/Settings: `SettingsHelper`, with QSettings as a parameter. Base/Logging: `Logging`.
-- Service: the service of a program in Service/, with its worker and its thread for the log.
--
-- How the code is read: a method takes the state and gives the new one; an exception is a Boolean result;
-- the clock is an argument, read once in a call, in nanoseconds; a number of 8, 16 or 32 bits is a
-- natural number with its wrap-around written out; a std::map is a list with rising keys.
--
-- Fuel: the second loop of `fill_lost_msg` has 256 rounds, since it goes once round the ids at most;
-- `process_stream` has a round more than bytes, since each round takes 9 bytes; the loop of
-- `process_bytes` a round more than packets, since each round takes a packet; the loop of `get_q_array`
-- has as many rounds as there are cells, since each round passes at least one. The queries of
-- a talk are at given times, as many as the message has bytes, since each answer brings a byte that was
-- missing.
--
-- Not modelled: in a talk the test of the ids of the packets, the timeouts and lost packets; log output,
-- mutexes (each call is one step), calls back into the protocol from a callback, and what is named in the
-- comment of a file. The components of the repository that are not under these directories have no model
-- here.
pub mod Prelude
pub mod Network
pub mod Database
pub mod Dtls
pub mod Base
pub mod Service
