-- ===== src/Lib.antt =====
-- The MQTT server of this repository: the codec, the message buffers, the broker's sessions, topics
-- and connections, the database file, the HTTP interface, the client of another server, and the
-- packets in C.
--
-- The parts, and the files that model them.
--   Pkt       src/mqttc++/mqtt_pkt.cpp: `CMqttPkt`, a cursor over a byte buffer, and
--             `remain_length`, which finds the end of a packet. `Pkt.mem` is the memory from
--             `m_buf_ptr` on; `offset` and `max_size` are the members. A method returns `ok`, `err`
--             with the state it leaves, or `fault` where it leaves the memory.
--   Msg       src/mqttc++/mqtt_msg.cpp and include/mqttc++/mqtt_msg.hpp: each message's `decode`
--             and `encode` as `decode_publish`, `encode_publish` and so on, in Msg/Connect,
--             Msg/Publish, Msg/Subscribe and Msg/Ack.
--   Mbuf      src/common/mbuf.cpp: `CMbuf`.
--   MsgStore  src/common/msg_mem_store.cpp: `CMsgMemStore` and `CMsgStatMgr`,
--             whose `flush` is in MsgStore/Flush.
--   Broker    the objects of the server as one store, `World`, that every operation passes on:
--             buffers, contexts and connections live in lists, and a pointer is a place in its
--             list. A deleted connection leaves `none`; reading it, or a null pointer, has no result.
--             Broker/ClientIds is src/mqtt_server/client_db_id.cpp, Broker/Session is
--             include/mqtt_server/mqtt_context.hpp, Broker/Topics and Broker/Publisher are
--             src/mqtt_server/subscriber_mgr.cpp, Broker/Sender is src/reactor/event_handler.cpp,
--             Broker/Close, Broker/Reply, Broker/Handlers and Broker/Handlers/Input are
--             src/mqtt_server/mqtt_connection.cpp, Broker/Poller is src/reactor/poller_epoll.cpp,
--             Broker/Notify is src/mqtt_server/poller_notify.cpp and the queue of the reactor.
--   Persist   src/mqtt_server/persist_msg_pack.cpp: `CPersistMsgPack`. Persist/Store has the
--             functions that write the database file, a list of bytes, and Persist/Restore those
--             that read it; the other children hold theorems.
--   Ansi      src/mqtt/helper.c and src/mqtt/mqtt_pkt_ansi.c: the packets in C, which the server
--             does not use. Ansi/Encode and Ansi/Decode have a function for each of theirs.
--   Bridge    src/mqtt_server/tcp_client.cpp: `TCPClient`, the client of another server. Bridge has
--             its packets and its receive loop, Bridge/Service the rounds of its thread, `svc`.
--   Http      src/http_server/http_connection.cpp, with src/common/str_tools.cpp in Http/Text:
--             Http/Headers has `parse_headers`, Http/Publish and Http/Request have
--             `notify_mqtt_publish`, Http/Server has `process`.
--   Prelude   names of the libraries, and laws of lists, bits, memories and maps.
--   Runs      the theorems at concrete inputs.
--
-- How they interact. The poller runs `handle_input` of a connection, which reads the socket into
-- the receive buffer. `process_mqtt` cuts that into packets with `remain_length` and gives each to
-- its handler, which decodes it with Msg, changes the session and the topics, and sends its reply
-- and the messages of others through `put` of the connection. What the kernel does not take waits
-- in the queue of the connection for `handle_output`. A failed write closes the connection, which
-- ends a clean session. An HTTP request and the client of another server put a message into the
-- queue of the reactor, which publishes it when the poller finds the eventfd readable. When the
-- server ends, `store` writes the messages, the sessions and the retained messages, and `restore`
-- reads them when it starts.
--
-- Parameters. `Kernel` answers `write`, `read` and `epoll_ctl` by the number of the call, and gives
-- the fields of a new context that its constructor does not set. A call of `write` that succeeds
-- leaves `errno` alone, as POSIX systems do. The memory of a new buffer is zeros here, and an
-- argument in Http; only bytes that were written are ever sent. `atoi` is an argument in Http. An
-- unordered container is the list of its elements in the order in which it is walked. `Format` is
-- what msgpack packs and unpacks, and `Disk` what a file takes of the bytes that are written to it.
-- How a socket is connected, and the clock of the bridge's thread, are arguments of its rounds.
--
-- Fuel. The loops over the topics of a packet run on `max_size + 1` rounds, since each round takes
-- two bytes; the loops over a receive buffer run on its length plus one, and the loop over the
-- chunks of a file on the length of the file plus one, since each takes six bytes. A loop out of
-- fuel is `stuck` in Pkt and has no result in Broker, Bridge and Persist. `write_n` has a round for
-- each call of `write`, and its fuel is an argument, since the loop goes on for as long as the
-- kernel takes nothing. That the loops over a receive buffer and over a file end is stated with
-- relations, `Ends`, that have no fuel: the result is that of a finite run on every branch.
--
-- Not modelled: logging and printing, the text of the lines that `flush` records, timers (a copy of
-- another project), the opening of sockets and of epoll, errors of reading a file, the rest of the
-- HTTP interface, configuration, the earlier database format of src/mqtt_server/persist.cpp, which
-- nothing uses, and the copies of other projects. A buffer's reference count is not kept: no buffer
-- leaves the store when its last user lets it go, but for those that `restore` drops at its end.
pub mod Prelude
pub mod Pkt
pub mod Msg
pub mod Mbuf
pub mod MsgStore
pub mod Broker
pub mod Bridge
pub mod Persist
pub mod Ansi
pub mod Http
pub mod Runs
