-- ===== src/Lib.antt =====
-- Verification of gofly-mqttv5, an MQTT 5 broker in Go.
--
-- The broker reads packets from connections (broker/core/message), keeps the subscriptions in a tree of
-- topic levels (broker/impl/topic), and holds for each session the messages that wait for an
-- acknowledgement (broker/impl/session) and the packet identifiers in use (util/pkid). Sessions and
-- messages are kept in stores (broker/impl/store) over a map of its own (util/collection). The service
-- (broker/core/service) runs these parts in goroutines; between it and a connection stands a ring of bytes.
--
-- Base: names of the libraries, Boolean tests on native numbers, lists measured by them, and bits.
-- PkId: util/pkid. PkId/Bitmap is bitmap.go: `NewBitmap`, `Set`, `Get`. PkId/Limiter is
--   pkid_set_limiter.go: `PollPacketIDs`, `Release`, `BatchRelease`, `MarkUsedLocked`, `Close`. The state
--   is the record `Limiter`, whose `used` wraps as a uint16 does. Each method holds the mutex and is one
--   step; a wait on the condition variable is the result `blocked`. The search for a free identifier
--   has the limit for fuel: with a free identifier, as many steps meet it.
-- Session: broker/impl/session/mem_ackqueue.go and broker/core/session/ackqueue.go. AckMsg has the
--   messages, AckQueue the ring with `Wait`, `Ack`, `Acked`, `insert`, `removeHead` and `grow`. Spec is
--   the queue as a list of messages; Inv is what holds between methods. `Acked` has the number of
--   messages for fuel: each round takes one off. Memory is the session of mem_session.go, with its topics,
--   aliases, will and queues.
-- Topic: broker/impl/topic/topic.go. Level is `nextTopicLevel`, and the levels that the trees read of
--   a topic; its fuel is one more than the bytes, of which each call uses one at least. Tree has the
--   nodes of subscriptions: `sinsert`, `sremove`, `smatch`, `matchQos`. Tree/Paths reads a tree as a
--   function from paths to entries; Tree/Match/Runs runs the trees against a function from topic filters and
--   clients to subscriptions. Retained has the nodes of retained messages: `rremove`, `rmatch`.
-- Message: broker/core/message. Kind, Property and Reason have the packet types, the codes and which of
--   them a packet may carry; Wire the variable byte integers, prefixed bytes and user properties of
--   util.go and message.go; Header the fixed header of header.go; Ack the acknowledgements of puback.go,
--   pubrec.go, pubrel.go and pubcomp.go; Ping pingreq.go and pingresp.go. Bytes are numbers, slices are
--   lists whose capacity is their length, and an index past the end is the result `panic`. uint32
--   arithmetic that may wrap is written out.
--
-- Collection: util/collection/safe_map.go. Entries is Go's map as a list of entries; SafeMap has the two
--   maps of which one is given up after many deletions, with `Get`, `Set`, `GetOrSet`, `Del` and the rest,
--   each one step under the lock; SafeMap/Refine runs them against a function from keys to values.
-- Store: broker/impl/store. Table is a safe map of objects that are changed in place; Session has the
--   methods of mem_session.go, Session/Offline those on the queues of offline messages, Message those of
--   mem_message.go. Each method is one step: a method that drops a client's object does not come between
--   another's look for it and its change.
-- Service: broker/core/service/v1. Buffer is buffer.go: it has the ring with its positions, and every operation
--   on it; a wait on a condition variable is the result `blocked`. The locks are left out: what a call does
--   that needs one which a call at the end of the stream has left held is not modelled. Buffer/World lets the producer and the
--   consumer take steps in any order, the producer's bytes one by one, and keeps the stream of bytes beside
--   the ring. Buffer/Rounds has the loops `ReadFrom` and `WriteTo` a round at a time, with the reader's and
--   the writer's part as parameters. `ringCopy` has the number of bytes for fuel, of which each round copies one at least.
--   Operator is `peekMessageSize` of operator.go; its loop asks for one byte more each round, five at most.
--   Process is `topicAliceIn` of process.go, on the session, with `SetTopic` of broker/core/message/publish.go.
--
-- encoding/binary is Go's standard library: `PutUvarint`, `Uvarint` and the big-endian numbers are
-- written out as it documents them. Strings and topics are lists of bytes; a map is a list of entries.
-- Encoding into a slice of fixed length, String methods and getters are left out, and so are the packets
-- with topics, the connection packets, shared subscriptions, system topics, the storing of retained messages
-- in their tree, and what a session passes on to its CONNECT message. Of the service only the ring buffer,
-- `peekMessageSize` and `topicAliceIn` are modelled.
-- Goroutines, configuration and start-up are outside of the model.
pub mod Base
pub mod Collection
pub mod Message
pub mod PkId
pub mod Service
pub mod Session
pub mod Store
pub mod Topic
