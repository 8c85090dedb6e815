-- ===== src/Lib.antt =====
-- Verification library of wqs, a message queue service over Kafka and ZooKeeper.
--
-- Clients speak HTTP (service/) or the memcached protocol (service/mc/) to the queue
-- (engine/queue/), which keeps its metadata in ZooKeeper (engine/zookeeper/) and its messages in
-- Kafka (engine/kafka/). A received message is named by a message id; its acknowledgement goes
-- back through the queue to the consumer of its group, which tells Kafka how far the partition is
-- consumed.
--
-- Common: what the other files share: Boolean tests, lists, Go's maps as association lists
-- (Common/Dict), signed numbers with the wrap-around of int32 and int64 (Common/Int), their sums
-- (Common/Wrap), equality tests as instances (Common/Eq).
--
-- Go: the functions of Go's packages strings and strconv that the code calls, on bytes.
--
-- List: utils/list/list.go. A node is an address, the heap holds its two words, address 0 is nil;
-- a method is a command that fails where Go panics. List/Ring says which addresses form a ring,
-- and List/Insert, List/Remove and List/Join relate each method to a list of addresses.
--
-- Kafka/Ack and Kafka/Consumer: engine/kafka/consumer.go. `ackHead` is the sequence of the nodes
-- of its ring, and the maps of `ackGroup` are association lists. `recv` and `ack` are the methods
-- Recv and Ack, a call that no other gets in the way of; what the channel yields, the clock and
-- the order of the visit of a map are arguments, and a section under a lock is one step. The
-- marks record the calls on the Kafka consumer, the latest first. Kafka/Consumer/Invariant is the
-- well-formedness, Runs the steps of several calls at a time, of which the sections under a lock
-- and the reading of the counter are one each, Round the calls of Recv while nothing new arrives.
--
-- Kafka/Assign: engine/kafka/manager.go, the assignment of replicas to brokers, with int32
-- numbers; a panic is an outcome, and the random numbers are arguments.
--
-- Engine: the errors that the packages of engine/ tell apart, by their cause, and calls that may
-- fail: a call maps the state of a world to the state afterwards and a result. The clients of
-- ZooKeeper and Kafka are records of such calls.
--
-- Zookeeper: engine/zookeeper/zookeeper.go. A path is the list of its names, the last one first,
-- so that path.Dir is the tail. Zookeeper/Tree holds the laws of a client on trees of persistent
-- nodes: what Create, Set, Delete and the reads do to a tree of nodes. DeleteRecursive takes fuel
-- for the height of the tree (Zookeeper/Delete), and CreateRecursive recurses along the path; at
-- the root, which is its own parent, the source would recurse for ever, and the model says
-- `diverged`.
--
-- Kafka/Manager: engine/kafka/manager.go, the rest of it: Kafka/Manager for the brokers and
-- RefreshMetadata, Manager/Topics for CreateTopic, UpdateTopic, DeleteTopic and ExistTopic,
-- Manager/Offsets for CommitOffset, the offsets and Accumulation. encoding/json is a record of
-- operations. Kafka/Opening: NewConsumer of engine/kafka/consumer.go and Send of producer.go.
--
-- Queue/Config: engine/queue/struct.go. Queue/Metadata: engine/queue/metadata.go, with
-- RefreshMetadata in Queue/Metadata, the answers from memory in Metadata/Views, AddGroup,
-- DeleteGroup, UpdateGroupConfig and ResetOffset in Metadata/Groups, AddQueue and DelQueue in
-- Metadata/Queues, the proxies and their metrics in Metadata/Services, NewMetadata in
-- Metadata/Setup, where a path of the configuration starts with a slash or is empty. An operation
-- between the lock and the deferred unlock is a body of `locked`. Metadata/Reads says what a
-- refresh leaves alone.
--
-- Queue/Imp: engine/queue/queue_imp.go, over all of these: Imp/Admin for the operations on queues
-- and groups, Imp/Status for the look-ups, Imp/Messages for SendMessage, RecvMessage and
-- AckMessage with the consumers of the groups. RecvMessage reads the configuration of a queue
-- from the metadata as others have left it by then. `vaild_name` is the regular expression of the
-- names.
--
-- Queue/MessageId and Queue/IdGenerator: engine/queue/message_id.go. A method with a pointer
-- receiver returns the receiver afterwards.
--
-- Memcached: service/mc/. A command maps the state of the queue, the tokens of a line and the
-- unread bytes to a response: the state, the bytes left, what is written, and whether the
-- connection closes. The queue is a record of operations on a type of states,
-- engine/queue/queue.go's interface as far as it is called. Memcached/Store, Memcached/Get and
-- Memcached/Server hold the commands and the loop of a connection, which runs on fuel: `none` is
-- a loop that has not returned.
--
-- Config: config/config.go and config/section.go. The bytes of a text become sections, maps of
-- maps, and the fields of Config; Config/Text and Config/Reading relate the text that String
-- prints to what is read.
--
-- Service: service/service.go and service/warp.go. A handler maps the state of the queue and the
-- parameters of a request to the state and the answer; the queue is a record of operations.
-- Service/Handlers has the handlers for an action, Service/Requests those with a status,
-- Service/Shown and Service/Loggers those of the log levels and Service/Queries that of the
-- metrics.
--
-- Log: log/. Log for the prefix of a line, Log/Rolling for a Logger with its file, Log/Loggers
-- for the loggers of the program, which several levels may share, with initLogger of main.go,
-- Log/Cleaner for the cleaner. Log/Archive follows a run of calls.
--
-- Metrics: metrics/. Metrics for the timers and meters, Metrics/Registry for the bus of events,
-- the registry and the ticks, Metrics/Saved for the counters that are kept between runs,
-- Metrics/Graphite for what is sent to graphite and read from it, Metrics/Setup for Start and the
-- queries. Floating-point numbers are a record of operations on a type, and so is the registry of
-- go-metrics.
--
-- Utils/Fields and Utils/Lines: utils/linereader.go, Fields and LocateLineIdx, where an index of
-- -1 is `none`. Utils/Buffer: the buffer of BufferedLineReader, with readLineFromBuffer and
-- Reset. Utils/Bytes: the conversions of utils/utils.go. Utils/Listener: utils/listener.go, the
-- connections by the order of their arrival. A number whose low bits are zero is joined by +
-- where the source has |.
--
-- Loops run over lists or count down a number that the source counts up to, so that no fuel is
-- needed. The loop of a connection takes one round for each line and that of Fields one for each
-- space; more rounds than there are bytes are never used. The digits of a printed number are
-- bounded, by 64 rounds, which suffice for 64 bits in any base (Go/Strconv).
--
-- Not modelled: the goroutines, channels and sockets that carry messages, and the commands, which
-- are input and output; the start of the queue, the goroutine that refreshes its metadata, and
-- closing both; of the HTTP service, the routes and the compression of answers.
pub mod Common
pub mod Config
pub mod Engine
pub mod Go
pub mod Kafka
pub mod List
pub mod Log
pub mod Memcached
pub mod Metrics
pub mod Queue
pub mod Service
pub mod Utils
pub mod Zookeeper
