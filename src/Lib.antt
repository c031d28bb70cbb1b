-- ===== src/Lib.antt =====
-- Pulsar is a TCP server framework on libuv. An application derives request processors, one for each
-- protocol version; the framework accepts clients, takes requests off the MAI protocol, hands them to
-- processors in worker threads, and sends responses to clients of this server and, through peer
-- servers, to clients of other servers.
--
-- The parts and the files that model them:
--
-- ByteOrder: the macros htonll and ntohll of Pulsar/include/Pulsar.h. What the code uses of winsock and of
-- the machine's layout of integers is the record ByteOrder, an instance argument of the definitions that
-- read or write numbers; its laws are the documented behaviour of htons, htonl, ntohs and ntohl.
-- Handles: IPv4Address, ClientHandle and the ordered set ClientHandles of
-- Pulsar/include/TypeDefinitions.h.
-- Protocol: Parser is RequestParser::ValidateProtocolAndExtractRequest (Pulsar/src/RequestParser.cpp),
-- Response is the constructor of Response and both constructions of its bytes
-- (Pulsar/src/RequestResponse.cpp), Forwarded is the request processor for responses that another server
-- forwards (Pulsar/src/RequestProcessor_ForwardedResponses.cpp). A read or a copy past the end of a buffer is
-- `none`, or `overrun`; a failed assertion of the constructor is `failed`. The registry of request processors is a parameter.
-- Client: the fields of stClient (Pulsar/include/LocalClientsManager.h) and the state that all clients share.
-- Pool: Pulsar/src/ClientsPool.cpp, with its map as the flag `in_pool` of each client.
-- Lifecycle: accepting, marking, disconnecting and removing a client (Pulsar/src/LocalClientsManager.cpp).
-- Receiver: the request buffer, on_read, the extraction and queueing of requests and the end of their
-- processing (Pulsar/src/LocalClientsManager.cpp). Stream is a connection as libuv drives it, reads of any
-- sizes and ends of processing; Processing is the worker thread, with what the application does as an
-- argument.
-- Processor: SendResponse, StoreError, DisconnectClient, StoreMessage and CreateResponseAndAddToQueues
-- (Pulsar/src/RequestProcessor.cpp). The latter's loop runs on fuel; as much as there are handles is
-- enough, since each round takes at least one.
-- KeepAlive: the keep-alive thread (Pulsar/src/LocalClientsManager.cpp).
-- Delivery: the two queues of a client, one that threads add to and one that the event loop sends from, as
-- the direction flag says: AddResponseToClientsQueues, SendLocalClientsResponses,
-- AfterSendingLocalClientsResponses (Pulsar/src/LocalClientsManager.cpp), after_send_responses
-- (Pulsar/src/ConnectionsManager.cpp).
-- Peers: the connections to other servers (Pulsar/src/PeerServersManager.cpp): Peers has the states of a
-- connection, Sending the queues and the rounds of SendPeerServersResponses, Reading the loop of on_read,
-- which runs on fuel: one round more than there are bytes is enough, since each round takes some. Traffic
-- has the events of a server's life. What libuv has been asked and has not answered is a flag of the
-- server.
-- Manager: reference counts of responses and the counters of the queues (Pulsar/src/ConnectionsManager.cpp).
-- Shutdown: the shutdown, from the keyboard to the last handle (Pulsar/src/LocalClientsManager.cpp,
-- Pulsar/src/ClientsPool.cpp, Pulsar/src/ConnectionsManager.cpp).
-- Common: the parameters that the application sets (Pulsar/src/CommonComponents.cpp).
-- Examples: the theorems at concrete inputs, on a little-endian machine.
--
-- How the parts meet: the receiver calls the parser and the life cycle and raises the pool's count of
-- requests; processing a request stores messages, each of which becomes a response that is queued
-- under the pool's count of responses; sending lowers that count and gives a client with nothing
-- pending to the life cycle.
--
-- State is passed from call to call. A failed assertion, on which the server exits, is `none`. Whether
-- memory lasts, what libuv reports and the time are arguments. 32-bit sizes wrap around where the
-- source's do. Locks are left out: each operation holds them from its first access to its last, so an
-- operation is a step. Counters of statistics are natural numbers.
--
-- Not modelled: the statistics that LogStat prints, the times that responses wait, the keyboard, and
-- the start of the server. Not modelled because they only print or write: Logger, Profiler,
-- WriteToFile. libuv is another project's library.
pub mod Prelude
pub mod ByteOrder
pub mod Handles
pub mod Protocol
pub mod Client
pub mod Pool
pub mod Lifecycle
pub mod Receiver
pub mod Processor
pub mod KeepAlive
pub mod Delivery
pub mod Peers
pub mod Manager
pub mod Shutdown
pub mod Common
pub mod Examples
