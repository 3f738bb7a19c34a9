-- ===== src/Lib.antt =====
-- XYChat: a chat server and client with end-to-end encryption. This library models parts of the
-- core logic of the server and of the module that client and server share, and proves properties
-- of them.
--
-- How the parts interact: bytes of a connection are cut into packets by the codec; a packet
-- passes the replay protection, with the cache that all connections share, and the session
-- check, and is dispatched to its handler. Handlers work on the database, whose sessions,
-- messages, one-time prekeys, files, file tickets and groups are modelled here, and on the
-- object storage, which takes the encrypted chunks of a file, whose layout client and server
-- compute from the same arithmetic. A file is created, completed and cancelled by requests of a
-- connection, which hand out tickets; with a ticket its chunks are put and its object is fetched
-- over HTTP; the maintenance job reclaims what is stale, failed or carried by no message. Group
-- messages are encrypted and decrypted by the clients with a ratchet per sender.
--
-- Files and sources:
--
--   Prelude: numbers, lists, JSON objects and association lists that the other modules share.
--   Protocol/Packet, Protocol/Codec: CommonModule/protocol/Packet.h and PacketCodec.cpp; with
--     Protocol/Codec/Stream the receive loop `onReadyRead` of Chat-Server/core/RequestHandler.cpp.
--   Protocol/FileProtocol: CommonModule/protocol/FileProtocol.cpp, the chunk arithmetic and, in
--     Manifest, the manifest of a file message.
--   Server/RateWindow, Server/NonceCache: Chat-Server/core/RateWindow.h and NonceCache.cpp.
--   Server/Gateway: Chat-Server/core/RequestHandler.cpp, `processPacket` with
--     `checkReplayProtection` and `validateSession`.
--   Server/Send: Chat-Server/core/RequestHandler.cpp, `processSendMessageRequest` for a private message.
--   Server/OnlineRegistry: Chat-Server/core/OnlineRegistry.h.
--   Server/Storage: Chat-Server/storage/LocalFileStorage.cpp.
--   Server/Database: the prekeys, messages, files, file tickets, groups and members in
--     Chat-Server/database/DatabaseManager.cpp.
--   Server/FileControl: Chat-Server/core/RequestHandler.cpp, the requests on files; in Races their
--     interleavings with each other and with the maintenance job.
--   Server/FileHttp: Chat-Server/http/FileHttpService.cpp.
--   Server/Reclaim: Chat-Server/core/Server.cpp, `pruneFileUploads`.
--   Crypto/Primitives, Crypto/Envelope, Crypto/GroupE2ee: CommonModule/encryption/E2eeCrypto.cpp
--     and GroupE2eeCrypto.cpp.
--   Examples: the theorems at concrete inputs.
--
-- Correspondence: a class with members is a record, a member function takes the record and gives
-- the new one with the result, in the order of the code's guards; a struct is a record and an
-- enum a data type. A name is the code's in another spelling: `checkAndInsert` is
-- `check_and_insert`. Bytes and UTF-16 code units are numbers, arrays and texts are lists of
-- them. `qint64` and `int` are integers where the code tests for negative values and natural
-- numbers elsewhere; all values stay below the limits that the code checks, far from overflow.
-- `QHash`, `QMap` and the rows of a table are lists. A mutex, a stripe lock or a transaction
-- makes the code under it one step, and an interleaving is a sequence of such steps. Clock
-- readings are arguments, one for each reading of a packet on its way to the handler. JSON
-- numbers are whole.
--
-- What OpenSSL, Qt, SQLite and the operating system do is a parameter: records of functions
-- (`OpenSsl`, `Encoding`, `Platform`, `NumberFormat`, `Network`) with the documented laws as
-- named hypotheses, and records of Booleans for the calls that can fail (`Io`, the begin and
-- commit of a transaction). How much of a temporary file is lost when it is closed, which the
-- code does not look at, is a number of `Io`.
--
-- Bounds: the receive loop has fuel of one round for each byte that is buffered, and one more,
-- which suffices since a packet has a header; the ratchet loop runs over the distance in
-- iterations; the loops over chunks, rows and lists are structural.
--
-- Steps: what a request does under no lock or transaction is a step of its own only in
-- Server/FileControl/Races; elsewhere a request is one step, and what others do in its midst is
-- an argument (`Statements`, `Addition`). `putChunk` is not under the stripe lock, but is not
-- interleaved with `finalize` here.
--
-- Not modelled: the other handlers behind the dispatch, the other tables of the database, the
-- fan-out of events to the sessions of a user, the distribution messages of the group
-- encryption, and the client. Logging, TLS set-up, threads and the user interface are input and
-- output around the logic.
pub mod Prelude
pub mod Protocol
pub mod Server
pub mod Crypto
mod Examples
