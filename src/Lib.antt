-- ===== src/Lib.antt =====
-- middfs is a distributed file system: clients serve their files to each other through a server.
-- Its packets are serialized to byte strings, pass through buffers that grow, and drive a state
-- machine for each connection. This library models these parts and their interplay.
--
-- Which file models what (paths from the repository's root):
--   Pkt, Pkt/Kinds        src/lib/middfs-pkt.h, middfs-pkt.c, middfs-rsrc.h: the packets and their
--                         kinds, with the initialisers. A union is a record of all of its members.
--   Serial/Format, Valid  the wire format and the packets that senders build, described without the
--                         code.
--   Serial/Writer, Encode src/lib/middfs-serial.c, serialize_*: the sum of sizes that the functions
--                         build up is the operator `>+`, and Writes is the contract of the header.
--   Serial/Reader, Decode src/lib/middfs-serial.c, deserialize_*: likewise `<+` and Reads. The early
--                         returns are `bail`, `checked`, `checked_err` and `finish`.
--   Buf                   src/lib/middfs-buf.c. The block between begin and end, and the number of
--                         bytes before ptr; Holds relates it to the bytes that it holds.
--   Sock                  src/lib/middfs-sock.c and middfs-sock.h: ends, connections, their array.
--   Conn                  src/lib/middfs-conn.c and middfs-handler.h: the handlers of events, over
--                         the program's own handlers.
--   Server/Clients        src/server/middfs-client.c: the sorted list of clients.
--   Server/Handler        src/server/middfs-server-handler.c: the server's handlers of packets.
--   Conf                  src/lib/middfs-conf.c: the configuration, as variables of the environment.
--   Text, Errno           functions of the C library on texts; the error numbers.
--   Client/Exchange       src/client/middfs-client-pkt.c: sending and receiving a packet, validating
--                         a response, and the exchange of the two.
--   Client/Os             the calls on the file system, and all else that the client is given.
--   Client/Rsrc           src/client/middfs-client-rsrc.c: resources; Access has the operations on a
--                         resource as a whole, Content reading, writing and listing.
--   Client/Handler        src/client/middfs-client-handler.c: the answers to other clients' requests.
--   Client/Ops            src/client/middfs-client-ops.c: the operations that FUSE 3 calls.
--   Client/Routes, Remote the two sides of a request: who answers it, and what the requester gets.
--   Tests                 concrete inputs, among them functions for the parameters.
--
-- Numbers are natural numbers. A machine word keeps its wrap-around (`% 2 ^ 64`), a signed word is
-- its bit pattern, and the result of a C function that can be negative is a ℤ. An Option result is
-- `none` where the process stops: an abort, a failed assertion, a null pointer followed, or memory
-- read or written out of range. Whether an allocation succeeds, and what an uninitialised local
-- holds, comes in as DState.
--
-- Outside of the model, as parameters: realloc, read, write, accept, close, connect, getpeername,
-- qsort, bsearch, strtoull, FUSE's filler function, and the calls on files and directories.
-- IsRealloc, IsRead, IsQsort, IsBsearch, IsOs and Tracks say what is documented of them. In the
-- modules of Client/Remote, Linked says of one exchange that the owner's answer comes through: the
-- requester's packet_xchg returns 0 with the answer as it arrives. Client/Remote/Network shows that
-- packet_xchg does so when the peer sends the wire form of a valid answer and no memory runs out. The
-- loop of buffer_serialize runs on fuel; more rounds than the bytes to write are enough, since each
-- round without room enough makes more room. The other loops on fuel need more than the bytes to
-- send or to receive, since each round moves one byte at least.
--
-- Not modelled: the main programs and the client's responder thread, the printing functions, and the
-- calls of poll(2). Freed memory is modelled only as far as a block that is freed twice. That
-- asprintf, and strdup where its result is not tested, find memory is taken for granted. The union of
-- a packet is a record of its members, so that a member that was written under another type is never
-- read. The value of errno is that of the call that failed, also where another call lies between.
pub mod Common
pub mod Util
pub mod Errno
pub mod Text
pub mod Conf
pub mod Pkt
pub mod Serial
pub mod Buf
pub mod Sock
pub mod Conn
pub mod Server
pub mod Client
pub mod Tests
