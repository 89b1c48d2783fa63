-- ===== src/Lib.antt =====
-- A verification library for socks5-impl: the messages of the SOCKS5 protocol, its client and its
-- server.
--
-- The program and its parts:
-- - src/error.rs, the errors: Error.
-- - src/protocol/mod.rs, the traits StreamOperation and AsyncStreamOperation: Protocol.Operation has
--   their methods as a record and their contract as a second one, Lawful; Protocol.Operation.Framing
--   has what follows from the contract for every message. Version is in Protocol.Version.
-- - src/protocol/{command,reply}.rs and the enumerations of address.rs, handshake/auth_method.rs and
--   handshake/password_method/response.rs: Protocol.{Command,Reply,AddressType}, Handshake.AuthMethod
--   and Password.Status; Protocol.Codes has their conversions from and to bytes.
-- - src/protocol/address.rs: Protocol.Address, with its two readers and its writer. Encode, Decode and
--   Contract below it are about what is written, what is accepted, and both together; Convert has the
--   conversions to other types, and Text is about the text of an address.
-- - src/protocol/{request,response,udp}.rs: Protocol.{Request,Response,Udp}. Below each, Contract is the
--   contract of the traits, and Accepted the form of what is accepted.
-- - src/protocol/handshake/: Protocol.Handshake.{Request,Response}, and Protocol.Password.{UserKey,Request,
--   Response} of password_method/; Protocol.Negotiation is about what both requests accept,
--   Protocol.RoundTrips and Protocol.Truncation about all messages, whole and cut short.
-- - src/server/mod.rs: Server.Listen. src/server/auth.rs: Server.Auth. src/server/connection/:
--   Server.Connection, from an accepted stream to the replies of a command, with their runs as a step
--   relation in Server.Connection.Life and what they come to in Life.Ready; Server.Connection.Closing
--   for wait_until_closed, Server.Connection.Options for the accessors of addresses and options and for shutdown, and
--   Server.Connection.Polls for AsyncRead and AsyncWrite. Server.Udp is AssociatedUdpSocket of associate.rs, and
--   Server.Udp.Shared the same among tasks that set the size of its buffer.
-- - src/client/mod.rs: Client.Reader for Socks5Reader, Client.Writer for Socks5Writer, Client.Init for
--   init, connect and SocksListener, Client.Datagram for the packets of SocksDatagram, Client.Udp for its
--   association and for UdpClientImpl.
-- - examples/s5-server.rs: Example.Main for main and main_loop, Example.Main.Stopping for Ctrl-C,
--   Example.Handle for handle with the handler of UDP ASSOCIATE as an argument, Example.Handle.Whole for
--   handle with that in its place, Example.Relay for handle_s5_upd_associate.
-- - examples/echo-server.rs: Example.Echo. examples/util/dns.rs: Example.Dns. examples/dns-query.rs:
--   Example.Query for the query, Example.Query.Program for main. examples/demo-server.rs: Example.Demo.
--   examples/demo-client.rs: Example.DemoClient. examples/udp-client.rs: Example.UdpClient.
-- - Session runs the client against the server, Session.Refusal with credentials that differ,
--   Session.Binding through the two replies of a BIND, and Session.Proxy against the example server, from
--   its main to the joined connection; Session.Association has the client's association with the example
--   server, Session.Datagrams the packets between them, and Session.Transfer a transfer of data of the
--   client through the server's relay.
-- The parts meet in bytes: the server reads and writes through the messages of Protocol, the client
-- through its own field by field readers and writers, which Client.Writer.Laws and Client.Reader.Laws
-- relate to those messages.
--
-- How the code is modelled:
-- - A byte, a port and a length are natural numbers; the types' bounds are IsByte and IsU16, and the
--   narrowing casts, `as u8` and `as u16`, wrap around (Prelude.Bytes, Example.Dns).
-- - A string is the list of its bytes, with String::from_utf8 written out as a decision (Stream.Utf8).
-- - A reader runs on the bytes that its source will still deliver before it ends; read_exact on a source
--   that is too short uses it up and returns UnexpectedEof. A writer runs on a Sink that breaks after a
--   given number of bytes; a buffered one holds back what is written until it is flushed. Both give the
--   state they leave also with an error. `?` is the bind of the do blocks, and converts an io::Error
--   where the function returns the library's own error (Stream). How the transport splits the bytes
--   into packets is not visible to read_exact and write_all, and not in the model.
-- - The blocking and the async methods are functions of the same kind: a connection is used by one task.
-- - A handler that takes self by value takes the connection and returns it in its result; where the
--   source returns an error alone, the stream is gone with self.
-- - The datagrams that a UDP socket will receive are a list, and the receive loop is structural
--   recursion on it; at its end the call is still waiting. What the socket does with a packet that is
--   sent is a function that is an argument, with its hypothesis SendsWhole where a theorem needs it.
-- - IsAddress, IsUserKey and the like say what the source's types say (octets, ports, UTF-8); IsWritable
--   and the like what the wire format can carry (lengths that fit in a byte, no flow label).
-- - What an accept loop accepts, and what select! finds ready, is a list too. The body of a branch of
--   select! is one step once its socket has delivered, and there are events for a branch that another one
--   cuts off there. A task of the server is kept as the connection that it was given and what
--   it makes of it. When wait_until_closed returns in the relay, what the client has sent on its
--   connection in the meantime is left in the input of the model, where the code has read and dropped it.
-- - A connection carries the handle of its socket. The accessors run on the state of the host's sockets, which
--   is apart from what the connections read and write; no theorem runs the two together.
-- - What the standard library, tokio and hickory_proto do is a field of a record that is an argument: Std
--   in Protocol.Address.Convert, Options in Server.Connection.Options, AsyncStream in
--   Server.Connection.Polls, Tcp in Server.Listen, Network in Client.Udp, Hosts in Example.Query, Os in
--   Example.Handle, Sockets in Example.Relay, Messages in Example.Dns. A failed assert_eq! is an outcome of its own.
-- The digits of a port are printed with fuel, one more than the number, which has fewer digits than that
-- (Protocol.Address.Text); every other loop runs on the data that it consumes.
--
-- Not modelled: split and into_split, which only hand out tokio's halves of a stream; Display of codes, Debug
-- and serde; the parsing of the command lines and the loggers of the examples, and main of
-- the echo server, which waits for Ctrl-C. The payloads of foreign errors are left out, and
-- texts of errors that the library formats are their format and its number.
pub mod Prelude
pub mod Error
pub mod Stream
pub mod Net
pub mod Protocol
pub mod Server
pub mod Client
pub mod Session
pub mod Example
mod Samples
