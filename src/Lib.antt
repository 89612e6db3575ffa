-- ===== src/Lib.antt =====
-- The relay of gnirehtet: the program that shares a computer's network with an Android device over USB.
-- The device sends its IP packets over one byte stream; the relay terminates its TCP and UDP flows,
-- talks to the network by ordinary sockets, and makes IP packets of the answers. Around the relay,
-- commands install and start the client on a device by adb, a monitor learns of new devices from the
-- adb daemon, and a dummy Wi-Fi gives the device a network. The code is Rust, under relay-rust/src:
-- the relay in its folder relay, the commands beside it.
--
-- How the parts interact. A client feeds the device's bytes to a packet buffer (IpPacketBuffer, over a
-- ByteBuffer), takes complete packets out and hands them to the router, which finds the connection of
-- the flow. A TCP connection (TcpConnection) stores the payload for the network in a StreamBuffer,
-- acknowledges it, and is polled: it writes the stored bytes to its socket, reads from it within the
-- device's window, and sends packets to the device. They are made by a Packetizer, which keeps the
-- headers of the flow (Header) and their checksums (Checksum), and go into a SharedBuffer, the one
-- stream buffer to the device that all connections of the client share. A UDP connection
-- (UdpConnection) keeps the datagrams for the network in a DatagramBuffer and is polled likewise. The
-- router (Router) keeps the connections by the identity of their flow, remembers for two seconds those
-- that it closed, answers pings and rejects QUIC by itself (Icmp), and polls and cleans the
-- connections. At the end of an iteration the client drains the shared buffer and writes what waits
-- to the device (Client). With a SOCKS5 proxy a TCP connection asks it for the destination before
-- anything else (TcpConnection.Socks). The start of the client on a device registers its serial in the
-- SerialRegistry, from which the relay takes it when the device connects.
--
-- Files, with the code that each models:
--   Base             helpers: Boolean tests, lists, bits, bytes and words, results of I/O, panics
--   StreamBuffer     stream_buffer.rs: StreamBuffer; proofs in Contents, Append, Drain
--   Checksum         icmp_handler.rs: checksum; the loops of update_checksum in ipv4_header.rs and
--                    tcp_header.rs; proofs in Fold, Sums, Pairs
--   Header           ipv4_header.rs, ipv6_header.rs, ip_header.rs, udp_header.rs, tcp_header.rs,
--                    transport_header.rs
--   IpPacket         ipv4_packet.rs, ip_packet.rs
--   Packetizer       packetizer.rs, and ReadAdapter of datagram.rs; proofs in Layout, Build, Read
--   ByteBuffer       byte_buffer.rs; proofs in Peek
--   IpPacketBuffer   ip_packet_buffer.rs, and feed_device_data of client.rs; proofs in Framing, Loop,
--                    Keeps
--   SharedBuffer     client.rs: SharedBuffer, ClientChannel; proofs in Atomic
--   TcpConnection    tcp_connection.rs: State, Send, Segment, Poll, Create, Socks are definitions;
--                    Events has the state machine apart from the code; Frame, Integrity, Stream, Window,
--                    Receive, Transitions, PollRounds, PollTransitions, Blocked, Faults, Overwritten and
--                    Tunnel proofs
--   DatagramBuffer   datagram_buffer.rs; proofs in Layout, Queue, Store, Take, Trip, Overrun
--   UdpConnection    udp_connection.rs; proofs in Idle, Datagrams
--   Icmp             icmp_handler.rs: build_echo_reply, build_port_unreachable; proofs in Reply
--   Connection       connection.rs: ConnectionId, and the trait as an interface; Identity has the
--                    equality of ids, Flow the two kinds of connections that fill the interface
--   Router           router.rs, over any connections that fill the interface; proofs in Keys, Reach,
--                    Flows, Closing, Expiry, Sweep
--   Client           client.rs: drain_outgoing, and the flush of run_blocking; Loop has the client and
--                    one iteration of run_blocking; proofs in Flush, Runs
--   DnsCache         dns_cache.rs; proofs in Names, Hits
--   SerialRegistry   serial_registry.rs; proofs in Order
--   Text             the text functions of Rust's standard library that the files below use, in
--                    Numbers those of numbers; proofs in Lines, Hex
--   AdbMonitor       adb_monitor.rs; proofs in Packets, Devices
--   Adb              adb.rs, transport.rs: the commands that run adb
--   Commands         commands.rs: the commands about one device, in Extras what the client is started
--                    with; proofs in Device, Pending
--   Relay            relay.rs: run_forward, connect_forward; proofs in Forward
--   Wifi             wifi.rs, and setup_dummy_wifi of commands.rs; proofs in Consent
--   Examples         the theorems at concrete inputs
--
-- How the code is modelled. A struct is a record and a method is a function from the record to the
-- record, in the order of the code; names are the code's. Bytes and words are natural numbers, with
-- the wrap-around of a release build written out; a slice out of bounds is the outcome `panic`. A
-- header that is bound to raw bytes is the pair of both. A socket's answer to each call is an argument
-- (a function from what is asked), and so is the random initial sequence number. A RefCell that is
-- borrowed is a flag. A text is the list of its code points. A command that runs adb logs its
-- arguments, and adb is a function from the commands so far to what the next one answers. An instant is
-- a number of nanoseconds (in Relay of milliseconds), and an argument of what reads the clock.
-- A HashMap is a list of entries, in any order. The buffer to the device is passed from call to call
-- where connections share it. Log lines are left out.
--
-- Bounds. The folding loop of a checksum runs on fuel 3, and more fuel changes nothing for a 32-bit
-- sum. The receive loop runs 32 rounds, as in the code. The loop of feed_device_data runs on fuel,
-- where one round more than there are bytes is enough unless the loop comes to a packet that states
-- the length 0. The loop over the labels of a name runs on one round more than the query has bytes;
-- each round but the last moves on, and DnsCache.Names.labels_enough has that more fuel changes nothing. An iteration of the
-- client's loop takes the fuel of feed_device_data as an argument. A 16-bit number is printed with the
-- five digits that it has at most. The loops that wait for bytes of the adb daemon go on as long as
-- there are answers, and so does the loop of connect_forward, for which 41 attempts are enough.
--
-- Not modelled: the bytes of the client's id and the pauses of its thread, the opening of sockets
-- (whether one opens is an argument), the relay's listening socket and threads, with them the commands
-- run, autorun, autostart and relay, the hotspot itself (nmcli or netsh run it, and whether it starts is
-- an argument), the download of adb, the old IPv4 packet buffer, which nothing calls, the command line,
-- which declares options for a library, and the Android application.
pub mod Base
pub mod StreamBuffer
pub mod Checksum
pub mod Header
pub mod IpPacket
pub mod Packetizer
pub mod ByteBuffer
pub mod IpPacketBuffer
pub mod SharedBuffer
pub mod TcpConnection
pub mod DatagramBuffer
pub mod UdpConnection
pub mod Icmp
pub mod Connection
pub mod Router
pub mod Client
pub mod DnsCache
pub mod Text
pub mod AdbMonitor
pub mod Adb
pub mod Relay
pub mod Wifi
pub mod Commands
pub mod SerialRegistry
pub mod Examples
