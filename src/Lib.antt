-- ===== src/Lib.antt =====
-- Reliable file transfer over UDP with selective reject: the client rcopy.c, the server server.c and
-- the modules that they link.
--
-- The client reads a file in chunks of `bufferSize` bytes, sends each in a PDU with the next sequence
-- number, and keeps it in its window until an RR acknowledges it. The server writes the chunks in the
-- order of their numbers and keeps early ones in a buffer. It answers each packet with an RR or an
-- SREJ. A FILENAME PDU opens the transfer, and EOF, EOF_ACK and FINAL_ACK close it.
--
-- The files, and the code that each is about:
--   Base        shared types, tests, lists and 32-bit words;
--   Checksum    libcpe464/checksum.c: `in_cksum` is the function, `add_words` its loop,
--               `fold_carries` and `complement16` its end. Checksum/Interface has the laws that the
--               rest relies on: all other files take the function as a parameter `in_cksum`, and
--               Checksum/Laws fills the interface;
--   Pdu         createPDU.c: `create_pdu`, `get_sequence_num`, `get_flag`, `get_payload_len` and
--               `validate_checksum`, and `getControlSeqNum` of rcopy.c; Pdu/Print has `printPDU`;
--   Window      window.c and window.h: the record `Window` and one function for each operation, under
--               the names of the source. Window/Queue is the abstract queue of outstanding PDUs;
--   Buffer      buffer.c and buffer.h: `Receiver` is the static `context`, and `in_order_state`,
--               `buffering_state`, `flushing_state` and `buffer_process_pdu` are its functions;
--   Client, Setup, Rcopy
--               rcopy.c: the record `RcopyInfo` and the parts that build no PDU, the start of the
--               program, and the state functions with the loop `state_handler`;
--   Poll        pollLib.c: `PollSet` is its three static variables, `poll`, `calloc` and
--               `realloc` are parameters, and
--               `poll_call` is `pollCall`. Of it, the client and the server use whether it gives
--               their socket;
--   Gethostbyname
--               gethostbyname.c: the lookups, with the static arrays that they answer in;
--   Networks    networks.c: the set-up of the sockets, with the answers of the system calls;
--   Server      server.c: `parse_filename_packet`, `process_client`, `receive_file`, the tests of
--               `runServer`, and the children and the start in Server/Main;
--   Transfer    both programs over a network that loses, repeats, reorders and damages PDUs: whole
--               runs of each in Prefix and Complete, the two `main`s in Programs, interleaved steps
--               of both in Network, whose Protocol is the abstract protocol of numbered chunks. There
--               the control PDUs of the server may come at any time, so that its runs include
--               those of the two programs and more;
--   SafeUtil    safeUtil.c: the wrappers that exit when a call on a socket or an allocation fails;
--   Bufferold   bufferold.c, the first reorder buffer: `process_data` is `processData`;
--   Rcopyold, ServerOld
--               rcopyold.c and serverOld.c, the first client and server, which exchange lines;
--   Echo        those two together.
--   The Makefile does not build bufferold.c, rcopyold.c and serverOld.c.
--   The modules Tests hold evaluated runs and the theorems at concrete inputs.
--
-- State and environment. C structures are records, without descriptors and addresses. `sendtoErr` and
-- `write` append to logs in the record, and `write` is taken to write all its bytes. What `pollCall`,
-- `recvfromErr` and `read` answer stands in lists in the record; when a list is used up, a poll times
-- out, a receive fails and a read is at the end of the file. A read gives at most the `bufferSize`
-- bytes that it is asked for. A received PDU is the whole receiving
-- array with the length received, so that a reader sees stale bytes behind a short PDU. A length that
-- C makes negative, and a slot index taken modulo 0, set the field `faulted` of the receiver.
--
-- Integers. `uint32_t` is ℕ with its wrap-around written out (`inc32`, `% u32_mod`); a payload length
-- is a ℤ. The `int` accumulator of `in_cksum` is a ℕ, which stays below 2^31 on a datagram. `getIndex`
-- returns an `int`; a window of 2^31 slots or more, for which that goes wrong, is not told apart.
--
-- Fuel. `flush_loop` has one round for each slot, and each round clears a valid flag. `state_handler` runs a
-- number of rounds of the client's loop, which its theorems take as an argument. The loops that wait
-- for datagrams are recursion on the answers of the polls. `slide_loop` of the first reorder buffer
-- has one round for each slot, as `flush_loop` has.
--
-- Not modelled: the addresses of received datagrams, the allocations of buffer.c and
-- bufferold.c (they are taken to succeed) and the freeing of memory, the closing of descriptors, what
-- the programs print on the way, and the rest of libcpe464, a course library, whose effect is the relation between the PDUs sent and the
-- datagrams received.
pub mod Base
pub mod Checksum
pub mod Pdu
pub mod Window
pub mod Buffer
pub mod Client
pub mod Setup
pub mod Rcopy
pub mod Poll
pub mod Gethostbyname
pub mod Networks
pub mod Server
pub mod Transfer
pub mod SafeUtil
pub mod Bufferold
pub mod Rcopyold
pub mod ServerOld
pub mod Echo
