-- ===== src/Lib.antt =====
-- CSBuFLO: an OpenSSH 5.9p1 whose client and server shape the traffic of a page load, so that an
-- observer of the connection learns little of the page. All paths are in modified_openssh-5.9p1/.
--
-- A connection is in one of three modes. In plain ssh it sends what waits in small chunks. In CSBuFLO
-- mode it sends a fixed amount at a time and fills up with ignored messages what the data lacks; the
-- time between two sends, tau, follows the traffic in powers of two. In supertrace mode it plays a
-- trace that a cluster of pages shares: each item says how many bytes leave, and when.
--
--   * Buffer: buffer.c, the queues of bytes that everything is read from and written to. The limits
--     and the moves inside the memory are those of the code; Buffer/Queue states what they promise.
--   * Hashmap: hashmap.c, from a URL to its cluster. Strings are lists of bytes before the NUL; the
--     file is what `fscanf` reads of it.
--   * Trace: load_st.c, the supertraces, which are lists of packets with a signed size; Trace/Split is
--     `split`, which works in the array through indices, -1 being `none`; Trace/Load is `load_st`, with
--     what `fscanf` makes of the bytes of the file, and Trace/Load/Text that file as it is written.
--   * Cursor: the part of misc.c that walks through the supertrace of the current page.
--   * Tau: the part of misc.c that derives tau from the times of the sends.
--   * Packet: the part of packet.c that makes a message of protocol 2 into bytes of the output buffer.
--     The cipher and the MAC are the parameter `Crypto`, with their sizes as laws. Here a buffer is
--     the queue that Buffer shows it to be.
--   * PacketIn: the part of packet.c that makes the bytes that arrive into messages of protocol 2. The
--     receiver's side of the cipher and the MAC is the parameter `Opener`, with what OpenSSL documents
--     as laws. PacketIn/Sent joins it to Packet; its fuel is one more than the messages that come.
--   * WritePoll: `packet_write_poll` of packet.c, which ties these together: it decides how much goes
--     to the socket, pads, writes and sets the next time. The static variables are the fields of
--     `Shaper`; what the socket answers in each round is an input, and `wire` is what it has taken.
--   * Channel: nchan.c, the closing of a channel in both protocols. What its actions do is the list
--     `did`, the newest first; a descriptor is there or not. Channel/Flow is the part of channels.c
--     that reads, sends, receives and writes a channel's data, and Channel/Setup how it is made;
--     Channel/Flow/Runs has every sequence of these handlers. One channel is modelled, since none of
--     this code looks at another; the table of channels and filters are left out.
--   * Url: `set_url` of misc.c, which takes a URL out of a request and out of a notification.
--   * Notify: how both sides come to the same mode: the extra SOCKS commands of channels.c on the
--     client, `packet_send_notify`, and what `packet_read_poll_seqnr` does with a notification. The
--     static variables of misc.c are the fields of `Peer`; cluster table and traces are `Sites`, as
--     they are once both files have been read.
--   * Socks: the requests of the browser, `channel_pre_dynamic` of channels.c with the decoders of SOCKS
--     4 and 5. `inet_ntoa` and `inet_ntop` are parameters; the extra commands go on to Notify. A round of
--     the loop is what has come since the last one, and then the decoder.
--   * Loop: what both main loops have, `process_output` of serverloop.c and `client_loop` of
--     clientloop.c, which the code writes twice: their variables, the wait for the other side, the target
--     of the padding, and the count of what has left, from which tau follows. It calls WritePoll and Tau
--     as the code does; the times at which a round looks at the clock are the fields of `Clock`.
--   * ServerLoop: `process_output`, the server's part of every round: whether to write, how much in each
--     mode, and when a mode ends. It calls Loop, Cursor and Notify.
--   * ClientLoop: the same part of `client_loop`.
--   * Bufaux: bufaux.c, numbers and strings in a buffer, which is a list of bytes here, and the numbers
--     of misc.c. Bufaux/Refusals is what a string that is refused leaves.
--   * Match: match.c, the patterns that name hosts and users, the lists of them, and the choice of an
--     algorithm from two lists of proposals. Match/Glob is what a pattern means, Match/Meaning what a
--     list of them means.
--
-- Integers: unsigned types wrap where the code can reach the wrap; signed ones are integers
-- (Base/Int), since C leaves their overflow open. A call of `fatal` is the outcome `stop`, or
-- `none` in Bufaux, which has no loops; a loop that has used up its fuel is `spin`, or `none` in
-- Match, which the theorems exclude. Fuel: three rounds for the restarts of `buffer_append_space`;
-- as many padding messages as bytes are asked for, since each has a byte at least; 64 bits for the
-- logarithm; in `split` the length of the trace; in `match_pattern_list` the length of the pattern;
-- the rounds of `while(ori_w2w > 0)` are the sockets that are given.
--
-- Not modelled: `select` and the rest of the server's and the client's loop, packets of protocol 1,
-- the table of channels, the rest of OpenSSH; addresses in patterns, which are a parameter; the
-- switch to new keys, compression, and, on the sending side, the stop after 2 ^ 32 packets under
-- one key.
mod Base
pub mod Bufaux
pub mod Buffer
pub mod Hashmap
pub mod Tau
pub mod Trace
pub mod Channel
pub mod Loop
pub mod ServerLoop
pub mod ClientLoop
pub mod Match
pub mod Cursor
pub mod Packet
pub mod PacketIn
pub mod WritePoll
pub mod Url
pub mod Notify
pub mod Socks
