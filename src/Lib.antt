-- ===== src/Lib.antt =====
-- Unix network programming practice: a model of the repository's C programs, and what they promise.
--
-- The parts, and how they interact:
-- - mini_httpd/mini_httpd.c, a small HTTP server. For each client `main` calls do_http_request, which
--   reads the first line by get_line, copies method and URL out of the buffer, and has
--   do_http_response name a file below ./htdocs and serve_file copy it to the client.
-- - unpv1e3/lib, the functions on descriptors that the programs of the book share: readn and writen
--   repeat short and interrupted calls, readline reads through a static buffer.
-- - unpv1e3/libgai, the book's getaddrinfo: ga_echeck tests the arguments, ga_nsearch lists the
--   searches, each address becomes a structure by ga_aistruct, and ga_serv fills in the ports.
-- - unpv1e3/sigio/dgecho01.c, an echo server whose signal handler queues the datagrams.
-- - unpv1e3/lib/rtt.c and unpv1e3/rtt/dg_send_recv.c, a UDP client's timer and its repeated requests.
-- - unpv1e3/lib, the functions that set, get, compare and print socket addresses of any family.
-- - unpv1e3/tcpcliserv/tcpservselect01.c, an echo server that keeps its clients in a table.
-- - unpv1e3/nonblock/strclinonb.c, a client that copies both ways through two buffers.
-- - unpv1e3/lib/tcp_connect.c and its siblings, which open a socket for an address of getaddrinfo.
-- - unpv1e3/nonblock/web.c, a client that reads files over a bounded number of connections at a time.
-- - unpv1e3/threads/web03.c, a client that reads files in a bounded number of threads at a time.
-- - youshuang/ch15_pool/thread_pool/http_conn.cpp, a connection of an HTTP server without blocking.
-- - youshuang/ch11_timer/lst_timer.h, timers in a sorted list with links both ways.
-- - unpv1e3/libfree/in_cksum.c, the checksum that ping and udpcksum put into their headers.
-- - unpv1e3/server/serv05.c, a server that passes connections to children that it has forked before.
-- - unpv1e3/traceroute, which sends probes whose ttl grows, and reads the ICMP errors about them.
-- - unpv1e3/icmpd, a daemon that tells its clients, whose UDP sockets it is given, about ICMP errors.
--
-- Files and code:
-- - ByteIo: the answers of read and write, as arrivals and acceptances. ByteIo/Readn, ByteIo/Writen and
--   ByteIo/Readline are unpv1e3/lib/readn.c, writen.c and readline.c, each with its proofs below it.
-- - CString: the character tests and strings of the C library.
-- - Httpd: the client's state and the replies; Httpd/Line is get_line, Httpd/Request do_http_request,
--   Httpd/Response do_http_response, Httpd/Serve serve_file. What C leaves undefined (a read behind a
--   buffer, a write behind one) is the result `fault`. A file ends, or breaks off with a read error.
-- - Gai: the data of libgai; Gai/Check is ga_echeck.c, Gai/Search ga_nsearch.c, Gai/Entry ga_aistruct.c,
--   ga_clone.c and ga_port.c, Gai/Service ga_serv.c, Gai/Unix ga_unix.c, and Gai/Lookup getaddrinfo.c.
--   A call takes the allocations that still succeed, and ends with a value, an error code, or the exit
--   of err_quit. The resolver is an argument. A NULL `hints` is the record of zeros.
-- - Sigio: the queue; Sigio/Handler is sig_io, Sigio/Steps the main loop of dg_echo as a relation of
--   steps, with the signal at every point where it is not blocked; Sigio/Ring the places in use.
-- - Rtt: the timer, with the operations on floating-point numbers as an argument; Rtt/SendRecv is
--   dg_send_recv, on the sequence of alarms and datagrams that it meets. The alarm is taken to ring
--   behind sigsetjmp.
-- - Relay: the buffers and one round of str_cli of strclinonb.c, on the answers of Select, read and
--   write.
-- - Sockaddr: sock_get_port.c, sock_set_port.c, sock_set_addr.c, sock_set_wild.c, sock_cmp_addr.c and
--   sock_cmp_port.c of unpv1e3/lib; Sockaddr/Ntop is sock_ntop.c and sock_ntop_host.c, with inet_ntop
--   as an argument. Decimal is the conversion %d.
-- - Connect: tcp_connect.c, tcp_listen.c, udp_client.c, udp_connect.c, udp_server.c and host_serv.c of
--   unpv1e3/lib, over Gai, with the answers of the kernel by the number of the call as an argument.
-- - Icmpd: the table of the daemon; Icmpd/Clients is readable_listen.c and readable_conn.c,
--   Icmpd/Errors readable_v4.c and readable_v6.c, Icmpd/Daemon the loop of icmpd.c. The bytes of a packet
--   behind those that were received are part of the argument.
-- - Threads: main and do_get_read of web03.c, one step of main or of one thread at a time;
--   Threads/Steps is their interleaving, Threads/Invariant what holds throughout, Threads/Safety that it
--   does, Threads/Deadlock where it stops. A step is an access to shared data, a wait, or a change of it.
-- - HttpConn: the class http_conn of youshuang; HttpConn/Line is parse_line and read, HttpConn/Request
--   parse_request_line, parse_headers, parse_content and do_request, HttpConn/Read process_read,
--   HttpConn/Response add_response and process_write, HttpConn/Write write and process. A pointer into the
--   buffer is an index; a write outside it is the result `undefined`.
-- - TimerList: sort_timer_lst on the memory, in which a timer is an address; TimerList/Chains says which
--   list the links make, TimerList/Insert, TimerList/Tick, TimerList/Delete and TimerList/Adjust what the
--   operations make of it.
-- - Checksum: in_cksum.c. Prefork: the table and a round of the loop of serv05.c.
-- - Web: web.c, start_connect.c and write_get_cmd.c, on how start_connect ends and on the answers of
--   Select, Writen, Read and Close, of which each failure ends the process.
-- - Traceroute: recv_v4.c and sig_alrm.c on what arrives while they wait, Traceroute/Laws on one call,
--   Traceroute/Loop on the loops of traceloop.c. An alarm may also ring between the test and the wait.
-- - SelectServer: the table and a round of the loop of tcpservselect01.c, on the answers of Select,
--   Accept and Read; SelectServer/Accept is about a round with a new client.
-- - Base: shared names, tests on numbers and lists. Tests: runs and instances at concrete inputs.
--
-- Bounds and fuel: a loop over a descriptor or a file runs on fuel, one more than the size of the
-- stream or file (two more where a last round reads nothing). Each round takes a byte or an arrival, so
-- this is enough, and the theorems state that a result is reached; the one loop that can run for ever,
-- serve_file's over a file that breaks off, runs out of any fuel. Bytes are numbers; a buffer is the
-- list of its bytes, with the old contents of the stack given as an argument.
--
-- Not modelled: the set-up of sockets and the printing of messages; what the file system and the kernel
-- answer, which are arguments.
pub mod Base
pub mod CString
pub mod Decimal
pub mod ByteIo
pub mod Httpd
pub mod Gai
pub mod Sigio
pub mod Rtt
pub mod Relay
pub mod Sockaddr
pub mod SelectServer
pub mod Checksum
pub mod Prefork
pub mod Web
pub mod Threads
pub mod Traceroute
pub mod TimerList
pub mod HttpConn
pub mod Connect
pub mod Icmpd
pub mod Tests
