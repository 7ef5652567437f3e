-- ===== src/Lib.antt =====
-- Communication protocols in C and C++: a publish/subscribe broker over TCP and UDP (tcp & udp
-- communication/), a software router (router/), a client of a library service over HTTP (web client/),
-- and the laboratories (labs/).
--
-- Subscribers and server of the broker exchange the structs of helper.h; the other programs do not
-- interact. In the broker, server.c runs one loop over the ready descriptors and calls the operations
-- of helper.c on the subscribers; in the router, router.c takes one packet after the other and calls
-- helper.c (routes, ARP table, forwarding), which uses queue.c over list.c and the frames and checksums
-- of skel.c. In the link emulator two threads share a queue.
--
--   Prelude         shared: texts and Boolean tests, lists, the outcome `Run`, decimal numbers
--   Broker.Types    the structs of tcp & udp communication/helper.h
--   Broker.Registry create_subscribers, get_client, add_new_client, subscribe_to_topic of helper.c,
--                   and the unsubscribe branch of server.c
--   Broker.Delivery send_tcp, disconnect_subscriber, reconnect_an_old_client, free_memory
--   Broker.Convert  udp_to_tcp
--   Broker.Server   the loop of server.c: on_accept, on_datagram, on_stdin, on_subscriber are the four
--                   branches of its body, `handle` chooses, `scan`, `round` and `serve` are the loops
--   Subscriber      the loop of subscriber.c: a line of the standard input, the server's socket
--   Checksum        ip_checksum and icmp_checksum of router/skel.c
--   Router.Queue    router/list.c and router/queue.c
--   Router.Route    cmp and get_best_route of router/helper.c
--   Router.Table    the loop of read_rtable of router/helper.c
--   Router.Frame    the headers, builders and parsers of router/skel.c
--   Router.Forward  the ARP table, check_packet, forward and the ARP handlers of router/helper.c
--   Router.Loop     the loop body of router/router.c
--   Router.Address  hex2num, hex2byte and hwaddr_aton of router/skel.c
--   Link.Queue      link_emulator/queue.c of labs/Sliding Window-lab3
--   Link.Scheduler  link_emulator/link.c: a round of link_scheduler and its loop, and one message in
--                   run_forwarding and in run_reverse_forwarding
--   Link.Param      split_param of link_emulator/link.c
--   Transfer        send_file and receive_file of labs/Sliding Window-lab3
--   Http            labs/HTTP-lab10: buffer.c; Http.Request requests.c; Http.Response helpers.c
--   Web             web client/: the state of client.cpp; Web.Request and Web.Exchange utils.cpp;
--                   Web.Account and Web.Books the commands of actions.cpp; Web.Loop the loop of main
--   Static          router.c of labs/ARP_Forwarding-lab4, with a fixed ARP table
--   Mail            send_mail.c of labs/E-mail-lab11
--   Backup          client.c and server.c of labs/Sockets UDP-lab6
--   Multiplex       server.c of labs/TCP_Multiplexare-lab8
--
-- State is passed explicitly. A struct is a record, an array with its count is a list with a capacity,
-- a list linked by pointers is a heap of cells. `Run` has three outcomes: a value, `died` for a failed
-- DIE, assert or exit, and `fault` for an access outside live storage. What system calls, the clock and
-- random numbers give is an argument; what is sent is logged in order. Four places are parameters: the
-- text that printf makes of a floating point number, the interfaces of the router, inet_aton, and the
-- JSON library of the web client.
--
-- Loops are structural, except six that run on fuel: the binary search of get_best_route with one round
-- more than there are entries, the folding of carries in ip_checksum with four rounds, enough for the
-- 33 bits left, the digits of a number with one more than its value, the lines of the routing table
-- with the length of its file, and the rest of a file, in Transfer and in Backup, with one round more
-- than its size. A scan over descriptors has 1024 rounds, as many as a descriptor set holds.
--
-- Not modelled: opening sockets and other pure input and output, what is printed for the user, failed
-- allocations, and the sorting of the routing table by qsort. Laboratories 1 and 9 are calls of the
-- system with hardly any logic between them, so are the chat programs of laboratory 7 and the client
-- of laboratory 8; ping and traceroute of laboratory 5 are raw sockets and the fields of packets; the
-- link emulator of laboratory 2 and the packet code of laboratory 4 are earlier copies of what is
-- modelled here.
pub mod Backup
pub mod Broker
pub mod Checksum
pub mod Http
pub mod Link
pub mod Mail
pub mod Multiplex
pub mod Prelude
pub mod Router
pub mod Static
pub mod Subscriber
pub mod Transfer
pub mod Web
