-- ===== src/Lib.antt =====
-- A verification library for the programs of this repository: small C programs of a course on
-- systems programming. They share no code; the echo client and the echo server, the chat client and
-- the chat server, and the command line and the drivers of the taxi, talk to each other by messages.
--
-- Base             Boolean tests, lists with native indices, C strings, decimal text, `strtol`
--                  and `atoi`, signed integers and the laws of the bit operations.
-- EchoRaw          The echo server over raw UDP sockets. EchoRaw/Host is the byte order of the
--                  host (either one), EchoRaw/Checksum is echo_raw/src/checksum.c, EchoRaw/Packet
--                  is the builder and the parser of echo_raw/src/packet.c, EchoRaw/ClientTable is
--                  echo_raw/src/client_table.c, and EchoRaw/Server is the loop of
--                  echo_raw/server/echo_server.c, which calls the parser, the table and the
--                  builder in turn; EchoRaw/Client is echo_raw/client/echo_client.c, which
--                  builds a packet for a line and waits for the one that the server builds;
--                  EchoRaw/Session is a line on its way to the server and back, and EchoRaw/Start the
--                  arguments, ports and sockets of both programs with `rawudp_open_send_socket`
--                  and the client's loop over the lines.
-- TaxiControl      taxi_control/main.c. TaxiControl/Driver is the process of a driver
--                  (`driver_loop`, `timer_set_secs`, `timer_remaining_secs`), TaxiControl/Cli the
--                  table of drivers and the functions that change it, Cli/Commands the commands
--                  of `main` with `next_tok`, Cli/Poll the service of the polled descriptors,
--                  Cli/Round a round of the loop of `main`, which calls them in turn, and
--                  Cli/Loop the whole of `main`; Cli/Descriptors, Cli/Balance, Cli/Walked and
--                  Cli/Ran are about what becomes of the sockets.
-- PhoneBook        functions/functions.c: the array, its operations and the menu.
-- MessageQueues    message_queues/chat_server.c: `handle_join`, `handle_message`, `send_to_all`,
--                  `cleanup` and the loop of `main`; and message_queues/chat_client.c: its start
--                  and its loop (ChatClient), what it gives back (Release), what the clients
--                  see of each other through the server (Talk), and the lock of its
--                  screen (Screen). MessageQueues/Sysv is server_sysv.c with client_sysv.c,
--                  MessageQueues/Posix is server_posix.c with client_posix.c, each pair over the
--                  queues of the kernel in any interleaving.
-- SharedMemory     shared_memory/chat.h, chat_client.c and chat_server.c: the segment, the
--                  critical sections of the clients and the rounds of both threads (Chat);
--                  SharedMemory/Flag is what server_sysv.c, client_sysv.c, server_posix.c and
--                  client_posix.c of that directory do with their segment, access by access, and
--                  SharedMemory/Ends is the set-up and the end of all programs there.
-- Massives         massives/massives.c: `square_matrix`, `reverse_output`, `triangles` and `ulitka`.
-- BitsOperations   bits_operations/bits.c: its four functions, and pointers/pointers_task1.c, which
--                  changes the same byte in memory.
-- DynMem           dynmem/dynmem.c: the phone book as a doubly linked list. DynMem/Layout is the heap
--                  that a list stands for, DynMem/Walk the loops over it, DynMem/Change,
--                  DynMem/Skips and DynMem/Unlink what changes it, DynMem/Steps and
--                  DynMem/Refine a choice and a session.
-- ProcSysVar       modules/proc_sys_var.c: the handlers of both files, the start and the end.
-- Interpreter      channels/interpreter.c: lines, commands and arguments, and the descriptors of
--                  a pipeline.
-- Pointers         pointers/pointers_task4.c: the search of a line.
-- VirtualFs        virtual_fs/nedomc.c: the panels, the keys and the loop.
-- Calculator       static_libraries and dynamic_libraries: the same calculator twice, its operations,
--                  its menu and its loop.
-- Tests            Runs on concrete inputs.
--
-- Numbers are native; a w-bit number has its wrap-around written out. A buffer is the list of its
-- bytes, and an access outside it is a result of its own (`fault`, or `none` where the text above
-- a definition says so). State that C keeps in globals or behind pointers is passed in and
-- returned, and what a function prints, sends, closes or opens is the list of those effects in
-- order. What the kernel or the C library decides (whether an allocation succeeds, what `recv`,
-- `poll`, `fork`, `mq_open` and the timer return) is an argument; so is what `realpath` leaves where it writes over its own path. A critical section under the
-- semaphore of the shared memory chat is one step. The queues of the kernel in MessageQueues/Sysv and
-- MessageQueues/Posix are a record of operations with what their manual says of them.
--
-- Fuel: the carry loop of the checksums runs on its own sum, which falls in each round; decimal
-- printing runs on the number; the receiver of the shared memory chat runs on one more than the
-- number of messages; the spiral runs on the order of the matrix (and a number that leaves `int` ends it as undefined), and the loops over bits on 31.
-- The loops of the linked list run on the number of entries and choices, the loop of the
-- interpreter on the number of lines, and the program that reads the file of the kernel module on
-- 13. Each is proved to be enough.
--
-- Not modelled: drawing beyond the order of what is drawn, segments and queues of the
-- demonstrations that an earlier run has left, a failed `mq_send` of the chat server where a text is
-- followed from typing to screen (MessageQueues/ChatClient/Talk),
-- the texts of prompts, what fork, exec and wait do, `rawudp_ct_destroy`, the command that shows a
-- file in the file manager, the exercises on processes, signals, pipes and files, and those on
-- pointers that print memory.
pub mod Base
pub mod EchoRaw
pub mod TaxiControl
pub mod PhoneBook
pub mod MessageQueues
pub mod SharedMemory
pub mod Massives
pub mod BitsOperations
pub mod DynMem
pub mod ProcSysVar
pub mod Interpreter
pub mod VirtualFs
pub mod Pointers
pub mod Calculator
pub mod Tests
