-- ===== src/Lib.antt =====
-- Verification library of the Gneiss interfaces: the platform code in C and C++ below src/, and the
-- Ada code through which a component and its broker on Linux speak.
--
-- Gneiss gives SPARK components sessions (log, memory, message, ROM, timer, block) on several
-- platforms. A session's Ada package calls small C or C++ functions of its platform. On Linux these wrap
-- system calls: src/platform/linux holds what all sessions share (sockets that carry descriptors,
-- event notification, memory files, the dynamic linker), and each session adds a file of its own.
--
-- Base             helpers: lists, C integers, stateful procedures.
-- Linux/Descriptor descriptors and processes of src/platform/linux/syscall.c.
-- Linux/Socket     gneiss_write_message, gneiss_read_message, gneiss_peek_message and
--                  gneiss_drop_message of src/platform/linux/syscall.c.
-- Linux/Memfile    memory files of src/platform/linux/syscall.c and
--                  src/memory/client/linux/gneiss_memory_client.c.
-- Linux/Epoll      src/platform/linux/epoll.c.
-- Linux/Linker     src/platform/linux/linker.c.
-- Linux/Message    src/message/linux/gneiss_message.c.
-- Linux/Timer      src/timer/client/linux/gneiss_timer_client.c.
-- Linux/Block      src/block/client/linux/block_client.c and block_client.h; Device and Session have
--                  the start of a session.
-- Linux/Packet     src/platform/linux/gneiss_internal-packet.adb and session.rflx (Format): the
--                  packets in which components and their broker speak over the sockets.
-- Linux/Client     src/platform/linux/gneiss_internal-client.adb.
-- Linux/Broker     the broker: src/core/linux/gneiss-broker-message.adb (Requests, Handlers
--                  and Messages, and its answers) and gneiss-broker-lookup.adb (Lookup).
--
-- A component asks its broker for a session in a packet, and waits for one that confirms it, with
-- the descriptors of the session, or rejects it. The broker finds the service in its configuration,
-- and hands the two ends of a socket pair to the component that serves it. Its calls are a record,
-- which Linux/Broker/Platform fills with the C functions above and the broker's own answers.
--
-- On Genode a service has a root, which asks its dispatcher (Ada code) for every new session, and
-- C++ objects for servers, components and clients, which live on the heap of a factory.
--
-- Genode/Root      _create_session and _destroy_session of src/log/server/genode,
--                  src/message/server/genode and src/memory/server/genode.
-- Genode/Log       gneiss_log_server.cc and gneiss_log_dispatcher.cc of src/log/server/genode, and
--                  src/log/client/genode/gneiss_log_client.cc.
-- Genode/Message   gneiss_message_server.cc and gneiss_message_dispatcher.cc of
--                  src/message/server/genode.
-- Genode/Memory    gneiss_memory_server.cc and gneiss_memory_dispatcher.cc of
--                  src/memory/server/genode.
-- Genode/Message/Client  src/message/client/genode/gneiss_message_client.cc, whose calls end in the
--                  components of Genode/Message.
-- Genode/Memory/Client   src/memory/client/genode/gneiss_memory_client.cc, whose arguments reach the
--                  root of Genode/Memory.
-- Genode/Block/Server      block_server.cc of src/block/server/genode and
--                  src/block/genode/block_root.h: the server, its root and its session.
-- Genode/Block/Dispatcher  block_dispatcher.cc of src/block/server/genode.
-- Genode/Block/Client      src/block/client/genode/block_client.cc.
-- Genode/Block/Exchange    a client and a server at the two ends of a packet stream.
-- Genode/Timer     src/timer/client/genode/timer_client.cc.
-- Genode/Rom       src/rom/client/genode/gneiss_rom_client.cc.
-- Genode/Factory   src/platform/genode/cai_factory.h, by which servers and clients are made.
-- Genode/Start     src/platform/genode/cai_main.cc and gneiss.h.
--
-- A function of the source has its name here. A procedure is a function from a world to a result
-- and the next world. The system calls and the C library are a record `Calls` of procedures, which
-- each component takes as a parameter; an out parameter is a result, and one that keeps its old
-- content on some branch is an argument too. What the documentation of the calls promises is a
-- record of laws, which a theorem takes as a hypothesis, and the tests fill it with a kernel
-- written out. C integers are ℤ, or ℕ with the modulus written where the type is unsigned; a
-- pointer is an address, `none` for null. A function or method of C++ that the source is given as
-- an argument, such as the one for with_requests, is a function here. The loops of the source run
-- over an array or a list, but for the broker's loop over the services of a component, which takes
-- fuel: more than the component has services of the kind is enough. The loop of a block server
-- around process_request and acknowledge, which is Ada code, counts its rounds (`serve_all`), and as
-- many rounds as requests wait are enough. What callers do over time is a list of requests,
-- which `run` and `serve` perform one after the other, or a relation of steps, where a
-- precondition of the Ada code restricts them (`Run` of Genode/Log, `Reach` of Linux/Block).
--
-- What other processes do while a component waits for its broker is a procedure, too, and a
-- statement that raises Constraint_Error in Ada has no result or reports false.
--
-- Not modelled: the debug output of src/platform/linux/trace.h and src/platform/genode/trace.h,
-- gneiss_fputs, which only prints, the broker's start of components and its event loop
-- (gneiss-broker-startup.adb and gneiss-broker-main.adb of src/core/linux), and the Ada packages with
-- the SPARK contracts; of these the model has what the C and C++ code calls or is called by. The
-- code that RecordFlux generates for packets and that Genode generates for remote calls is a
-- parameter, and so is SXML, which reads the broker's configuration.
pub mod Base
pub mod Linux
pub mod Genode
pub mod Tests
