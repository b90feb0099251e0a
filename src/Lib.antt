-- ===== src/Lib.antt =====
-- nowra: a process manager in the manner of Postfix's master, and the C library under it. A master
-- process holds a list of services, each with a listen socket, and starts child processes for
-- them on demand; the children tell it through a pipe whether they are taken or available.
--
-- The parts that are modelled, from the bottom up:
--   Base     what the modules share: tests on machine numbers, lists, signed integers, and the
--            outcome of a function that may call msg_panic or msg_fatal (src/util/msg.c).
--   Stringop string2ll and the functions that break a string, of src/util/stringop.c. A string is the
--            list of its bytes.
--   Mymalloc the blocks of memory of src/util/mymalloc.c, with the checks of their headers, and the copies
--            of strings. A pointer is the block that it points to.
--   Vstring  the strings in growing buffers of src/util/vstring.c and vbuf.c, in blocks of Mymalloc. A
--            pointer into a buffer is its distance from the start.
--   Thpool   the thread pool of src/util/thpool.c. Thpool itself has the queue and its semaphore;
--            Thpool/Worker is the loop of a thread, Thpool/System any number of threads and the owner
--            of the pool, interleaved in any order, as a step relation. A critical section is a step,
--            but for the last one of a thread, whose unlock is a step of its own.
--   Iostuff  waiting for a descriptor and writing a buffer, of src/util/iostuff.c; the answers of the system
--            calls are lists.
--   Argv     the tokenizer of src/util/stringop.c and the vectors of strings of src/util/argv.c.
--   Ring     the circular lists of src/util/ring.c, on the memory that they are linked in.
--   Timer    the timer queue of src/util/events.c: event_request_timer, event_cancel_timer, and the
--            parts of event_wait that read the queue. The circular list is the list of its
--            entries from the head on.
--   Events   registration of descriptors in src/util/events.c: event_init, event_enable_rw and
--            event_disable_rw. Events/Kernel is the kernel's side, epoll_ctl with what its manual
--            page says; it is a parameter.
--   Binhash  the hash tables of src/util/binhash.c: arrays of chains, and their growth.
--            Binhash/Children makes such a table the table of children of the process manager.
--   Master   the process manager, src/master/master.h, master_avail.c, master_spawn.c and
--            master_status.c. Its state is the record `World`: the event loop and the kernel, the
--            timers, the services by address, the table of children by process id, and the clock.
--            Master/Table is the interface to that table; the operations work through it.
--            Master/Fields and Master/Entry are the reading of the configuration, src/master/master_ent.c:
--            from the lines of the file to the structures of the services.
--            Master/Service is the reading of all entries and the starting and restarting of their
--            services: src/master/master_conf.c and master_service.c, master_listen_init of
--            master_listen.c, master_status_init and master_status_cleanup of master_status.c.
--            Master/Refresh is the reading of the configuration again, master_refresh of master_conf.c, with
--            the stopping of services: master_stop_service, master_avail_cleanup, master_listen_cleanup and
--            master_delete_children. What waitpid gives in each turn of its loop is an argument; kill has no
--            effect in the model but for what waitpid gives.
--   Wait     event_wait of src/util/events.c over any program: the timers, and the calls for the
--            descriptors that are ready. What the program registers is the record `Handlers`. Wait/Turns has
--            what the calls keep, Wait/Called what they do, once for each event.
--   Main     src/master/master.c: event_wait over the handlers of the master, after the reading of the
--            configuration. Main/Serving has what the handlers keep, Main/Idle and Main/Startup
--            what the configuration sets up, and Main/Loop puts them together. Main/Stale is a turn that ends in
--            a panic.
--   Server   the processes of the services: src/master/single_server.c over event_wait, and master_notify of
--            src/master/master_proto.c. The service is a parameter. Server/Rounds is such a process and the
--            master that reads what it tells.
--   Tests    an epoll instance that fills the interface of Events/Kernel, states on which the theorems
--            are applied, and runs.
--
-- How the parts interact: master_avail_listen registers the listen socket of a service with the
-- event loop; the loop calls master_avail_event, which calls master_spawn; that enters the child
-- into the table and counts it through master_avail_more, which calls master_avail_listen again. A
-- throttled service has a timer in the queue, which calls master_unthrottle. Status messages and
-- dead children change the counts through master_avail_more and master_avail_less.
--
-- How it is modelled: a function that changes state takes the state and returns the state after it.
-- Callbacks, contexts and services are addresses, natural numbers. What time(), fork(), read(),
-- waitpid(), write() and epoll_ctl() answer is an argument, and free() is a parameter. The signed fields are integers; numbers are
-- unbounded but in binhash_hash, string2ll, Mymalloc, Vstring and atoi, so that an overflow of a
-- count, a size or a time is not modelled. Log messages leave no trace. The timer loop of event_wait
-- runs on fuel, one unit a turn: one more than the number of timers that are due is enough. The loop
-- of argv_split takes a token a turn; one unit more than the string has bytes is enough. All other
-- loops are structural recursion.
--
-- In Mymalloc and Vstring sizes are taken modulo 2^64 and converted to an int as the code does it;
-- whether there is memory is an argument, and the theorems on Vstring suppose that there is. vbuf_put
-- may nest twice, which is as deep as it goes in a buffer that is not empty. vbuf_write takes a byte a
-- turn at least, the clearing of the job queue a job a turn. get_master_ent takes an argument of the
-- command a turn, and 1024 turns are more than the bytes that fgets stores. The strings that fgets is
-- going to store are an argument. The loop of master_config takes one value of `Given` a turn, what the
-- system gives for an entry; more of them than the file has lines are enough.
--
-- Not modelled: the child's side of fork (it runs another program), the freeing of services that are stopped,
-- the signals of the master process (main sets up no handler), the sockets and streams, the printing with a
-- format (vbuf_print.c), the polling intervals of thpool_wait, and the output of messages.
pub mod Argv
pub mod Base
pub mod Binhash
pub mod Events
pub mod Iostuff
pub mod Main
pub mod Master
pub mod Mymalloc
pub mod Ring
pub mod Server
pub mod Stringop
pub mod Tests
pub mod Thpool
pub mod Timer
pub mod Vstring
pub mod Wait
