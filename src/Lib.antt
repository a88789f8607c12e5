-- ===== src/Lib.antt =====
-- MicroLua runs Lua on microcontrollers, with cooperative threads and an event loop. This library
-- models the C code that carries its own logic, in these parts:
--
-- * Threads. lib/common/mlua.thread.c keeps the state of all threads in upvalues of main() and in
--   the memory of each thread. Thread.antt has it as the record Sched, in which NEXT, the deadline
--   and the other fields of a thread are functions of its name, and the operations that all parts
--   use (thread_state, remove_timer, activate, resume). Thread/Life.antt has start, kill and join,
--   and Thread/Loop.antt one round of mod_main: dispatch_deadline, expire, pick, turn, and with
--   them round. The abstract view is two lists of threads, the active queue and the timer list:
--   Thread/Chain.antt ties a list to the NEXT pointers, and Thread/Invariant.antt says what holds
--   of the whole scheduler (IsSched). What the loop does not do itself, that is event dispatch,
--   the clock and the run of a thread, is the record World; IsLawful of Thread/Loop/Between.antt
--   says what the loop asks of it. Thread/Suspend.antt has what suspends a thread,
--   and Thread/Finish.antt the end of main(). The error that lua_closethread leaves is an argument of
--   kill and terminate, and close handlers are taken not to touch the scheduler.
-- * Events. lib/pico/event.c keeps a queue of pending events in their state words, which
--   Event.antt has as a data type in place of tagged pointers; a section under the spin lock is
--   one step. The watchers in the registry and their resumption are those of
--   lib/common/mlua.thread.c, so that the inner loop of mlua_event_dispatch (drain) works on the
--   events and the scheduler together.
--   Event/Loop.antt has mlua_event_dispatch with its outer loop: what happens in a wait for an event is
--   an argument, and a wait ends with an event or at the deadline. Event/Loop/System.antt has rounds of
--   mod_main with this dispatch, where the event queue stays from round to round, also while threads
--   run, whose steps are an argument (System).
--   Event/Wait.antt has the waits of a thread for the events of a mask (mlua_event_wait), and the
--   threads that handle events; an event takes 4 bytes and a mask has 31 bits, so that the loops
--   over a mask have at most 32 rounds.
-- * Time. Time.antt has ticks and deadlines of lib/common/include_platform/mlua/platform_common.h
--   and lib/common/include_mlua.int64/mlua/int64.h. A short tick value is the low half of the
--   64-bit time; the clock is an argument. TimeModule.antt has the functions of
--   lib/common/mlua.time.c, with a sleep as the step of one call.
-- * Memory. Memory.antt has the buffer protocol of core/include/mlua/util.h and the functions of
--   lib/common/mlua.mem.c over memory as a function from addresses to bytes. A buffer's vtable is
--   a record of functions. Block.antt has the block device of lib/common/mlua.block.mem.c on the
--   same memory.
-- * Lists. LuaList.antt has lib/common/mlua.list.c. The length that Lua finds of a table without
--   the field n is an argument, and so is the equality of values.
-- * Arrays. Array.antt has the class of lib/common/mlua.array.c on the memory of Memory.antt. An
--   element format is a vtable, as in the code; IsVt of Array/Codec.antt is its contract, which the
--   integer and string formats of Array/Format.antt keep, and from which alone the operations are
--   verified. The formats of floats are a parameter, and so are the conversions that Lua does.
--   Array/New.antt has the constructor with its format strings, Array/New/Kind.antt a table of what
--   the letters of a format stand for.
-- * 64-bit integers. Int64.antt has the conversions and operators of lib/common/mlua.int64.c that
--   do not concern floats, on bit patterns; Int64/Division.antt is about division.
-- * Bits. Bits.antt has the counts and masks of lib/common/mlua.bits.c, and the operators `^` and `|`.
-- * Modules. Module.antt has the look-up in hashed symbol tables of core/module.c, on the memory of
--   Memory.antt, and Module/Generator.antt the hash of the generator of the tables, tools/gen/gen.lua.
--   Module/Preload.antt has the registry of modules, as a list of names and functions.
-- * UDP sockets. Udp.antt has the ring of received packets of lib/pico/lwip.udp.c, with the callback
--   of lwIP and the receiver's step, which a wait for the receive event runs, and
--   Udp/Queue.antt the queue that it implements.
-- * TCP sockets. Tcp.antt has the reception of data on a connected socket of lib/pico/lwip.tcp.c, on
--   pbufs that are linked from recv_head to recv_tail; Tcp/Stream.antt has the stream that it reads.
--
-- Value.antt has the Lua values that these parts read and write, and Base.antt the shared names
-- and lemmas. The build that is modelled has a lua_Integer of 32 bits, as the default has, and
-- pointers and sizes of 32 bits. Machine integers are natural numbers with the wrap-around written
-- out, also where a signed sum that overflows is undefined in C.
--
-- The inner loops of the scheduler run on fuel, the argument rounds: a loop over the timer list or
-- the queue ends when it has as many rounds as the list has threads, and one more for the walk over
-- dead threads, so that for a whole round of mod_main more rounds than there are threads are
-- enough. The loop over pending events has fuel of its own, one more than the events. A result
-- none of a loop is a null pointer read or fuel that ran out.
--
-- Not modelled: connecting, accepting and sending on TCP sockets, the statistics of the loop and its
-- debug output, the building of symbol tables, which is calls of Lua, floats, and the other bindings
-- of the Pico SDK, of lwIP and of littlefs, which mostly check arguments and call those libraries.
pub mod Base
pub mod Value
pub mod Time
pub mod Array
pub mod Bits
pub mod Block
pub mod Event
pub mod Int64
pub mod LuaList
pub mod Memory
pub mod Module
pub mod Tcp
pub mod Thread
pub mod TimeModule
pub mod Udp
pub mod Tests
