-- ===== src/Lib.antt =====
-- libpeli is a freestanding C++ runtime for the Wii and the Wii U's vWii mode. This library models
-- its containers, its runtime with its interrupts, the mapping of memory, its IPC with IOS, its video
-- output and console, and its readers of system data, and states what they promise.
--
-- Parts, and how they interact:
-- - Base: numbers, lists, options and the bit operations that the parts share. Base.Word writes out
--   the wrap-around of 32-bit arithmetic; Base.Bits has the laws of `&` and `|` by their bits.
-- - Util/Address (peli/util/Address.hpp): alignment, the bounds test and the address regions.
-- - Util/LinkList (peli/util/List.hpp): the intrusive list `List<T, Link>` as a store of links by
--   address and a head and a tail. An access through a null pointer is `none`.
-- - Rt/Thread (peli/rt/Thread.cpp, peli/rt/Thread.hpp): the kernel. A record holds the threads by
--   address, the three families of links, the run queues with the mask of those in use, the wait
--   queues by address and the current thread. A method gives the kernel after it, and the
--   dispatcher tells whether it returned, switched or idles. Rt/Thread/RunQueue has the invariant
--   of the run queues, Rt/Thread/Life the constructor, the destructor, Exit and Join. `WakeupAll`
--   runs on fuel: one more than the length of the wait queue, since a round takes one thread and
--   the last finds none. The count of leading zeros runs on 64, the bits of the mask.
-- - Nand/SysConf (peli/nand/conf/SysConf.cpp): the reader of the system configuration, on data
--   whose reads past the end are `none`. Nand/SysConf/Match says what an entry is,
--   Nand/SysConf/Find searches, Nand/SysConf/Bounds takes an entry apart, Nand/SysConf/Lock has the
--   states and Nand/SysConf/Get the whole of a read; the request's answer is a parameter.
-- - Nand/Ipl (peli/nand/conf/Ipl.hpp): the settings of the system menu, on top of that reader.
-- - Ppc/Bat (peli/ppc/Bat.hpp, peli/ppc/Spr.hpp): the blocks that map both memories, and the moves to
--   the registers. The loop over the bits of a size runs on the blocks that are left; `clz` runs on
--   the bits of the word.
-- - Ppc/Cache (peli/ppc/Cache.hpp): the addresses that an operation on a range touches, on fuel: one
--   more than the size, since a round moves on by 32.
-- - Rt/Exceptions (peli/rt/Exceptions.cpp, peli/ppc/Exception.hpp): the handlers of external
--   interrupts and of the IRQs behind them, the code of the vectors and the back trace of the
--   default error handler. A handler is a number, and a call of it is an event; the back trace runs
--   on fuel, the addresses of memory above the stack pointer.
-- - Rt/Mutex (peli/rt/Mutex.cpp, peli/rt/Cond.hpp, peli/rt/ThreadQueue.hpp): mutexes and conditions
--   on that kernel.
-- - Rt/Gthread (peli/rt/GThread.cpp): what the C++ library calls for threads, on both.
-- - Rt/Once (peli/rt/Once.cpp, peli/rt/Once.hpp): the control that lets one thread through, as a
--   step relation on the phases of the threads; a yield stands for any steps of the others.
-- - Rt/MessageQueue (peli/rt/MessageQueue.hpp): the message ring. A method is its body with
--   interrupts off; a blocking method either ends or puts its thread on the wait queue.
-- - Rt/Arena (peli/rt/Arena.cpp): the arenas from which memory and the C library's heap come, on
--   top of Util/Address.
-- - Ios/Ipc (peli/ios/low/Ipc.cpp, peli/ios/low/Ipc.hpp): requests to IOS, with blocks
--   (Ios/Block), vectors and reply queues by address, on the message queues of Rt/MessageQueue.
--   The registers written are a log; what a register reads is an argument. Ios/Ipc/Flow has what
--   each step does to the order of requests, Ios/Ipc/Reach the states reached, Ios/Ipc/Vectors
--   and Ios/Ipc/Pointers what a reply gives back, Ios/Ipc/Path the copy of a path
--   (peli/util/String.hpp), Ios/Ipc/Sync the calls that wait and what they submit, Ios/Request
--   (peli/ios/Request.hpp) the requests on top. Ios/Interface (peli/ios/Interface.hpp) has the vectors of a typed call: a
--   template of types is a list of shapes, and arguments that no constructor fits are `none`;
--   Ios/Interface/Ioctl says what a call of one input and one output tells IOS.
--   Ios/Resource (peli/ios/Resource.hpp) owns a descriptor.
-- - Ios/Sdio/Card (peli/ios/sdio/Card.cpp, peli/ios/sdio/Card.hpp): the SD card. The answers of IOS
--   are arguments; the result lists the commands sent and the copies between buffers.
-- - Vi (peli/vi/Video.cpp, peli/vi/VideoMode.cpp, peli/vi/Video.hpp, peli/hw/VideoInterface.hpp):
--   the video output. Vi/Register has the registers, Vi/Timings the timing tables, Vi/Mode the
--   modes, Vi/Video the manager's copy of the registers and Vi/Video/Output what it writes to the
--   hardware.
-- - Log/VideoConsole (peli/log/VideoConsole.cpp, peli/log/VideoConsole.hpp): the console in the
--   frame buffer as the PowerPC side has it; Log/VideoConsole/Print locks and prints. Scrolling
--   runs on fuel: one more than the row, since a round takes one row. The copy loop of MoveUp has
--   as many rounds as there are words, and each copies eight.
--
-- Interrupts are off inside each operation of the kernel, the queues, the IPC and the arenas
-- (`Msr::NoInterruptsScope`), so such an operation is one function on the state, and an interleaving
-- is a list of operations.
--
-- Not modelled: assembly (the bodies of the exception vectors, context switches, start-up), the
-- other memory-mapped registers and registers of the processor, the FatFs copy under peli/fat,
-- the bindings and the tests, which have no logic of their own to state or are not of this
-- program; and the commands of the IOS modules on top of the typed calls (peli/ios), the program
-- arguments and the device table, which these parts do not depend on.
pub mod Base
pub mod Util
pub mod Rt
pub mod Nand
pub mod Ios
pub mod Vi
pub mod Ppc
pub mod Log
