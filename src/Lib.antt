-- ===== src/Lib.antt =====
-- sadie, an experimental runtime of asynchronous components: components exchange messages; a
-- message comes from a pool, is sent to a component by adding it to the component's queue, and a
-- dispatcher delivers it. Pools and queues are lock free.
--
-- The parts, from below:
-- - Word, Word/Bits: AcU32, AcUptr and AcStatus, and AC_COUNT_ONE_BITS of libs/incs/ac_intmath.h.
-- - RingBuff: libs/ac_mpsc_ring_buff, the bounded queue of a pool. `RingBuff` is AcMpscRingBuff,
--   add_mem, rmv_mem, Setup.init and Setup.deinit its functions. Spec is the bounded queue that
--   they implement, Inv how a ring represents it, Refine the proof. System has producers and a
--   consumer that take their steps in any order, Concurrent what holds of them.
-- - LinkList: libs/ac_mpsc_link_list, the queue of a component. `LinkList` is AcMpscLinkList with
--   the nodes and the messages' own nodes by address; Chain is the shape of the nodes. System and
--   Concurrent are as for the ring.
-- - MsgPool: libs/ac_msg_pool. ac_calloc_align and AcMsgPool_init stand in MsgPool, AcMsgPool_get_msg,
--   AcMsgPool_ret_msg and AcMsgPool_deinit in MsgPool/Calls; they call RingBuff's functions.
-- - Dispatcher: libs/ac_dispatcher. The queues of its components are first-in
--   first-out lists, the view of AcMpscLinkList in LinkList.Fifo.
-- - CompMgr: libs/ac_comp_mgr. AcCompMgr_find_comp, add_comp, rmv_comp and send_msg stand in
--   CompMgr, init, deinit and the cleanup of a dispatch thread in CompMgr/Lifetime. Each thread has
--   a dispatcher of the model above.
-- - Printf: libs/ac_printf. A format call is modelled by the characters that the formatter writes
--   (Format, with Parse for flags, width and precision, and Values for numbers), and ac_snprintf by
--   what its writer does with them.
-- - Memory: libs/ac_memcpy, ac_memset, ac_memcmp, ac_check_sum and ac_string, over bytes by address.
-- - Sort: libs/ac_sort, with the comparison and the exchange of elements as parameters.
-- - Time: libs/ac_time, the arithmetic of ticks, of the digits of a second and of durations.
-- - WaitHeap: waiting_tcbs.c of arch/x86/libs/thread_x86, the heap of the threads that wait for a time.
-- - Threads: thread_x86.c beside it. `Threads` holds its static variables and the fields of the tcbs
--   by address; the scheduler and the operations on the ring of ready tcbs stand in Threads, the
--   life of a thread in Threads/Create, the initialisation in Threads/Init. Arc and Ring are the shape
--   of the links; the scheduler calls the heap of WaitHeap.
-- - Receptor: arch/x86/libs/ac_receptor_impl. wait and signal are machines with one step for each
--   access to shared memory, and call the functions of Threads.
-- - ArmThreads: arch/armv6/arm1176jzf-s/libs/ac_thread, the threads of armv6; Agree compares them with
--   those of Threads.
-- - PageTable: arch/x86/libs/page_table_x86 on a 64 bit processor. Tables are entries by page and
--   index; Walk has the processor's translation, from its manual.
-- - SwapBytes: libs/ac_swap_bytes.
-- - Descriptors: arch/x86/libs/descriptors_x86, the descriptors of segments and tasks by their fields.
-- - Interrupts: arch/x86/libs/interrupts_x86. `Interrupts` holds the table, the counters and the
--   table's register; `Handler` lists the handlers, whose addresses are a parameter.
-- - Inet: the network link. components/ac_inet_link/srcs (ac_arp_init, ac_ether_init) stands in Inet,
--   over the bytes of Memory; platform/Posix/components/ac_inet_link in Inet/Link.
-- - Keyboard: arch/x86/libs/ac_keyboard_impl, keyboard_impl.h in Keyboard and ac_keyboard_impl.c in
--   Keyboard/Early; `Device` in Keyboard/Port is the controller with the clock.
--
-- add_mem, rmv_mem, add and rmv are machines with one step for each access to shared memory. The
-- pools, dispatchers and managers call them without interruption, on a fuel of five steps, which is
-- one round on a ring or list in a good state; in System, the steps of many producers and of one
-- consumer come in any order, and each step sees what all steps before it wrote. The dispatcher's
-- loops run on a fuel that has to exceed the length of a queue, the formatter's the length of its
-- format, strlen's that of the string, next_tcb's and remove_zombies' that of the ring, the loop of
-- page_table_map_lin_to_phy one for each 4096 bytes, a read of the keyboard with a timeout one for
-- each 10 ms. The keyboard's other waits have no end of their own: with no fuel left they give no
-- result.
--
-- Parameters: the allocators (the address or the contents that they give, or failure), what a
-- component sends while it processes a message, the weak compare-exchanges that fail for no reason,
-- a concurrent removal of a component from a slot, the procedures registered with the formatter,
-- the frequency of the time stamp counter, its value when the scheduler runs, the addresses of tcbs
-- and of interrupt handlers, the host's network calls and the layout of its struct sockaddr_ll, and
-- the keyboard's controller.
--
-- Not modelled: the loop of a dispatch thread with its receptors, and threads that interleave in
-- the functions that call add_mem, rmv_mem, add and rmv; a ring whose positions pass 2 ^ 31 while
-- threads interleave; the memory orderings; the registration
-- of format procedures, the text of durations, bit fields; the reader thread of the network link;
-- the platforms and the other drivers of the hardware.
pub mod Prelude
pub mod Word
pub mod RingBuff
pub mod LinkList
pub mod MsgPool
pub mod Dispatcher
pub mod Printf
pub mod Memory
pub mod CompMgr
pub mod Sort
pub mod Time
pub mod WaitHeap
pub mod Threads
pub mod Receptor
pub mod ArmThreads
pub mod PageTable
pub mod SwapBytes
pub mod Descriptors
pub mod Interrupts
pub mod Inet
pub mod Keyboard
