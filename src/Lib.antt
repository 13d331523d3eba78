-- ===== src/Lib.antt =====
-- SiDAQ-API: a Windows library that receives the data of a SiTCP device over TCP, cuts it into
-- event frames, and reads and writes the device's registers over UDP (the RBCP protocol).
--
-- The program. SiDaqApi/SiDaqApi.cpp keeps a manager (`SiDaqMngr`) and exports the functions of
-- the library. `SiDaqInitialize` makes the manager and reads the device's registers
-- (sitcp/SiTcpRbcpLib2.cpp). `SiDaqRun` connects and creates two threads: `socket_loop_thread`
-- (sock_thread.cpp) puts each received block into the receive queue, and `framer_thread` takes the
-- blocks out, lets `RecvSiDaqData` (sidaq_framer.cpp) cut them into frames, and these go into the
-- event queue, from where `SiDaqGetData` gives them to the caller. Both queues are linked lists
-- with a lock (squeue_c/squeue.cpp). `SiDaqStop` closes the connection; `SiDaqResetQueue` empties
-- both queues.
--
-- Files. Base: helpers, and machine words: a w-bit integer is a natural number below 2 ^ w, an
-- `int` is its word, `add32`, `sub32`, `slt` and `is_neg` read it as the code does. `Outcome` is
-- the result of C code: it returns, or it has undefined behaviour (`fault`), or the fuel of a loop
-- has ended. `Returns P` says that it returns with a result that satisfies P.
-- Squeue: SiDaqApi/squeue_c/squeue.cpp and squeue.h over a memory (Squeue/Memory) of queues, nodes
-- and blocks, whose allocator hands out fresh addresses and may run out. One definition per
-- function: new_sq_data, delete_sq_data, new_squeue, delete_squeue, sque_put, sque_get, sq_put,
-- sq_get. Squeue/Chain says what a well-formed queue is; Link and Put, Unlink and Get, and Drain
-- are about the operations, and Fifo about the queue from outside; Iterate has SQDataNext and
-- SQDataPtr.
-- Framer: SiDaqApi/sidaq_framer.cpp and sidaq_framer.h. recv_data is `RecvSiDaqData`; its first
-- part (bytes held from the last call) is recv_rest, a round of its loop is recv_round. The event
-- queue is a parameter; list_put is the queue as a list. Framer/Sizing is about the length checks,
-- Outcomes, Steps and Rounds about the loop, Buffer and Joins about a call, Stream about a run of
-- calls, Messages and its children about a stream of whole messages, Fixed and Cutting about
-- frames of a fixed length, and Defects about faults. Framer/Follows compares runs over two event
-- queues, Linked runs over the linked queue in memory with runs over a list, and Pipeline what
-- goes in with what SQGet answers.
-- Rbcp: SiDaqApi/sitcp/SiTcpRbcpLib2.cpp and .h. The network and the socket library are parameters
-- (`Net`, `Host`). Rbcp/Construct has the constructor and the destructor. Rbcp/Packets and Device
-- describe the protocol and a device apart from the code.
-- SockThread: SiDaqApi/sock_thread.cpp and .h, over the list of events that the thread meets; Laws
-- and Counts are about the receive loop.
-- Api: SiDaqApi/SiDaqApi.cpp and SiDaqApi.h. State has the manager and the tables of errors,
-- Control the run, stop, pause, resume and reset, FramerThread the framer thread, Access what the
-- caller reads, Lifecycle the start and the end. Control/Transitions and Stops,
-- FramerThread/Checks, Blocks, Ends, Drain and Conserve, Registers, Starts, Sound, Cleanup, Gets
-- and Errors are about them.
-- System: a run as a whole. Its steps are the passes of both threads and the calls of the program,
-- in any order; Safety is about one step, Runs about all runs from `SiDaqRun` on.
-- Sample: the dialog of MfcSample/SiDaqMfcSampleDlg.cpp and .h. FrameLength is `GetFrameLength`
-- and Packets the packets that it reads, Controls the enabled controls, SitcpInfo the text on the
-- registers, Dialog the state and the handlers (with Dialog/Commands for the timer and the small
-- handlers, Dialog/Receiver for `recv_thread`, Dialog/Window for the window and its messages),
-- FixedMode one of its run modes. Dialog/Valid, Connects, Presses, Uses, Usable, Messages,
-- Dangling, Ends, Takes, Passes and Receives are about them.
-- Examples: the theorems at concrete inputs.
--
-- Bounds and fuel. recv_data gives its loop a round for each byte that is held or received and one
-- more: every round but the last takes a byte. delete_squeue and drain take the fuel as an
-- argument, and one round more than there are entries is enough. The wait of SQGet counts down its
-- own argument. The threads run over a list of events or rounds, so a theorem about them holds for
-- every finite run.
--
-- What is simplified. A call on a queue is atomic, as it runs under the lock. In the manager's
-- model a queue is the list of its entries, its field `queues` says whether the pointers to them
-- are set, and its memory does not run out; the same holds for the receive buffer and the threads.
-- What winsock answers is an argument. The threads and the callers do not run at the same time
-- within one definition; the flags that others set are part of the events, and System interleaves
-- whole passes. A length function gets the memory from a pointer on, the number of bytes received
-- there and the header's length, and is pure. Fields that nothing reads are left out.
-- `RecvSiDaqData` reads one byte behind a block that ends on a frame: the byte is an argument of
-- the model, so the theorems hold for any, and are not about the read itself. The sum of an
-- event's length and the header's wraps around, where C leaves it open. `SiDaqRun` does not free
-- the result of a look-up that failed. `WriteBytes` gets a buffer of at least the length that it
-- is told.
--
-- Not modelled. The release of memory in SiDaqTerminate, DellSiDaqFramer and SiDaqDeleteData;
-- printing; the application's start, the painting, the command ID_APP_EXIT, the choice of a folder
-- and the texts of numbers in MfcSample; CsSample, and the simulator in Pseudo.
pub mod Base
pub mod Squeue
pub mod Framer
pub mod Rbcp
pub mod SockThread
pub mod Api
pub mod System
pub mod Sample
pub mod Examples
