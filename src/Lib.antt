-- ===== src/Lib.antt =====
-- nvmeof-project measures storage over a network: servers and clients that read and write blocks of
-- NVMe devices and files, over TCP, gRPC and RDMA, and a benchmark. The parts modelled here:
--
-- Tcp         src/net.h, class TCPConnection: `init` (both roles), `send`, `recv` and `close_connection`
--             (the method `close`).
-- Nvme        src/nvme.h: `init_device_config` and `open_bdev`, and the outside calls of the code that
--             submits NVMe commands.
-- Block       src/net.h, class GRPCSyncServer: ReadBlock (`read_block`), WriteBlock (`write_block`),
--             GetStat and ResetStat.
-- Block/Server    the constructors of GRPCSyncServer and GRPCAsyncServer (`open_server`).
-- Async       src/net.h, class GRPCAsyncServer: the call objects, their `proceed`, and the loop of
--             RPCHandler::exec.
-- FileTarget  src/file_target.cc, class GRPCFileServerSync: SetParameters, AppendOneLargeFile,
--             AppendManySmallFiles, GetStat and ResetStat.
-- Local       src/block_rw_nvmeof.cc: `test_write_throughput_random`, its random start block, and main.
-- Names       The file names made from numbers, and std::to_string.
-- FileClient  src/file_initiator.cc: the five tests on one stream, the multi-threaded test and its
--             thread. FileClient/Select has the options and main, FileClient/Remote puts the client
--             together with FileTarget, and FileClient/Files has the files that are stored.
-- FileRw      src/file_rw_nvmeof.cc: options and outside calls. FileRw/Blocking has the tests with
--             write, FileRw/Uring those on io_uring, FileRw/Aio those on libaio, FileRw/Select main.
-- FileTarget/Ring  src/file_target.cc: the three handlers on io_uring, as one system: `step_at` for
--             the handler, `reap` for cq_thread and a step of the kernel, in any order (`Step`, `Reach`).
-- BlockTarget src/block_target.cc: the random test, over a connection and a device.
-- BlockClient src/block_initiator.cc: main. BlockClient/Served puts it together with Async.
-- Worker      src/benchmark.cc: the options, the worker's state and its outside calls.
-- Worker/Ring     reap_io_uring_cq and do_io_io_uring.
-- Worker/Launch   set_worker_cpu, launch_worker and the two sizes in parse_args.
-- Worker/Cm       get_next_channel_event, rdma_setup and rdma_handshake.
-- Worker/Rdma     reap_rdma_cq, rdma_client_terminate and do_io_user_rdma.
-- Worker/Monitor  calculate_stats, the thread that prints what a worker has done.
-- Worker/Main     parse_args and main.
-- Tests       the theorems at concrete inputs.
-- Prelude and Outside have what the parts share. The servers of Block take their configuration from
-- Nvme, and the RDMA worker writes what it has read through the ring of Worker/Ring.
--
-- Calls that leave the program (sockets, files, libnvme, liburing, librdmacm, libibverbs, the clock)
-- are answered by an argument `os`, a function of the number of calls made before and of the call;
-- every statement is for all such functions, or for those that a named hypothesis admits. A function
-- of the source is a program over these calls: it passes on a machine with the number of calls,
-- their list with the answers (the last first) and the memory, and ends by falling through (`done`),
-- by an early return (`stop`), or by running out of a loop's fuel or waiting for a thread that does
-- not end (`hung`). Of the text that is printed only the rates of Worker/Monitor and the result in
-- BlockClient are modelled.
--
-- Integers are natural numbers with their wrap-around written out, or the ℤ of Prelude/Int where
-- they can be negative; a product or a sum of `int`s is taken without overflow, and the benchmark's
-- options that are `int`s are taken not to be negative. Pointers and handles are numbers, 0 for
-- NULL.
--
-- Loops take fuel. For `send` and `recv`, `(b - clock) + len` rounds are enough when the socket is
-- not interrupted from call `b` on, as one round then moves at least a byte or fails. The file
-- server's handlers take a round for each request, so the number of calls by which the stream ends
-- is enough. The tests on libaio take N rounds of their outer loop at most. A loop that asks for a
-- free entry of a ring until there is one has fuel of its own; the system of FileTarget/Ring has no
-- fuel, there it is a step that may be taken again. The main loops of the worker end only with the
-- clock: `rounds` counts their rounds and `inner` those of each loop within them, and what is stated
-- of such a loop is stated for every fuel.
--
-- Not modelled: gRPC itself and the main functions that only start a server, text that is printed
-- (dump_config, nvme_strerror, nvme_show_status), the argument parser, random_start_block of
-- src/block_initiator.cc, which nothing calls, the third-party headers, and the class
-- RDMAConnection, which is commented out.
pub mod Prelude
pub mod Outside
pub mod Tcp
pub mod Nvme
pub mod Block
pub mod Async
pub mod Names
pub mod FileTarget
pub mod FileClient
pub mod FileRw
pub mod Local
pub mod BlockTarget
pub mod BlockClient
pub mod Worker
pub mod Tests
