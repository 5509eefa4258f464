-- ===== src/Tests/Client.antt =====
-- The client of src/file_initiator.cc with one request of four bytes, and the file server that it
-- talks to.
use nvmeof_project.Prelude.{zero, suc, refl, true, false, [], ◌≡◌, pos, arith}
use nvmeof_project.Outside.{boot, for_range}
use nvmeof_project.Names.{small_file}
use nvmeof_project.Names.Decimal.{to_string, digits}
use nvmeof_project.FileTarget.{
  store_loop, store_file, timed, fill_buffer, fail_if, short_write, FileServer, read_stream,
  open_file, write, append_many_small_files, set_parameters,
}
use nvmeof_project.FileTarget.Store.{FileOs}
use nvmeof_project.FileTarget.Many.{EndsBy}
use nvmeof_project.FileClient.{
  to_int32, set_target_params, build_rpc_stub, int_to_string, leave_if, start_test, blocking_round,
  end_blocking, Options, many_small_files, many_small_files_async, one_large_file,
  one_large_file_async, params_of, to_int32, set_target_params, build_rpc_stub, int_to_string,
  leave_if, start_test, blocking_round, end_blocking, large_request, small_request,
  small_async_request, test_large_blocking, test_small_blocking, test_small_async, test_large_async,
  test_large_async_expr,
}
use nvmeof_project.FileClient.Trace.{ClientOs}
use nvmeof_project.FileClient.Sends.{SendsAll, ExprSends, tests-SendsAll}
use nvmeof_project.FileClient.Remote.{
  RemoteFiles, set_parameters-params_of, append_many_small_files-Remote,
}

abbrev client_options : Options
client_options = record {
  server_addr = [];
  server_port = pos 9876;
  buffer_size = 4;
  blk_size = 512;
  n = pos 1;
  queue_depth = pos 8;
  idle_threshold = pos 2000;
  large = false;
  poll = false;
  closed_loop = true;
  test_read = false;
  exprm = [];
  fn = pos 1;
  numthreads = pos 1;
}

abbrev good_network : ClientOs
good_network n c = record { is_ok = true }

abbrev new_server : FileServer
new_server = record {
  buffer_size = 0;
  queue_depth = pos 0;
  poll_threshold = pos 0;
  blk_size = pos 0;
  request_count = pos 0;
  file_count = pos 0;
  time_on_allocation = pos 0;
  time_on_rw = pos 0;
  time_total = pos 0;
  time_on_open = pos 0;
}

tests-SendsAll_example :
    let p = params_of client_options in
    SendsAll p one_large_file
      (large_request client_options [])
      1
      1
      (test_large_blocking client_options [] good_network (boot tt))
    × SendsAll p many_small_files
        (small_request client_options [])
        1
        1
        (test_small_blocking client_options [] good_network (boot tt))
    × SendsAll p many_small_files_async
        (small_async_request client_options [])
        1
        1
        (test_small_async client_options [] good_network (boot tt))
    × SendsAll p one_large_file_async
        (large_request client_options [])
        1
        1
        (test_large_async client_options [] good_network (boot tt))
    × ExprSends client_options [] good_network
        (test_large_async_expr client_options [] good_network (boot tt))
tests-SendsAll_example = tests-SendsAll client_options [] good_network

set_parameters-params_of_example :
    let p = set_parameters (params_of client_options) new_server in
    (p.buffer_size ≡ 4)
    × (p.blk_size ≡ pos 512)
    × (p.request_count ≡ pos 1)
    × (p.queue_depth ≡ pos 8)
    × (p.poll_threshold ≡ pos 2000)
set_parameters-params_of_example =
    set_parameters-params_of client_options new_server (omega arith) (omega arith)

-- The stream has the client's request at the server's second call; a descriptor is the number of a
-- call.
abbrev server_system : FileOs
server_system (suc zero) read_stream = record {
  ret = pos 0;
  more = true;
  request = small_request client_options [] 0;
}
server_system n (open_file name trunc) = record {
  ret = pos n;
  more = false;
  request = small_request client_options [] 0;
}
server_system n (write fd bytes) = record {
  ret = pos 4;
  more = false;
  request = small_request client_options [] 0;
}
server_system n _ = record {
  ret = pos 0;
  more = false;
  request = small_request client_options [] 0;
}

server_system-EndsBy : EndsBy 2 server_system
server_system-EndsBy zero h = absurd (omega arith)
server_system-EndsBy (suc zero) h = absurd (omega arith)
server_system-EndsBy (suc (suc n)) h = refl

append_many_small_files-Remote_example :
    let p = set_parameters (params_of client_options) new_server in
    RemoteFiles client_options 0 (append_many_small_files {E = Unit {0}} 5 server_system (boot p)).1
unfolding append_many_small_files store_loop store_file timed fill_buffer fail_if short_write
    test_small_blocking start_test small_request blocking_round end_blocking build_rpc_stub
    int_to_string set_target_params leave_if params_of to_int32 set_parameters small_file to_string
    digits for_range
append_many_small_files-Remote_example =
    append_many_small_files-Remote client_options [] good_network server_system new_server 2 5 0
      (omega arith) server_system-EndsBy (omega arith) (omega arith) refl refl
