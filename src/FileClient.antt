-- ===== src/FileClient.antt =====
-- src/file_initiator.cc: the client of the file server. It sends its parameters, opens a stream of
-- requests, writes N requests to it and reads the replies. The stub, the stream, threads and the
-- clock are outside calls.
pub mod Select
pub mod Trace
pub mod Sends
pub mod Files
pub mod Remote
use nvmeof_project.Prelude.{
  ℕ, zero, suc, ◌-◌, ◌%◌, ◌^◌, ltb, if◌then◌else◌, Bool, true, not, List, [], ◌∷◌, ◌++◌, replicate,
  ℤ, pos, negsuc, nat_part, wrap, ◌&&◌,
}
use nvmeof_project.Outside.{Prog, for_range, ◌>>=◌, ◌>>◌, call, pure, return_now, function}
use nvmeof_project.Names.{large_file, small_file, small_async_file, equal_text}
use nvmeof_project.Names.Decimal.{to_string}
use nvmeof_project.FileTarget.{FileRequest, Parameters}

-- The global options; the two sizes are size_t, the other numbers `int`s.
pub record Options : Type 0 where
  pub server_addr : List ℕ
  pub server_port : ℤ
  pub buffer_size : ℕ
  pub blk_size : ℕ
  pub n : ℤ
  pub queue_depth : ℤ
  pub idle_threshold : ℤ
  pub large : Bool
  pub poll : Bool
  pub closed_loop : Bool
  pub test_read : Bool
  pub exprm : List ℕ
  pub fn : ℤ
  pub numthreads : ℤ

-- The methods of the service that open a stream.
pub data Method : Type 0 where
  one_large_file many_small_files many_small_files_async one_large_file_async : Method
  one_large_file_async_expr : Method

pub data Call : Type 0 where
  new_stub : (endpoint : List ℕ) → Call
  set_parameters : Parameters → Call
  open_stream : Method → Call
  write_stream : FileRequest → Call
  read_stream : Call
  writes_done : Call
  finish : Call
  hardware_concurrency : Call
  start_thread : Call
  join_thread : Call
  now : Call

-- Whether the status is OK; the other answers are not looked at, but for the figures printed.
pub record Reply : Type 0 where
  pub is_ok : Bool

-- The tests keep no state but in their local variables, and return nothing.
abbrev pub ClientProg : Type 0 → Type 0
ClientProg A = Prog Call Reply (Unit {0}) (Unit {0}) A

unfoldable pub leave_if : Bool → ClientProg (Unit {0})
leave_if test = if test then return_now tt else pure tt

-- The conversion to an int32 field.
unfoldable pub to_int32 : ℕ → ℤ
to_int32 n = let m = n % 2 ^ 32 in if ltb m (2 ^ 31) then pos m else negsuc (2 ^ 32 - 1 - m)

unfoldable pub params_of : Options → Parameters
unfolding to_int32
params_of o = record {
  blk_size = to_int32 o.blk_size;
  buffer_size = to_int32 o.buffer_size;
  queue_depth = o.queue_depth;
  poll_threshold = o.idle_threshold;
  n = o.n;
  nfiles = pos 0;
}

-- A failure is printed, and the caller goes on.
unfoldable pub set_target_params : Options → ClientProg (Unit {0})
unfolding params_of
set_target_params o = do call (set_parameters (params_of o)); pure tt

-- std::to_string of an `int`.
unfoldable pub int_to_string : ℤ → List ℕ
int_to_string (pos n) = to_string n
int_to_string (negsuc n) = b'-' ∷ to_string (suc n)

unfoldable pub build_rpc_stub : Options → ClientProg (Unit {0})
unfolding int_to_string
build_rpc_stub o = do
  call (new_stub (o.server_addr ++ (b':' ∷ int_to_string o.server_port)))
  pure tt

-- `for (int i = 0; i < N; i++)` makes as many rounds.
abbrev pub rounds : Options → ℕ
rounds o = nat_part o.n

-- What `set_data(buffer)` copies: the buffer has no NUL, so the copy goes on with the bytes behind
-- it, up to the first that is 0. These are `behind`.
abbrev pub data_of : Options → List ℕ → List ℕ
data_of o behind = replicate o.buffer_size 255 ++ behind

pub large_request : Options → List ℕ → ℕ → FileRequest
large_request o behind i = record { filename = large_file; contents = data_of o behind }

unfoldable pub small_request : Options → List ℕ → ℕ → FileRequest
small_request o behind i = record { filename = small_file i; contents = data_of o behind }

pub small_async_request : Options → List ℕ → ℕ → FileRequest
small_async_request o behind i = record {
  filename = small_async_file i;
  contents = data_of o behind;
}

-- The file name is not set.
pub expr_request : Options → List ℕ → ℕ → FileRequest
expr_request o behind i = record { filename = []; contents = data_of o behind }

-- One round of a blocking test, and of an asynchronous one.
unfoldable pub blocking_round : (ℕ → FileRequest) → ℕ → ClientProg (Unit {0})
blocking_round request i = do call (write_stream (request i)); call read_stream; pure tt

pub async_round : (ℕ → FileRequest) → ℕ → ClientProg (Unit {0})
async_round request i = do call (write_stream (request i)); pure tt

-- What comes before the loop.
unfoldable pub start_test : Options → Method → ClientProg (Unit {0})
unfolding build_rpc_stub set_target_params
start_test o method = do
  build_rpc_stub o
  set_target_params o
  call (open_stream method)
  call now
  pure tt

-- What comes after the loop; the duration is printed.
unfoldable pub end_blocking : ClientProg (Unit {0})
unfolding leave_if
end_blocking = do
  call writes_done
  status ← call finish
  leave_if (not status.is_ok)
  call now
  pure tt

pub end_async : ClientProg (Unit {0})
unfolding leave_if
end_async = do
  call writes_done
  call read_stream
  status ← call finish
  leave_if (not status.is_ok)
  call now
  pure tt

pub test_large_blocking : Options → List ℕ → ClientProg (Unit {0})
unfolding start_test large_request blocking_round end_blocking
test_large_blocking o behind = do
  start_test o one_large_file
  for_range (blocking_round (large_request o behind)) 0 (rounds o)
  end_blocking

unfoldable pub test_small_blocking : Options → List ℕ → ClientProg (Unit {0})
unfolding start_test small_request blocking_round end_blocking
test_small_blocking o behind = do
  start_test o many_small_files
  for_range (blocking_round (small_request o behind)) 0 (rounds o)
  end_blocking

pub test_small_async : Options → List ℕ → ClientProg (Unit {0})
unfolding start_test small_async_request async_round end_async
test_small_async o behind = do
  start_test o many_small_files_async
  for_range (async_round (small_async_request o behind)) 0 (rounds o)
  end_async

pub test_large_async : Options → List ℕ → ClientProg (Unit {0})
unfolding start_test large_request async_round end_async
test_large_async o behind = do
  start_test o one_large_file_async
  for_range (async_round (large_request o behind)) 0 (rounds o)
  end_async

-- The parameters of the test of several files; a failure ends the test.
pub start_expr : Options → ClientProg (Unit {0})
unfolding build_rpc_stub params_of leave_if
start_expr o = do
  build_rpc_stub o
  status ← call (set_parameters (record (params_of o) { nfiles = o.fn }))
  leave_if (not status.is_ok)
  call (open_stream one_large_file_async_expr)
  call now
  pure tt

pub test_large_async_expr : Options → List ℕ → ClientProg (Unit {0})
unfolding start_expr expr_request async_round end_async
test_large_async_expr o behind = do
  start_expr o
  for_range (async_round (expr_request o behind)) 0 (rounds o)
  end_async

-- One of the threads of test_large_async_multithreads; it does not take the time at its end.
pub open_in_thread : ClientProg (Unit {0})
open_in_thread = do call (open_stream one_large_file_async_expr); call now; pure tt

pub end_in_thread : ClientProg (Unit {0})
unfolding leave_if
end_in_thread = do
  call writes_done
  call read_stream
  status ← call finish
  leave_if (not status.is_ok)

pub stream_thread : Options → List ℕ → ClientProg (Unit {0})
unfolding open_in_thread expr_request async_round end_in_thread
stream_thread o behind = do
  open_in_thread
  for_range (async_round (expr_request o behind)) 0 (rounds o)
  end_in_thread

-- `threads[i] = std::thread(...)` and `threads[i].join()`
pub start_one : ℕ → ClientProg (Unit {0})
start_one i = do call start_thread; pure tt

pub join_one : ℕ → ClientProg (Unit {0})
join_one i = do call join_thread; pure tt

-- The poll threshold is not set.
pub start_threads : Options → ClientProg (Unit {0})
unfolding build_rpc_stub params_of leave_if
start_threads o = do
  call hardware_concurrency
  build_rpc_stub o
  status ← call (set_parameters (record (params_of o) { nfiles = o.fn; poll_threshold = pos 0 }))
  leave_if (not status.is_ok)
  call now
  pure tt

pub test_large_async_multithreads : Options → ClientProg (Unit {0})
unfolding start_threads start_one join_one
test_large_async_multithreads o = do
  start_threads o
  for_range start_one 0 (nat_part o.numthreads)
  for_range join_one 0 (nat_part o.numthreads)
  call now
  pure tt
