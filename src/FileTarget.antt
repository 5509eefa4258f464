-- ===== src/FileTarget.antt =====
-- src/file_target.cc, class GRPCFileServerSync: the parameters, the statistics, and the two handlers
-- that append with blocking writes what a stream of requests brings. The stream, the files and the
-- clock are outside calls.
pub mod Store
pub mod Many
pub mod Large
pub mod Ring
use nvmeof_project.Prelude.{
  ℕ, zero, suc, ◌+◌, ◌^◌, leb, ◌==◌, if◌then◌else◌, Bool, true, false, not, List, [], ◌∷◌, ◌++◌,
  length, take, ℤ, pos, is_neg, nonzero, nat_part, ◌+ℤ◌, ◌-ℤ◌, c_div, wrap,
}
use nvmeof_project.Outside.{Prog, ◌>>=◌, ◌>>◌, call, pure, return_now, get, modify, function, hung}

-- `bytes filename, data`
pub record FileRequest : Type 0 where
  pub filename : List ℕ
  pub contents : List ℕ

-- The fields of GRPCFileServerSync that a handler reads or sets; `buffer_size` is a size_t.
pub record FileServer : Type 0 where
  pub buffer_size : ℕ
  pub queue_depth : ℤ
  pub poll_threshold : ℤ
  pub blk_size : ℤ
  pub request_count : ℤ  -- N
  pub file_count : ℤ  -- fn
  pub time_on_allocation : ℤ
  pub time_on_rw : ℤ
  pub time_total : ℤ
  pub time_on_open : ℤ

-- The `int32` fields of the message.
pub record Parameters : Type 0 where
  pub blk_size : ℤ
  pub buffer_size : ℤ
  pub queue_depth : ℤ
  pub poll_threshold : ℤ
  pub n : ℤ
  pub nfiles : ℤ

unfoldable pub set_parameters : Parameters → FileServer → FileServer
set_parameters params s = record s {
  buffer_size = wrap (2 ^ 64) params.buffer_size;
  queue_depth = params.queue_depth;
  poll_threshold = params.poll_threshold;
  blk_size = params.blk_size;
  request_count = params.n;
  file_count = params.nfiles;
}

-- The four durations that the text of GetStat has, in its order.
pub record FileStat : Type 0 where
  pub allocation : ℤ
  pub writes : ℤ
  pub open_files : ℤ
  pub total : ℤ

pub get_stat : FileServer → FileStat
get_stat s = record {
  allocation = c_div s.time_on_allocation 1000000;
  writes = c_div s.time_on_rw 1000000;
  open_files = c_div s.time_on_open 1000000;
  total = c_div s.time_total 1000000;
}

pub reset_stat : FileServer → FileServer
reset_stat s = record s {
  time_on_allocation = pos 0;
  time_on_rw = pos 0;
  time_total = pos 0;
  time_on_open = pos 0;
}

pub data Call : Type 0 where
  read_stream : Call
  open_file : (filename : List ℕ) (truncate : Bool) → Call
  posix_memalign : (align : ℤ) (size : ℕ) → Call
  write : (fd : ℤ) (bytes : List ℕ) → Call
  close : (fd : ℤ) → Call
  write_stream : Call
  now : Call

-- The returned number, or the time; whether the stream had a request, and that request.
pub record Reply : Type 0 where
  pub ret : ℤ
  pub more : Bool
  pub request : FileRequest

-- Status::OK, the four texts of Status UNKNOWN, or a copy of more bytes than the request's data and
-- the NUL after them.
pub data Outcome : Type 0 where
  ok open_failed memalign_failed write_failed close_failed overread : Outcome

abbrev pub FileProg : Type 0 → Type 0
FileProg A = Prog Call Reply FileServer Outcome A

unfoldable pub fail_if : Bool → Outcome → FileProg (Unit {0})
fail_if test e = if test then return_now e else pure tt

-- A part whose duration is added to one of the counters when it ends.
unfoldable pub timed : {A : Type 0} → (ℤ → FileServer → FileServer) → FileProg A → FileProg A
timed add part = do
  start ← call now
  a ← part
  end ← call now
  modify (add (end.ret -ℤ start.ret))
  pure a

abbrev pub add_open : ℤ → FileServer → FileServer
add_open d s = record s { time_on_open = s.time_on_open +ℤ d }

abbrev pub add_allocation : ℤ → FileServer → FileServer
add_allocation d s = record s { time_on_allocation = s.time_on_allocation +ℤ d }

abbrev pub add_rw : ℤ → FileServer → FileServer
add_rw d s = record s { time_on_rw = s.time_on_rw +ℤ d }

-- What `memcpy(buffer, request.data().data(), buffer_size)` leaves in the buffer.
abbrev pub payload : ℕ → FileRequest → List ℕ
payload size request = take size (request.contents ++ 0 ∷ [])

-- The buffer is never freed.
unfoldable pub fill_buffer : FileRequest → FileProg (List ℕ)
unfolding fail_if
fill_buffer request = do
  s ← get
  err ← call (posix_memalign s.blk_size s.buffer_size)
  fail_if (nonzero err.ret) memalign_failed
  fail_if (not (leb s.buffer_size (length request.contents + 1))) overread
  pure (payload s.buffer_size request)

-- `write(fd, buffer, buffer_size) != buffer_size`, on a size_t.
unfoldable pub short_write : ℕ → ℤ → Bool
short_write size written = if is_neg written then true else not (nat_part written == size)

-- One round of the `do` loop of AppendOneLargeFile: the request is appended and the next one read.
pub append_one : ℤ → FileRequest → FileProg Reply
unfolding timed fill_buffer fail_if
append_one fd request = do
  buffer ← timed add_allocation (fill_buffer request)
  written ← timed add_rw (call (write fd buffer))
  fail_if (is_neg written.ret) write_failed
  call write_stream
  call read_stream

pub append_loop : ℕ → ℤ → FileRequest → FileProg (Unit {0})
unfolding append_one
append_loop zero fd request = λ os s. (hung, s)
append_loop (suc rounds) fd request = do
  next ← append_one fd request
  if next.more then append_loop rounds fd next.request else pure tt

-- Neither the first read nor `open` is checked; where the stream has no request, the first one is
-- the default message.
pub append_one_large_file : {E : Type 0} → ℕ → FileRequest → Prog Call Reply FileServer E Outcome
unfolding append_loop
append_one_large_file rounds default = function (do
  first ← call read_stream
  let request = if first.more then first.request else default
  fd ← call (open_file request.filename true)
  append_loop rounds fd.ret request
  call (close fd.ret)
  pure ok)

-- One request of AppendManySmallFiles.
unfoldable pub store_file : FileRequest → FileProg (Unit {0})
unfolding timed fill_buffer fail_if short_write
store_file request = do
  fd ← timed add_open (call (open_file request.filename false))
  fail_if (is_neg fd.ret) open_failed
  buffer ← timed add_allocation (fill_buffer request)
  s ← get
  timed add_rw (do
    written ← call (write fd.ret buffer)
    fail_if (short_write s.buffer_size written.ret) write_failed)
  closed ← call (close fd.ret)
  fail_if (nonzero closed.ret) close_failed
  call write_stream
  pure tt

unfoldable pub store_loop : ℕ → FileProg (Unit {0})
unfolding store_file
store_loop zero = λ os s. (hung, s)
store_loop (suc rounds) = do
  next ← call read_stream
  if next.more then (do store_file next.request; store_loop rounds) else pure tt

unfoldable pub append_many_small_files : {E : Type 0} → ℕ → Prog Call Reply FileServer E Outcome
unfolding store_loop
append_many_small_files rounds = function (do
  total_start ← call now
  store_loop rounds
  end ← call now
  modify (λ s. record s { time_total = s.time_total +ℤ (end.ret -ℤ total_start.ret) })
  pure ok)
