-- ===== src/FileRw.antt =====
-- src/file_rw_nvmeof.cc: a benchmark that appends to local files. This file has its options, its
-- outside calls (files, io_uring, libaio) and what its tests share; the tests are the child modules.
pub mod Trace
pub mod Blocking
pub mod Uring
pub mod Aio
pub mod Select
use nvmeof_project.Prelude.{
  ℕ, Bool, if◌then◌else◌, List, replicate, ℤ, nat_part, nonzero, wrap, ◌^◌,
}
use nvmeof_project.Outside.{Prog, hung, ◌>>=◌, ◌>>◌, call, pure, return_now}

-- The global options; `buffer_size` and `blk_size` are size_t, the rest `int`s.
pub record Options : Type 0 where
  pub n : ℤ
  pub buffer_size : ℕ
  pub blk_size : ℕ
  pub queue_depth : ℤ
  pub idle_threshold : ℤ
  pub large : Bool
  pub poll : Bool
  pub closed_loop : Bool
  pub test_read : Bool
  pub aio : Bool
  pub exprm : List ℕ
  pub fn : ℤ
  pub numthreads : ℤ

-- The flags of `open` besides O_CREAT and O_DIRECT.
pub data Flags : Type 0 where
  write_append_truncate : Flags
  read_write_append_truncate : Flags
  write_only : Flags

pub data Call : Type 0 where
  -- files, memory and time
  open_file : (name : List ℕ) → Flags → Call
  posix_memalign : (align size : ℕ) → Call
  write : (fd : ℤ) (bytes : List ℕ) → Call
  close : (fd : ℤ) → Call
  now : Call
  -- threads; a thread's body is a program of its own
  start_thread : Call
  join_thread : Call
  -- io_uring
  queue_init : (depth : ℤ) (sqpoll : Bool) (idle : ℤ) → Call
  register_files : (fd : ℤ) → Call
  sqring_wait : Call
  get_sqe : Call
  prep_write : (fixed_file : Bool) (fd : ℤ) (bytes : List ℕ) (offset : ℕ) → Call
  link : Call
  prep_close : (fd : ℤ) → Call
  submit : Call
  wait_cqe : Call
  cqe_seen : Call
  queue_exit : Call
  -- libaio
  io_setup : (events : ℕ) → Call
  prep_pwrite : (slot : ℕ) (fd : ℤ) (bytes : List ℕ) → Call
  io_submit : (count : ℕ) → Call
  io_getevents : (min max : ℤ) → Call
  event_fd : (index : ℕ) → Call
  delete_event : (index : ℕ) → Call
  io_destroy : Call

-- The returned number; the result in a completion; whether a returned pointer is not NULL; whether
-- a thread that is joined ends.
pub record Reply : Type 0 where
  pub ret : ℤ
  pub res : ℤ
  pub some_pointer : Bool
  pub ended : Bool

-- How a test ends before its end: by `return`; by `return` while a thread that was started is not
-- joined, where the destructor of std::thread ends the process; by a division by zero.
pub data Ending : Type 0 where
  returned terminated divided_by_zero : Ending

-- The tests keep no state but in their local variables.
abbrev pub TestProg : Type 0 → Type 0
TestProg A = Prog Call Reply (Unit {0}) Ending A

pub leave_if : Bool → Ending → TestProg (Unit {0})
leave_if test e = if test then return_now e else pure tt

-- `join()`, which does not return where the thread does not end.
pub join : TestProg (Unit {0})
join = do r ← call join_thread; if r.ended then pure tt else (λ os s. (hung, s))

-- `for (int i = 0; i < N; i++)` makes as many rounds.
abbrev pub rounds : Options → ℕ
rounds o = nat_part o.n

-- What `memset(buff, -1, buffer_size)` leaves in the buffer.
abbrev pub filled : Options → List ℕ
filled o = replicate o.buffer_size 255

-- `posix_memalign` and its check.
pub allocate : Options → Ending → TestProg (Unit {0})
unfolding leave_if
allocate o e = do r ← call (posix_memalign o.blk_size o.buffer_size); leave_if (nonzero r.ret) e
