-- ===== src/Worker.antt =====
-- src/benchmark.cc: the benchmark's worker. This file has its options, its state and its outside
-- calls (files, io_uring, RDMA); the parts of the worker's code are the child modules.
pub mod Ring
pub mod Launch
pub mod Cm
pub mod Rdma
pub mod Monitor
pub mod Main
use nvmeof_project.Prelude.{ℕ, Bool, List, Option, ℤ}
use nvmeof_project.Outside.{Prog}

-- The global options. `unsigned` and `unsigned long` values are natural numbers.
pub record Options : Type 0 where
  pub bs : ℕ
  pub io_uring_batch_submit : ℕ
  pub rdma_batch_submit : ℕ
  pub test_file : List ℕ
  pub file_size : ℕ
  pub io_uring_queue_depth : ℕ
  pub rdma_queue_depth : ℕ
  pub runtime : ℕ
  pub client : Bool
  pub user_rdma : Bool
  pub host : List ℕ
  pub base_port : ℕ
  pub event : Bool

-- struct rdma_rmt_buf
pub record RmtBuf : Type 0 where
  pub addr : ℕ
  pub size : ℕ
  pub rkey : ℕ

pub record Iovec : Type 0 where
  pub iov_len : ℕ
  pub iov_base : ℕ

-- struct io_worker. Pointers and handles are numbers, 0 for NULL. Of `ring` it has `in_flight`, the
-- requests prepared and not yet completed; `iovecs` is the local variable of that name, to which
-- every prepared request points; an MR has an lkey and an rkey.
pub record IoWorker : Type 0 where
  pub worker_id : ℕ
  pub in_flight : ℕ
  pub io_uring_sqe_queued : ℕ  -- unsigned
  pub rdma_wr_posted : ℕ  -- unsigned long, as the next four
  pub cur_offset : ℕ
  pub io_completed : ℕ
  pub free_io_units_io_uring : ℕ
  pub free_io_units_rdma : ℕ
  pub fd : ℤ
  pub stopped : Bool
  pub start_time : ℕ
  pub cm_id : ℕ
  pub cm_listen_id : ℕ
  pub comp_channel : ℕ
  pub cm_channel : ℕ
  pub cq : ℕ
  pub pd : ℕ
  pub qp : ℕ
  pub rmt_buf : RmtBuf
  pub data_pool : ℕ
  pub data_pool_size : ℕ
  pub data_pool_mr : ℕ
  pub port : ℕ
  pub iovecs : Iovec

-- enum rdma_cm_event_type, as far as it is used
pub data CmEvent : Type 0 where
  addr_resolved route_resolved connect_request established other_event : CmEvent

-- The opcode of a work request; the source leaves it unset in one.
pub data Opcode : Type 0 where
  op_send op_rdma_read op_unset : Opcode

-- A send carries what its buffer holds, where that is the token.
pub record WorkRequest : Type 0 where
  pub opcode : Opcode
  pub sge_addr : ℕ
  pub sge_length : ℕ
  pub sge_lkey : ℕ
  pub remote_addr : ℕ
  pub remote_rkey : ℕ
  pub wr_id : ℕ
  pub contents : Option RmtBuf

-- struct ibv_wc; `status` is 0 for IBV_WC_SUCCESS.
pub record Wc : Type 0 where
  pub status : ℕ
  pub wr_id : ℕ

pub data Call : Type 0 where
  -- files and time
  open_test_file : List ℕ → Call
  fstat : (fd : ℤ) → Call
  fallocate : (fd : ℤ) (size : ℕ) → Call
  memalign : (align size : ℕ) → Call
  now : Call
  usleep : ℕ → Call
  -- the worker's thread
  pthread_create : (user_rdma : Bool) → Call
  set_affinity : (cpu : ℕ) → Call
  free_worker : Call
  -- the threads of `main`; `monitor` is told whether there is a worker
  create_monitor : (worker : Bool) → Call
  join_worker : Call
  join_thread : (handle : ℤ) → Call
  -- io_uring; `submit` carries what the queued requests point to
  queue_init : (depth : ℕ) → Call
  get_sqe : Call
  prep_writev : (fd : ℤ) (offset in_flight : ℕ) → Call
  submit : (queued : ℕ) → Iovec → Call
  next_cqe : (in_flight : ℕ) → Call
  cqe_seen : Call
  -- the RDMA connection manager
  create_event_channel : Call
  create_id : (channel : ℕ) → Call
  resolve_addr : (id : ℕ) (host : List ℕ) (port : ℕ) → Call
  resolve_route : (id : ℕ) → Call
  bind_addr : (id : ℕ) (host : List ℕ) (port : ℕ) → Call
  listen : (id backlog : ℕ) → Call
  get_cm_event : (channel : ℕ) → Call
  ack_cm_event : CmEvent → Call
  create_qp : (id pd cq max_send_wr max_recv_wr : ℕ) → Call
  connect : (id : ℕ) → Call
  accept : (id : ℕ) → Call
  -- verbs
  query_device : (id : ℕ) → Call
  alloc_pd : (id : ℕ) → Call
  create_comp_channel : (id : ℕ) → Call
  create_cq : (id entries channel : ℕ) → Call
  req_notify_cq : (cq : ℕ) → Call
  reg_mr : (pd addr length : ℕ) (remote : Bool) → Call
  dereg_mr : (mr : ℕ) → Call
  post_recv : (qp addr length lkey : ℕ) → Call
  post_send : (qp : ℕ) → WorkRequest → Call
  get_cq_event : (channel : ℕ) → Call
  poll_cq : (cq entries : ℕ) → Call
  ack_cq_events : (cq count : ℕ) → Call

-- The returned `int`; a returned pointer or handle, a size or a time; the result in the next
-- completion of the ring, if there is one; the connection manager's event; the work completions;
-- and what a posted receive has written to its buffer by the time it is polled.
pub record Reply : Type 0 where
  pub ret : ℤ
  pub value : ℕ
  pub cqe : Option ℤ
  pub cm_event : CmEvent
  pub wcs : List Wc
  pub token : RmtBuf

-- The code's functions, by the type of their early returns and of their results.
abbrev pub Code : Type 0 → Type 0 → Type 0
Code E A = Prog Call Reply IoWorker E A
