-- ===== src/Worker/Cm.antt =====
-- src/benchmark.cc: how a worker gets its RDMA connection. `1` is returned on an error.
pub mod Handles
pub mod Polling
pub mod Flow
use nvmeof_project.Prelude.{
  ℕ, zero, suc, ◌+◌, ◌*◌, ◌%◌, ◌^◌, ltb, ◌==◌, Bool, true, false, if◌then◌else◌, not, some, List,
  [], ◌∷◌, ℤ, pos, is_neg, nonzero, nat_part,
}
use nvmeof_project.Outside.{Prog, ◌>>=◌, ◌>>◌, call, pure, return_now, get, modify, function, hung}
use nvmeof_project.Worker
use nvmeof_project.Worker.{
  Options, IoWorker, RmtBuf, CmEvent, Opcode, WorkRequest, Wc, Code, addr_resolved, route_resolved,
  connect_request, established, other_event, op_send, memalign, usleep, create_event_channel,
  create_id, resolve_addr, resolve_route, bind_addr, listen, get_cm_event, ack_cm_event, create_qp,
  query_device, alloc_pd, create_comp_channel, create_cq, req_notify_cq, reg_mr, dereg_mr,
  post_recv, post_send, get_cq_event, poll_cq, ack_cq_events,
}
use nvmeof_project.Worker.Ring.{pagesize, u16}

-- `if (test) return 1;`
abbrev pub fail_if : Bool → Code ℤ (Unit {0})
fail_if test = if test then return_now (pos 1) else pure tt

abbrev pub cm_event_eq : CmEvent → CmEvent → Bool
cm_event_eq addr_resolved addr_resolved = true
cm_event_eq route_resolved route_resolved = true
cm_event_eq connect_request connect_request = true
cm_event_eq established established = true
cm_event_eq _ _ = false

-- A connect request brings the new connection's id, the reply's `value`.
pub event_id : CmEvent → ℕ → IoWorker → IoWorker
event_id connect_request id w = record w { cm_id = id }
event_id _ id w = w

pub get_next_channel_event : {E : Type 0} → CmEvent → Code E ℤ
get_next_channel_event wait_event = function (do
  w ← get
  r ← call (get_cm_event w.cm_channel)
  fail_if (nonzero r.ret)
  fail_if (not (cm_event_eq r.cm_event wait_event))
  modify (event_id r.cm_event r.value)
  call (ack_cm_event r.cm_event)
  pure (pos 0))

-- `if (get_next_channel_event(worker, event)) return 1;`
pub await_event : CmEvent → Code ℤ (Unit {0})
await_event e = do r ← get_next_channel_event e; fail_if (nonzero r)

-- rdma_setup up to the resolved route.
pub resolve_client : Options → Code ℤ (Unit {0})
resolve_client o = do
  w ← get
  r ← call (resolve_addr w.cm_id o.host (u16 (o.base_port + w.worker_id)))
  fail_if (nonzero r.ret)
  await_event addr_resolved
  w ← get
  r ← call (resolve_route w.cm_id)
  fail_if (nonzero r.ret)
  await_event route_resolved

-- rdma_setup up to the connect request.
pub await_client : Options → Code ℤ (Unit {0})
await_client o = do
  w ← get
  r ← call (bind_addr w.cm_listen_id o.host (u16 (o.base_port + w.worker_id)))
  fail_if (nonzero r.ret)
  r ← call (listen w.cm_listen_id 3)
  fail_if (nonzero r.ret)
  await_event connect_request

-- The event channel and the id of the role.
pub create_ids : Options → Code ℤ (Unit {0})
create_ids o = do
  r ← call create_event_channel
  modify (λ w. record w { cm_channel = r.value })
  fail_if (r.value == 0)
  id ← call (create_id r.value)
  modify (λ w.
      if o.client then record w { cm_id = id.value } else record w { cm_listen_id = id.value })
  fail_if (nonzero id.ret)

-- The verbs objects: protection domain, completion channel and queue, queue pair.
pub create_queues : Options → Code ℤ (Unit {0})
create_queues o = do
  w ← get
  pd ← call (alloc_pd w.cm_id)
  modify (λ w. record w { pd = pd.value })
  fail_if (pd.value == 0)
  ch ← call (create_comp_channel w.cm_id)
  modify (λ w. record w { comp_channel = ch.value })
  fail_if (ch.value == 0)
  cq ← call (create_cq w.cm_id (o.rdma_queue_depth * 2) ch.value)
  modify (λ w. record w { cq = cq.value })
  fail_if (cq.value == 0)
  r ← call (req_notify_cq cq.value)
  fail_if (nonzero r.ret)
  qp ← call (create_qp w.cm_id pd.value cq.value o.rdma_queue_depth o.rdma_queue_depth)
  fail_if (nonzero qp.ret)
  modify (λ w. record w { qp = qp.value })

pub rdma_setup : {E : Type 0} → Options → Code E ℤ
rdma_setup o = function (do
  create_ids o
  if o.client then resolve_client o else await_client o
  create_queues o
  pure (pos 0))

-- `do { ret = ibv_poll_cq(cq, 1, &wc); } while (ret < 1);`, then the test of its status. What a
-- posted receive wrote is there when its completion is.
abbrev status_of : List Wc → ℕ
status_of [] = 0
status_of (wc ∷ _) = wc.status

pub poll_one : ℕ → Code ℤ RmtBuf
poll_one zero = λ os s. (hung, s)
poll_one (suc fuel) = do
  w ← get
  r ← call (poll_cq w.cq 1)
  if ltb (nat_part r.ret) 1
      then poll_one fuel
      else (do fail_if (not (status_of r.wcs == 0)); pure r.token)

-- One completion is awaited: the event, its queue, a new request for events, the completion.
pub await_completion : ℕ → Code ℤ RmtBuf
await_completion fuel = do
  w ← get
  ev ← call (get_cq_event w.comp_channel)
  fail_if (nonzero ev.ret)
  fail_if (not (ev.value == w.cq))
  r ← call (req_notify_cq w.cq)
  fail_if (nonzero r.ret)
  token ← poll_one fuel
  call (ack_cq_events w.cq 1)
  pure token

-- The size of struct rdma_rmt_buf, and where it lies in the worker: an address of the machine's.
abbrev pub token_size : ℕ
token_size = 16

-- What libibverbs stores in the struct that an MR's handle points to, and where `rmt_buf` lies.
pub record Keys : Type 0 where
  pub lkey : ℕ → ℕ
  pub rkey : ℕ → ℕ
  pub token_addr : ℕ

-- The data pool of the size that is asked for, registered.
pub register_pool : ℕ → Bool → Code ℤ (Unit {0})
register_pool size remote = do
  pool ← call (memalign pagesize size)
  modify (λ w. record w { data_pool = pool.value })
  fail_if (pool.value == 0)
  w ← get
  mr ← call (reg_mr w.pd pool.value size remote)
  modify (λ w. record w { data_pool_mr = mr.value })
  fail_if (mr.value == 0)

pub handshake_client : Keys → ℕ → Code ℤ ℤ
handshake_client keys fuel = do
  w ← get
  r ← call (Worker.connect w.cm_id)
  fail_if (nonzero r.ret)
  await_event established
  w ← get
  tmp_mr ← call (reg_mr w.pd keys.token_addr token_size false)
  fail_if (tmp_mr.value == 0)
  r ← call (post_recv w.qp keys.token_addr token_size (keys.lkey tmp_mr.value))
  fail_if (nonzero r.ret)
  token ← await_completion fuel
  modify (λ w. record w { rmt_buf = token })
  register_pool token.size false
  pure (pos 0)

pub handshake_server : Keys → ℕ → Code ℤ ℤ
handshake_server keys fuel = do
  w ← get
  r ← call (Worker.accept w.cm_id)
  fail_if (nonzero r.ret)
  await_event established
  call (usleep 500000)
  w ← get
  register_pool w.data_pool_size true
  modify (λ w. record w {
    rmt_buf = record {
      addr = w.data_pool;
      size = w.data_pool_size;
      rkey = keys.rkey w.data_pool_mr;
    };
  })
  w ← get
  tmp_mr ← call (reg_mr w.pd keys.token_addr token_size false)
  fail_if (tmp_mr.value == 0)
  r ← call (
      post_send w.qp (record {
        opcode = op_send;
        sge_addr = keys.token_addr;
        sge_length = token_size;
        sge_lkey = keys.lkey tmp_mr.value;
        remote_addr = 0;
        remote_rkey = 0;
        wr_id = 1;
        contents = some w.rmt_buf;
      }))
  fail_if (nonzero r.ret)
  await_completion fuel
  r ← call (dereg_mr tmp_mr.value)
  fail_if (nonzero r.ret)
  pure (pos 0)

pub rdma_handshake : {E : Type 0} → Options → Keys → ℕ → Code E ℤ
rdma_handshake o keys fuel = function (do
  w ← get
  r ← call (query_device w.cm_id)
  fail_if (nonzero r.ret)
  if o.client then handshake_client keys fuel else handshake_server keys fuel)
