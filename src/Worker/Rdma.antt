-- ===== src/Worker/Rdma.antt =====
-- src/benchmark.cc: the benchmark over userspace RDMA. The client reads blocks of the server's
-- memory, and writes each to the test file when its read has completed.
pub mod Reads
pub mod Frame
pub mod Loop
pub mod Pools
pub mod Flow
pub mod Run
use nvmeof_project.Prelude.{
  ℕ, zero, suc, ◌+◌, ◌%◌, ◌^◌, ltb, leb, ◌==◌, Bool, if◌then◌else◌, not, none, List, [], ◌∷◌, ℤ,
  pos, negsuc, is_neg, nonzero, nat_part, true,
}
use nvmeof_project.Outside.{◌>>=◌, ◌>>◌, call, pure, return_now, get, modify, function}
use nvmeof_project.Worker.{
  Options, IoWorker, WorkRequest, Wc, Code, op_rdma_read, op_unset, now, req_notify_cq, post_recv,
  post_send, get_cq_event, poll_cq, ack_cq_events,
}
use nvmeof_project.Worker.Ring.{
  u32, u64, pred_u64, out_of_fuel, runtime_exceeded, write_block, open_file_and_ring,
}
use nvmeof_project.Worker.Cm.{Keys, rdma_setup, rdma_handshake}

abbrev pub poll_batch : ℕ
poll_batch = 16

abbrev pub rdma_reap_freq : ℕ
rdma_reap_freq = 16

-- `if (test) return -1;`
abbrev pub minus_one_if : Bool → Code ℤ (Unit {0})
minus_one_if test = if test then return_now (negsuc 0) else pure tt

-- The completions of one poll: each must be a success, and its `wr_id` is the address written from.
pub write_completions : Options → ℕ → List Wc → Code ℤ (Unit {0})
write_completions o inner [] = pure tt
write_completions o inner (wc ∷ wcs) = do
  minus_one_if (not (wc.status == 0))
  write_block o inner wc.wr_id (negsuc 0)
  write_completions o inner wcs

-- `do { … } while (ret);`, with the number reaped so far; the reply lists wc[0 .. ret).
pub poll_loop : Options → ℕ → ℕ → ℕ → Code ℤ ℕ
poll_loop o inner zero reaped = out_of_fuel
poll_loop o inner (suc fuel) reaped = do
  w ← get
  r ← call (poll_cq w.cq poll_batch)
  minus_one_if (is_neg r.ret)
  if nat_part r.ret == 0 then pure reaped else (do
    write_completions o inner r.wcs
    modify (λ w. record w { free_io_units_rdma = u64 (w.free_io_units_rdma + nat_part r.ret) })
    poll_loop o inner fuel (u32 (reaped + nat_part r.ret)))

pub wait_for_event : Code ℤ (Unit {0})
wait_for_event = do
  w ← get
  ev ← call (get_cq_event w.comp_channel)
  minus_one_if (nonzero ev.ret)
  minus_one_if (not (ev.value == w.cq))
  r ← call (req_notify_cq w.cq)
  minus_one_if (nonzero r.ret)

-- From the label `again` on.
pub again : Options → ℕ → ℕ → ℕ → ℕ → Code ℤ ℤ
again o inner zero min reaped = out_of_fuel
again o inner (suc fuel) min reaped = do
  if o.event then wait_for_event else pure tt
  total ← poll_loop o inner inner reaped
  if ltb total min then again o inner fuel min total else (do
    w ← get
    if o.event then (do call (ack_cq_events w.cq total); pure tt) else pure tt
    pure (pos 0))

pub reap_rdma_cq : {E : Type 0} → Options → ℕ → ℕ → Code E ℤ
reap_rdma_cq o inner min = function (again o inner inner min 0)

-- `if (reap_rdma_cq(worker, min, wc) < 0) goto err;`
pub reap_rdma_or_exit : Options → ℕ → ℕ → Code (Unit {0}) (Unit {0})
reap_rdma_or_exit o inner min = do
  r ← reap_rdma_cq o inner min
  if is_neg r then return_now tt else pure tt

-- The opcode and the flags of this request are never set.
pub rdma_client_terminate : {E : Type 0} → Keys → Code E (Unit {0})
rdma_client_terminate keys = do
  w ← get
  call (
      post_send w.qp (record {
        opcode = op_unset;
        sge_addr = w.data_pool;
        sge_length = 4;
        sge_lkey = keys.lkey w.data_pool_mr;
        remote_addr = 0;
        remote_rkey = 0;
        wr_id = 0;
        contents = none;
      }))
  pure tt

-- `offset += bs; if (offset + bs >= rmt_buf.size) offset = 0;` on an `unsigned int`
pub next_remote : Options → ℕ → ℕ → ℕ
next_remote o size offset =
    let moved = u32 (offset + o.bs) in if leb size (u64 (moved + o.bs)) then 0 else moved

-- The read of the block at `offset`.
pub read_request : Options → Keys → ℕ → IoWorker → WorkRequest
read_request o keys offset w = record {
  opcode = op_rdma_read;
  sge_addr = u64 (w.data_pool + offset);
  sge_length = o.bs;
  sge_lkey = keys.lkey w.data_pool_mr;
  remote_addr = u64 (w.rmt_buf.addr + offset);
  remote_rkey = w.rmt_buf.rkey;
  wr_id = u64 (w.rmt_buf.addr + offset);
  contents = none;
}

-- One round of the client's loop, after its test.
pub rdma_round : Options → Keys → ℕ → ℕ → Code (Unit {0}) (Unit {0})
rdma_round o keys inner offset = do
  modify (λ w. record w { rdma_wr_posted = u64 (w.rdma_wr_posted + 1) })
  w ← get
  r ← call (post_send w.qp (read_request o keys offset w))
  if nonzero r.ret then return_now tt else pure tt
  if w.rdma_wr_posted % rdma_reap_freq == 0 then reap_rdma_or_exit o inner 0 else pure tt
  modify (λ w. record w { free_io_units_rdma = pred_u64 w.free_io_units_rdma })
  w ← get
  if w.free_io_units_rdma == 0 then reap_rdma_or_exit o inner 1 else pure tt

pub rdma_loop : ℕ → ℕ → Options → Keys → ℕ → Code (Unit {0}) (Unit {0})
rdma_loop zero inner o keys offset = out_of_fuel
rdma_loop (suc rounds) inner o keys offset = do
  over ← runtime_exceeded o
  w ← get
  if over then pure tt else (do
    rdma_round o keys inner offset
    rdma_loop rounds inner o keys (next_remote o w.rmt_buf.size offset))

-- The server waits for one completion and ends.
pub serve : Keys → Code (Unit {0}) (Unit {0})
serve keys = do
  w ← get
  call (post_recv w.qp w.data_pool 4 (keys.lkey w.data_pool_mr))
  ev ← call (get_cq_event w.comp_channel)
  if nonzero ev.ret then return_now tt else pure tt
  if not (ev.value == w.cq) then return_now tt else pure tt
  r ← call (poll_cq w.cq 1)
  if is_neg r.ret
      then return_now tt
      else (if not (nat_part r.ret == 1) then return_now tt else pure tt)
  call (ack_cq_events w.cq 1)
  pure tt

pub client_io : ℕ → ℕ → Options → Keys → Code (Unit {0}) (Unit {0})
client_io rounds inner o keys = do
  open_file_and_ring o tt
  t ← call now
  modify (λ w. record w { start_time = t.value })
  rdma_loop rounds inner o keys 0
  modify (λ w. record w { stopped = true })
  rdma_client_terminate keys

-- `stop` is `pthread_exit((void *)1)`.
pub do_io_user_rdma : ℕ → ℕ → Options → Keys → Code (Unit {0}) (Unit {0})
do_io_user_rdma rounds inner o keys = do
  r ← rdma_setup o
  if nonzero r then return_now tt else pure tt
  r ← rdma_handshake o keys inner
  if nonzero r then return_now tt else pure tt
  if not o.client then serve keys else client_io rounds inner o keys
