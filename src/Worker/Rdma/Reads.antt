-- ===== src/Worker/Rdma/Reads.antt =====
-- src/benchmark.cc: which memory a client reads, and where it puts it.
use nvmeof_project.Prelude.{ℕ, ◌+◌, ◌<◌, ◌^◌, ◌≡◌, arith}
use nvmeof_project.Worker.{Options, IoWorker}
use nvmeof_project.Worker.Cm.{Keys}
use nvmeof_project.Worker.Rdma.{next_remote, read_request}

pub read_request_in_pools :
    (o : Options) (keys : Keys) (offset : ℕ) (w : IoWorker)
    → o.bs < w.rmt_buf.size
    → w.rmt_buf.size < 2 ^ 31
    → offset + o.bs < w.rmt_buf.size
    → w.rmt_buf.addr + w.rmt_buf.size < 2 ^ 64
    → w.data_pool + w.rmt_buf.size < 2 ^ 64
    → let r = read_request o keys offset w in
      (r.remote_addr ≡ w.rmt_buf.addr + offset)
      × (r.sge_addr ≡ w.data_pool + offset)
      × (r.remote_addr + r.sge_length < w.rmt_buf.addr + w.rmt_buf.size)
      × (r.sge_addr + r.sge_length < w.data_pool + w.rmt_buf.size)
      × (next_remote o w.rmt_buf.size offset + o.bs < w.rmt_buf.size)
unfolding read_request next_remote
read_request_in_pools o keys offset w fits small h remote here = ground arith
