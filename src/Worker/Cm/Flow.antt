-- ===== src/Worker/Cm/Flow.antt =====
-- src/benchmark.cc: the set-up of an RDMA connection, and what the bounds of Ring/Flow are about: the
-- worker's counters and the requests on its file.
use nvmeof_project.Prelude.{
  ℕ, zero, suc, ◌+◌, ◌*◌, ltb, ◌==◌, ◌≡◌, if◌then◌else◌, if_cases, Bool, true, false, not, some, ℤ,
  pos, nonzero, nat_part,
}
use nvmeof_project.Outside.{Machine, Os}
use nvmeof_project.Outside.Keeps.{
  Contract, Keeps, Kept, after_call, kept_bind, kept_then, kept_if, kept_call, kept_modify,
  kept_get, kept_pure, kept_return, kept_function,
}
use nvmeof_project.Worker
use nvmeof_project.Worker.{
  Options, IoWorker, CmEvent, RmtBuf, Call, Reply, addr_resolved, route_resolved, connect_request,
  established, other_event, op_send, usleep, memalign, create_event_channel, create_id,
  resolve_addr, resolve_route, bind_addr, listen, get_cm_event, ack_cm_event, create_qp,
  query_device, alloc_pd, create_comp_channel, create_cq, req_notify_cq, reg_mr, dereg_mr,
  post_recv, post_send, get_cq_event, poll_cq, ack_cq_events,
}
use nvmeof_project.Worker.Ring.{pagesize, u16}
use nvmeof_project.Worker.Ring.Flow.{Writes}
use nvmeof_project.Worker.Cm.{
  Keys, cm_event_eq, event_id, get_next_channel_event, await_event, resolve_client, await_client,
  create_ids, create_queues, rdma_setup, status_of, poll_one, await_completion, token_size,
  register_pool, handshake_client, handshake_server, rdma_handshake,
}

module _ (o : Options) (os : Os Call Reply) (start : Machine Call Reply IoWorker) where
  -- The worker is, in these fields and calls, as it was at the start.
  abbrev pub Same : Machine Call Reply IoWorker → Type 0
  Same t =
      (t.mem.free_io_units_io_uring ≡ start.mem.free_io_units_io_uring)
      × (t.mem.in_flight ≡ start.mem.in_flight)
      × (t.mem.cur_offset ≡ start.mem.cur_offset)
      × (Writes o start.trace → Writes o t.trace)

  abbrev pub same : (E : Type 0) → Contract Call Reply IoWorker E
  same E = record { os = os; here = Same; returned = λ _ t. Same t; no_fuel = Same }

  abbrev pub ask :
      (E : Type 0) (c : Call)
      → ((s : Machine Call Reply IoWorker) → Same s → Same (after_call os c s))
      → Kept (same E) Reply
  ask E c h = kept_call (same E) c h

  -- The early returns of all parts are `return 1`.
  abbrev K : Contract Call Reply IoWorker ℤ
  K = same ℤ

  abbrev check : Bool → Kept K (Unit {0})
  check test = kept_if K test (kept_return K (pos 1) (λ s p. p)) (kept_pure K tt)

  event_id-Same :
      (e : CmEvent) (id : ℕ) (s : Machine Call Reply IoWorker)
      → Same s
      → Same (record s { mem = event_id e id s.mem })
  unfolding event_id
  event_id-Same addr_resolved id s p = p
  event_id-Same route_resolved id s p = p
  event_id-Same connect_request id s p = p
  event_id-Same established id s p = p
  event_id-Same other_event id s p = p

  get_next_channel_event-Same :
      (E : Type 0) (e : CmEvent) → Keeps (same E) (get_next_channel_event e)
  unfolding get_next_channel_event
  get_next_channel_event-Same E e =
      (kept_function (same E) (
        kept_bind K (kept_get K) (λ w.
          kept_bind K (ask ℤ (get_cm_event w.cm_channel) (λ s p. p)) (λ r.
            kept_then K (check (nonzero r.ret)) (
              kept_then K (check (not (cm_event_eq r.cm_event e))) (
                kept_then K
                  (kept_modify K (event_id r.cm_event r.value) (event_id-Same r.cm_event r.value))
                  (kept_then K (ask ℤ (ack_cm_event r.cm_event) (λ s p. p))
                    (kept_pure K (pos 0))))))))).1

  await_event-Same : (e : CmEvent) → Keeps K (await_event e)
  unfolding await_event
  await_event-Same e =
      (kept_bind K (get_next_channel_event e, get_next_channel_event-Same ℤ e)
        (λ r. check (nonzero r))).1

  abbrev await : CmEvent → Kept K (Unit {0})
  await e = (await_event e, await_event-Same e)

  resolve_client-Same : Keeps K (resolve_client o)
  unfolding resolve_client
  resolve_client-Same =
      (kept_bind K (kept_get K) (λ w.
        kept_bind K
          (ask ℤ (resolve_addr w.cm_id o.host (u16 (o.base_port + w.worker_id))) (λ s p. p))
          (λ r. kept_then K (check (nonzero r.ret)) (
            kept_then K (await addr_resolved) (
              kept_bind K (kept_get K) (λ w.
                kept_bind K (ask ℤ (resolve_route w.cm_id) (λ s p. p))
                  (λ r. kept_then K (check (nonzero r.ret)) (await route_resolved)))))))).1

  await_client-Same : Keeps K (await_client o)
  unfolding await_client
  await_client-Same =
      (kept_bind K (kept_get K) (λ w.
        kept_bind K
          (ask ℤ (bind_addr w.cm_listen_id o.host (u16 (o.base_port + w.worker_id))) (λ s p. p))
          (λ r. kept_then K (check (nonzero r.ret)) (
            kept_bind K (ask ℤ (listen w.cm_listen_id 3) (λ s p. p))
              (λ r. kept_then K (check (nonzero r.ret)) (await connect_request)))))).1

  create_ids-Same : Keeps K (create_ids o)
  unfolding create_ids
  create_ids-Same =
      (kept_bind K (ask ℤ create_event_channel (λ s p. p)) (λ r.
        kept_then K (kept_modify K (λ w. record w { cm_channel = r.value }) (λ s p. p)) (
          kept_then K (check (r.value == 0)) (
            kept_bind K (ask ℤ (create_id r.value) (λ s p. p)) (λ id.
              kept_then K
                (kept_modify K
                  (λ w.
                    if o.client
                    then record w { cm_id = id.value }
                    else record w { cm_listen_id = id.value })
                  (λ s p.
                    if_cases (λ w. Same (record s { mem = w })) o.client
                      (record s.mem { cm_id = id.value }) (record s.mem { cm_listen_id = id.value })
                      (λ _. p) (λ _. p)))
                (check (nonzero id.ret))))))).1

  create_queues-Same : Keeps K (create_queues o)
  unfolding create_queues
  create_queues-Same =
      (kept_bind K (kept_get K) (λ w. kept_bind K (ask ℤ (alloc_pd w.cm_id) (λ s p. p)) (λ pd.
        kept_then K (kept_modify K (λ w. record w { pd = pd.value }) (λ s p. p)) (
          kept_then K (check (pd.value == 0)) (
            kept_bind K (ask ℤ (create_comp_channel w.cm_id) (λ s p. p)) (λ ch.
              kept_then K (kept_modify K (λ w. record w { comp_channel = ch.value }) (λ s p. p)) (
                kept_then K (check (ch.value == 0)) (
                  kept_bind K
                    (ask ℤ (create_cq w.cm_id (o.rdma_queue_depth * 2) ch.value) (λ s p. p))
                    (λ cq.
                      kept_then K (kept_modify K (λ w. record w { cq = cq.value }) (λ s p. p)) (
                        kept_then K (check (cq.value == 0)) (
                          kept_bind K (ask ℤ (req_notify_cq cq.value) (λ s p. p)) (λ r.
                            kept_then K (check (nonzero r.ret)) (
                              kept_bind K
                                (ask ℤ
                                  (create_qp w.cm_id pd.value cq.value o.rdma_queue_depth
                                    o.rdma_queue_depth)
                                  (λ s p. p))
                                (λ qp. kept_then K (check (nonzero qp.ret)) (
                                  kept_modify K (λ w. record w { qp = qp.value })
                                    (λ s p. p)))))))))))))))).1

  pub rdma_setup-Same : (E : Type 0) → Keeps (same E) (rdma_setup o)
  unfolding rdma_setup
  rdma_setup-Same E =
      (kept_function (same E) (
        kept_then K (create_ids o, create_ids-Same)
          (kept_then K
            (kept_if K o.client (resolve_client o, resolve_client-Same)
              (await_client o, await_client-Same))
            (kept_then K (create_queues o, create_queues-Same) (kept_pure K (pos 0)))))).1

  poll_one-Same : (fuel : ℕ) → Keeps K (poll_one fuel)
  unfolding poll_one
  poll_one-Same zero = λ s p. p
  poll_one-Same (suc fuel) =
      (kept_bind K (kept_get K) (λ w. kept_bind K (ask ℤ (poll_cq w.cq 1) (λ s p. p)) (λ r.
        kept_if K (ltb (nat_part r.ret) 1) (poll_one fuel, poll_one-Same fuel)
          (kept_then K (check (not (status_of r.wcs == 0))) (kept_pure K r.token))))).1

  await_completion-Same : (fuel : ℕ) → Keeps K (await_completion fuel)
  unfolding await_completion
  await_completion-Same fuel =
      (kept_bind K (kept_get K) (λ w.
        kept_bind K (ask ℤ (get_cq_event w.comp_channel) (λ s p. p)) (λ ev.
          kept_then K (check (nonzero ev.ret)) (
            kept_then K (check (not (ev.value == w.cq))) (
              kept_bind K (ask ℤ (req_notify_cq w.cq) (λ s p. p)) (λ r.
                kept_then K (check (nonzero r.ret)) (
                  kept_bind K (poll_one fuel, poll_one-Same fuel)
                    (λ token.
                      kept_then K (ask ℤ (ack_cq_events w.cq 1) (λ s p. p))
                        (kept_pure K token))))))))).1

  register_pool-Same : (size : ℕ) (remote : Bool) → Keeps K (register_pool size remote)
  unfolding register_pool
  register_pool-Same size remote =
      (kept_bind K (ask ℤ (memalign pagesize size) (λ s p. p)) (λ pool.
        kept_then K (kept_modify K (λ w. record w { data_pool = pool.value }) (λ s p. p)) (
          kept_then K (check (pool.value == 0)) (
            kept_bind K (kept_get K) (λ w.
              kept_bind K (ask ℤ (reg_mr w.pd pool.value size remote) (λ s p. p)) (λ mr.
                kept_then K (kept_modify K (λ w. record w { data_pool_mr = mr.value }) (λ s p. p))
                  (check (mr.value == 0)))))))).1

  handshake_client-Same : (keys : Keys) (fuel : ℕ) → Keeps K (handshake_client keys fuel)
  unfolding handshake_client
  handshake_client-Same keys fuel =
      (kept_bind K (kept_get K) (λ w. kept_bind K (ask ℤ (Worker.connect w.cm_id) (λ s p. p)) (λ r.
        kept_then K (check (nonzero r.ret)) (
          kept_then K (await established) (
            kept_bind K (kept_get K) (λ w.
              kept_bind K (ask ℤ (reg_mr w.pd keys.token_addr token_size false) (λ s p. p))
                (λ tmp_mr. kept_then K (check (tmp_mr.value == 0)) (
                  kept_bind K
                    (ask ℤ (post_recv w.qp keys.token_addr token_size (keys.lkey tmp_mr.value))
                      (λ s p. p))
                    (λ r. kept_then K (check (nonzero r.ret)) (
                      kept_bind K (await_completion fuel, await_completion-Same fuel)
                        (λ token.
                          kept_then K (kept_modify K (λ w. record w { rmt_buf = token }) (λ s p. p))
                            (kept_then K
                              (register_pool token.size false, register_pool-Same token.size false)
                              (kept_pure K (pos 0)))))))))))))).1

  handshake_server-Same : (keys : Keys) (fuel : ℕ) → Keeps K (handshake_server keys fuel)
  unfolding handshake_server
  handshake_server-Same keys fuel =
      (kept_bind K (kept_get K) (λ w. kept_bind K (ask ℤ (Worker.accept w.cm_id) (λ s p. p)) (λ r.
        kept_then K (check (nonzero r.ret)) (
          kept_then K (await established) (
            kept_then K (ask ℤ (usleep 500000) (λ s p. p)) (
              kept_bind K (kept_get K) (λ w.
                kept_then K
                  (register_pool w.data_pool_size true, register_pool-Same w.data_pool_size true)
                  (kept_then K
                    (kept_modify K
                      (λ w. record w {
                        rmt_buf = record {
                          addr = w.data_pool;
                          size = w.data_pool_size;
                          rkey = keys.rkey w.data_pool_mr;
                        };
                      })
                      (λ s p. p))
                    (kept_bind K (kept_get K) (λ w.
                      kept_bind K (ask ℤ (reg_mr w.pd keys.token_addr token_size false) (λ s p. p))
                        (λ tmp_mr. kept_then K (check (tmp_mr.value == 0)) (
                          kept_bind K
                            (ask ℤ
                              (post_send w.qp (record {
                                opcode = op_send;
                                sge_addr = keys.token_addr;
                                sge_length = token_size;
                                sge_lkey = keys.lkey tmp_mr.value;
                                remote_addr = 0;
                                remote_rkey = 0;
                                wr_id = 1;
                                contents = some w.rmt_buf;
                              }))
                              (λ s p. p))
                            (λ r. kept_then K (check (nonzero r.ret)) (
                              kept_then K (await_completion fuel, await_completion-Same fuel)
                                (kept_bind K (ask ℤ (dereg_mr tmp_mr.value) (λ s p. p)) (λ r.
                                  kept_then K (check (nonzero r.ret))
                                    (kept_pure K (pos 0)))))))))))))))))).1

  pub rdma_handshake-Same :
      (E : Type 0) (keys : Keys) (fuel : ℕ) → Keeps (same E) (rdma_handshake o keys fuel)
  unfolding rdma_handshake
  rdma_handshake-Same E keys fuel =
      (kept_function (same E) (
        kept_bind K (kept_get K) (λ w. kept_bind K (ask ℤ (query_device w.cm_id) (λ s p. p)) (λ r.
          kept_then K (check (nonzero r.ret)) (
            kept_if K o.client (handshake_client keys fuel, handshake_client-Same keys fuel)
              (handshake_server keys fuel, handshake_server-Same keys fuel)))))).1
