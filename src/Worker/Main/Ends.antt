-- ===== src/Worker/Main/Ends.antt =====
-- src/benchmark.cc: how main ends, and the worker that it starts from the parsed options.
use nvmeof_project.Prelude.{
  ℕ, ◌+◌, ◌*◌, ◌<◌, ◌^◌, ◌≡◌, refl, ap, ◌∙◌, ◌⊎◌, if_cases, true, false, nonzero, Option, none,
  some, List, [], ◌∷◌, suc, ℤ, pos, arith,
}
use nvmeof_project.Outside.{Machine, Exit, Os, done, stop, boot}
use nvmeof_project.Worker.{
  Options, IoWorker, Code, Call, Reply, pthread_create, set_affinity, free_worker, create_monitor,
  join_worker, join_thread,
}
use nvmeof_project.Worker.Launch.{
  kb, gb, parsed_bs, parsed_file_size, initial_worker, set_worker_cpu, launch_worker,
}
use nvmeof_project.Worker.Ring.{do_io_io_uring}
use nvmeof_project.Worker.Ring.Flow.{Quiet, Writes, free}
use nvmeof_project.Worker.Ring.Run.{do_io_io_uring-Writes}
use nvmeof_project.Worker.Cm.{Keys}
use nvmeof_project.Worker.Rdma.{do_io_user_rdma}
use nvmeof_project.Worker.Rdma.Run.{do_io_user_rdma-Writes}
use nvmeof_project.Worker.Main.{
  Arguments, options_of, parse_args, worker_thread, MainExit, null_worker, run_benchmark,
  run_parsed, main,
}

-- The calls of `main`, the last first.
abbrev pub calls : List (Call × Reply) → List Call
calls [] = []
calls ((c, _) ∷ t) = c ∷ calls t

module _ (os : Os Call Reply) (s : Machine Call Reply IoWorker) where
  abbrev pub affinity : ℤ
  affinity = (os (suc s.clock) (set_affinity 0)).ret

  abbrev pub MainEnds : Exit MainExit ℤ × Machine Call Reply IoWorker → Option Options → Type 0
  MainEnds (r, t) none = (r ≡ done (pos 1)) × (t ≡ s)
  MainEnds (r, t) (some o) =
      ((nonzero affinity ≡ true)
        × (r ≡ stop null_worker)
        × (calls t.trace
            ≡ create_monitor false
              ∷ free_worker
              ∷ set_affinity 0
              ∷ pthread_create o.user_rdma
              ∷ calls s.trace))
      ⊎ ((nonzero affinity ≡ false)
          × (r ≡ done (pos 0))
          × (t.mem ≡ initial_worker o s.mem)
          × (calls t.trace
              ≡ join_thread (os (suc (suc s.clock)) (create_monitor true)).ret
                ∷ join_worker
                ∷ create_monitor true
                ∷ set_affinity 0
                ∷ pthread_create o.user_rdma
                ∷ calls s.trace))

  run_benchmark-MainEnds : (o : Options) → MainEnds (run_benchmark o os s) (some o)
  unfolding run_benchmark launch_worker set_worker_cpu
  run_benchmark-MainEnds o = ground arith

  run_parsed-MainEnds : (o : Option Options) → MainEnds (run_parsed o os s) o
  unfolding run_parsed
  run_parsed-MainEnds none = (refl, refl)
  run_parsed-MainEnds (some o) = run_benchmark-MainEnds o

  -- `main` on every path. Without options it returns 1 and makes no call. When the affinity cannot
  -- be set, the worker's memory is given back while its thread runs, a monitor is started without a
  -- worker, and `main` dereferences NULL. Otherwise it waits for the worker, and then for the thread
  -- whose handle is what pthread_create returned for the monitor, so for the handle 0 when the
  -- monitor was started, whichever handle the monitor has; and it returns 0.
  pub main-MainEnds :
      (argc : ℕ) (read : Option Arguments) → MainEnds (main argc read os s) (parse_args argc read)
  unfolding main
  main-MainEnds argc read = run_parsed-MainEnds (parse_args argc read)

-- Sizes on the command line that a file of less than 2^31 GB and blocks of less than 4 GB have.
parsed_sizes :
    (n g : ℕ)
    → n * kb < 2 ^ 32
    → g < 2 ^ 31
    → (parsed_bs (pos n) ≡ n * kb) × (parsed_file_size (pos g) ≡ g * gb)
unfolding parsed_bs parsed_file_size
parsed_sizes n g small file = ground (arith)

-- A process that was started with a block size of `n` KB and a file of `g` GB, the blocks smaller
-- than the file and than 4 GB, and a ring of positive depth, which completes only what is in flight;
-- its worker's memory has `cur_offset` 0. Whichever of the two threads the options select, the block
-- size and the file size in bytes are what was asked for, every request on the file starts at a
-- multiple of the block size and ends before the end of the file, with fewer than the depth in
-- flight, and the free units and the requests in flight add up to the depth.
pub worker_thread-Writes :
    (args : Arguments) (os : Os Call Reply) (keys : Keys) (garbage : IoWorker)
    (rounds inner n g : ℕ)
    → Quiet os
    → args.bs ≡ pos n
    → args.filesize ≡ pos g
    → n * kb < 2 ^ 32
    → g < 2 ^ 31
    → n * kb < g * gb
    → 0 < args.iouring_qd
    → args.iouring_qd < 2 ^ 31
    → garbage.cur_offset ≡ 0
    → garbage.in_flight ≡ 0
    → let o = options_of args in
      let t = (worker_thread rounds inner o keys os (boot (initial_worker o garbage))).1 in
      (o.bs ≡ n * kb)
      × (o.file_size ≡ g * gb)
      × Writes o t.trace
      × (free t + t.mem.in_flight ≡ args.iouring_qd)
unfolding options_of worker_thread
worker_thread-Writes args os keys garbage rounds inner n g quiet bs size small file fits ring depth
      zero_offset idle =
    let o = options_of args in
    let sizes = parsed_sizes n g small file in
    let bs_bytes : o.bs ≡ n * kb = ap parsed_bs bs ∙ sizes.0 in
    let file_bytes : o.file_size ≡ g * gb = ap parsed_file_size size ∙ sizes.1 in
    let in_file : o.bs < o.file_size = omega (arith, bs_bytes, file_bytes, fits) in
    let in_long : o.file_size < 2 ^ 63 = omega (arith, file_bytes, file) in
    let in_unsigned : args.iouring_qd < 2 ^ 64 = omega (arith, depth) in
    let s = boot (initial_worker o garbage) in
    let P : Code (Unit {0}) (Unit {0}) → Type 0 = λ m.
      Writes o (m os s).1.trace × (free (m os s).1 + (m os s).1.mem.in_flight ≡ args.iouring_qd) in
    let run : P (worker_thread rounds inner o keys) =
      if_cases P args.user_rdma (do_io_user_rdma rounds inner o keys)
        (do_io_io_uring rounds inner o)
        (λ _.
          do_io_user_rdma-Writes o os keys garbage rounds inner quiet ring in_unsigned in_file
            in_long zero_offset idle)
        (λ _.
          do_io_io_uring-Writes o os garbage rounds inner quiet ring in_unsigned in_file in_long
            zero_offset idle) in
    (bs_bytes, file_bytes, run.0, run.1)
