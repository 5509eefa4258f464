-- ===== src/Worker/Monitor.antt =====
-- src/benchmark.cc: calculate_stats, the thread that watches a worker. What it reads of the worker,
-- on which another thread runs, is answered like an outside call.
pub mod Rates
use nvmeof_project.Prelude.{
  ℕ, zero, suc, ◌/◌, ◌^◌, ◌==◌, ◌&&◌, ◌||◌, Bool, not, if◌then◌else◌, ℤ, pos, ◌-ℤ◌, c_div, wrap,
}
use nvmeof_project.Outside.{Prog, ◌>>=◌, ◌>>◌, call, pure, hung}
use nvmeof_project.Worker.{Options}
use nvmeof_project.Worker.Ring.{u32}

-- The last two are the line that is printed, of which the throughput is a `double` computed from the
-- first two numbers and the block size, and a second's sleep.
pub data Call : Type 0 where
  load_stopped : Call
  load_io_completed : Call
  load_start_time : Call
  now : Call
  print_rate : (io_completed duration_ms kiops : ℕ) → Call
  sleep : (seconds : ℕ) → Call

pub record Reply : Type 0 where
  pub flag : Bool
  pub value : ℕ

abbrev pub Monitor : Type 0 → Type 0
Monitor A = Prog Call Reply (Unit {0}) (Unit {0}) A

-- Nanoseconds to milliseconds, made an `unsigned`.
abbrev pub millis : ℕ → ℕ → ℕ
millis at start = wrap (2 ^ 32) (c_div (pos at -ℤ pos start) 1000000)

-- A round of the loop. `io_completed` is made an `unsigned`; without a completion or a millisecond
-- the round ends without a line, and without the sleep.
pub stats_round : Monitor (Unit {0})
stats_round = do
  c ← call load_io_completed
  t ← call now
  start ← call load_start_time
  let io_completed = u32 c.value
  let duration_ms = millis t.value start.value
  if (io_completed == 0) || (duration_ms == 0) then pure tt else (do
    call (print_rate io_completed duration_ms (io_completed / duration_ms))
    call (sleep 1)
    pure tt)

pub stats_loop : ℕ → Monitor (Unit {0})
stats_loop zero = λ os s. (hung, s)
stats_loop (suc fuel) = do
  stopped ← call load_stopped
  if stopped.flag then pure tt else (do stats_round; stats_loop fuel)

-- A server of the RDMA benchmark has no figures.
pub calculate_stats : ℕ → Options → Monitor (Unit {0})
calculate_stats fuel o = if o.user_rdma && not o.client then pure tt else stats_loop fuel
