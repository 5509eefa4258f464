-- ===== src/Worker/Monitor/Rates.antt =====
-- src/benchmark.cc: what calculate_stats prints, and when it ends.
use nvmeof_project.Prelude.{
  ℕ, zero, suc, ◌/◌, ◌<◌, ◌==◌, ◌&&◌, ◌||◌, ◌≡◌, ap, ◌∙◌, not, true, false, if_cases, refl, List,
  [], ◌∷◌, arith,
}
use nvmeof_project.Outside.{Machine, Exit, Os, ◌>>◌, call, pure, done, hung}
use nvmeof_project.Outside.Laws.{Ensures, Ensures-mono}
use nvmeof_project.Outside.Keeps.{after_call}
use nvmeof_project.Worker.{Options, IoWorker}
use nvmeof_project.Worker
use nvmeof_project.Worker.Ring.{u32, do_io_io_uring}
use nvmeof_project.Worker.Ring.Stopped.{do_io_io_uring-Stops}
use nvmeof_project.Worker.Monitor.{
  Call, Reply, Monitor, millis, load_stopped, load_io_completed, load_start_time, now, print_rate,
  sleep, stats_round, stats_loop, calculate_stats,
}

-- Each printed line has some completions in some milliseconds, and their quotient.
abbrev pub Rates : List (Call × Reply) → Type 0
Rates [] = Unit {0}
Rates ((print_rate c ms kiops, _) ∷ t) = (0 < c) × (0 < ms) × (kiops ≡ c / ms) × Rates t
Rates (_ ∷ t) = Rates t

module _ (os : Os Call Reply) where
  -- The machine after the worker's numbers were read.
  abbrev sampled : Machine Call Reply (Unit {0}) → Machine Call Reply (Unit {0})
  sampled s =
      after_call os load_start_time
        (after_call os now (after_call os load_io_completed (after_call os load_stopped s)))

  abbrev completed : Machine Call Reply (Unit {0}) → ℕ
  completed s = u32 (os (suc s.clock) load_io_completed).value

  abbrev elapsed : Machine Call Reply (Unit {0}) → ℕ
  elapsed s =
      millis (os (suc (suc s.clock)) now).value (os (suc (suc (suc s.clock))) load_start_time).value

  abbrev rate : Machine Call Reply (Unit {0}) → Call
  rate s = print_rate (completed s) (elapsed s) (completed s / elapsed s)

  -- A round ends the loop, or goes on with or without a line.
  stats_loop_cases :
      (P : Exit (Unit {0}) (Unit {0}) × Machine Call Reply (Unit {0}) → Type 0) (fuel : ℕ)
      (s : Machine Call Reply (Unit {0}))
      → ((os s.clock load_stopped).flag ≡ true → P (done tt, after_call os load_stopped s))
      → ((os s.clock load_stopped).flag ≡ false → P (stats_loop fuel os (sampled s)))
      → ((os s.clock load_stopped).flag ≡ false
          → 0 < completed s
          → 0 < elapsed s
          → P (stats_loop fuel os (after_call os (sleep 1) (after_call os (rate s) (sampled s)))))
      → P (stats_loop (suc fuel) os s)
  unfolding stats_loop stats_round
  stats_loop_cases P fuel s stopped idle line =
      let u = after_call os load_stopped s in
      if_cases (λ (m : Monitor (Unit {0})). P (m os u)) (os s.clock load_stopped).flag (pure tt)
        (do stats_round; stats_loop fuel) (λ e. stopped e)
        (λ e.
          if_cases (λ (m : Monitor (Unit {0})). P ((do m; stats_loop fuel) os (sampled s)))
            ((completed s == 0) || (elapsed s == 0)) (pure tt)
            (do call (rate s); call (sleep 1); pure tt) (λ _. idle e)
            (λ busy. line e (ground arith) (ground arith)))

stats_loop-Rates :
    (fuel : ℕ) (os : Os Call Reply) (s : Machine Call Reply (Unit {0}))
    → Rates s.trace
    → Rates (stats_loop fuel os s).1.trace
unfolding stats_loop
stats_loop-Rates zero os s h = h
stats_loop-Rates (suc fuel) os s h =
    stats_loop_cases os (λ out. Rates out.1.trace) fuel s (λ _. h)
      (λ _. stats_loop-Rates fuel os (sampled os s) h)
      (λ _ some passed.
        stats_loop-Rates fuel os
          (after_call os (sleep 1) (after_call os (rate os s) (sampled os s)))
          (some, passed, refl, h))

-- With a worker that is never seen to have stopped the loop goes on.
stats_loop_watching :
    (fuel : ℕ) (os : Os Call Reply) (s : Machine Call Reply (Unit {0}))
    → ((n : ℕ) → (os n load_stopped).flag ≡ false)
    → (stats_loop fuel os s).0 ≡ hung
unfolding stats_loop
stats_loop_watching zero os s h = refl
stats_loop_watching (suc fuel) os s h =
    stats_loop_cases os (λ out. out.0 ≡ hung) fuel s (λ e. cc (h s.clock))
      (λ _. stats_loop_watching fuel os (sampled os s) h)
      (λ _ some passed.
        stats_loop_watching fuel os
          (after_call os (sleep 1) (after_call os (rate os s) (sampled os s))) h)

stats_loop_ends :
    (fuel : ℕ) (os : Os Call Reply) (s : Machine Call Reply (Unit {0}))
    → ((n : ℕ) → (os n load_stopped).flag ≡ true)
    → (stats_loop (suc fuel) os s).0 ≡ done tt
unfolding stats_loop
stats_loop_ends fuel os s h = ground (arith, h s.clock)

-- Whatever a monitor reads of its worker and of the clock, every line that it prints is of at least
-- one completion in at least one millisecond, and its operations per millisecond are the quotient
-- of the two, rounded down: it never divides by zero.
pub calculate_stats-Rates :
    (fuel : ℕ) (o : Options) (os : Os Call Reply) (s : Machine Call Reply (Unit {0}))
    → Rates s.trace
    → Rates (calculate_stats fuel o os s).1.trace
unfolding calculate_stats
calculate_stats-Rates fuel o os s h =
    if_cases (λ (m : Monitor (Unit {0})). Rates (m os s).1.trace) (o.user_rdma && not o.client)
      (pure tt) (stats_loop fuel) (λ _. h) (λ _. stats_loop-Rates fuel os s h)

calculate_stats-stats_loop :
    (fuel : ℕ) (o : Options) (os : Os Call Reply) (s : Machine Call Reply (Unit {0}))
    → o.user_rdma ≡ false
    → calculate_stats fuel o os s ≡ stats_loop fuel os s
unfolding calculate_stats
calculate_stats-stats_loop fuel o os s e = ground arith

-- A worker's thread on io_uring that was started with `stopped` false, and a monitor that sees
-- `stopped` as the thread has left it. If the thread has come to the end of its loop, the monitor
-- ends at its next test. If the thread has ended early, on an error, or has not ended, then the
-- monitor does not end however long it runs.
pub do_io_io_uring-calculate_stats :
    (o : Options) (os : Os Worker.Call Worker.Reply) (rounds inner fuel : ℕ)
    (s : Machine Worker.Call Worker.Reply IoWorker)
    (sees : Machine Worker.Call Worker.Reply IoWorker → Os Call Reply)
    (m : Machine Call Reply (Unit {0}))
    → o.user_rdma ≡ false
    → s.mem.stopped ≡ false
    → ((t : Machine Worker.Call Worker.Reply IoWorker) (n : ℕ)
        → (sees t n load_stopped).flag ≡ t.mem.stopped)
    → Ensures
        (λ _ t. (calculate_stats (suc fuel) o (sees t) m).0 ≡ done tt)
        (λ _ t. (calculate_stats fuel o (sees t) m).0 ≡ hung)
        (λ t. (calculate_stats fuel o (sees t) m).0 ≡ hung)
        (do_io_io_uring rounds inner o os s)
do_io_io_uring-calculate_stats o os rounds inner fuel s sees m local runs shown =
    let watching : (t : Machine Worker.Call Worker.Reply IoWorker)
        → t.mem.stopped ≡ false
        → (calculate_stats fuel o (sees t) m).0 ≡ hung =
      λ t e.
        ap (λ out. out.0) (calculate_stats-stats_loop fuel o (sees t) m local)
        ∙ stats_loop_watching fuel (sees t) m (λ n. shown t n ∙ e) in
    Ensures-mono (λ _ t. t.mem.stopped ≡ true)
      (λ _ t. (calculate_stats (suc fuel) o (sees t) m).0 ≡ done tt)
      (λ e t. (e ≡ tt) × (t.mem.stopped ≡ false))
      (λ _ t. (calculate_stats fuel o (sees t) m).0 ≡ hung) (λ t. t.mem.stopped ≡ false)
      (λ t. (calculate_stats fuel o (sees t) m).0 ≡ hung) (do_io_io_uring rounds inner o os s)
      (λ a t e.
        ap (λ out. out.0) (calculate_stats-stats_loop (suc fuel) o (sees t) m local)
        ∙ stats_loop_ends fuel (sees t) m (λ n. shown t n ∙ e))
      (λ x t q. watching t q.1) watching (do_io_io_uring-Stops o os rounds inner s runs)
