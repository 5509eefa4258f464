-- ===== src/Tests/Rings.antt =====
-- AppendOneLargeFileAsync of src/file_target.cc with a stream of one request of four bytes.
use nvmeof_project.Prelude.{ℕ, ◌≡◌, ◌⊎◌, refl, true, false, [], ◌∷◌, pos, arith}
use nvmeof_project.FileTarget.{FileRequest, FileServer, payload}
use nvmeof_project.FileTarget.Ring.{
  large, write_sqe, first_read, opening, reading, first_sqe, allocating, submitting, joining,
  answered, running, gave_up, System, expected, prepare_write, read_first, read_next, join, step_at,
  reap, main_step, reap_step, kernel_step, start_call, Reach, start, later,
}
use nvmeof_project.FileTarget.Ring.Owned.{Owned, Reach-Owned}
use nvmeof_project.FileTarget.Ring.Answer.{AllDone, full_stream-AllDone, short_stream-gave_up}
use nvmeof_project.FileTarget.Ring.Carried.{AllCarry}
use nvmeof_project.FileTarget.Ring.Payloads.{Reach-AllCarry}
use nvmeof_project.FileTarget.Ring.Liveness.{Answers, joining-Answers}

abbrev ring_request : FileRequest
ring_request = record { filename = 102 ∷ []; contents = 1 ∷ 2 ∷ 3 ∷ 4 ∷ [] }

-- N is `n`.
abbrev ring_server : ℕ → FileServer
ring_server n = record {
  buffer_size = 4;
  queue_depth = pos 8;
  poll_threshold = pos 1;
  blk_size = pos 512;
  request_count = pos n;
  file_count = pos 1;
  time_on_allocation = pos 0;
  time_on_rw = pos 0;
  time_total = pos 0;
  time_on_open = pos 0;
}

-- The states up to the join.
abbrev started_ring : ℕ → System
started_ring n = record (start_call (ring_request ∷ [])) {
  main = first_read;
  reaper = running (expected large (ring_server n));
}

abbrev read_ring : ℕ → System
read_ring n = record (started_ring n) { main = opening 1; request = ring_request; stream = [] }

abbrev opened_ring : ℕ → System
opened_ring n = record (read_ring n) { main = opening 0; fds = 3 ∷ [] }

abbrev written_ring : ℕ → System
written_ring n = record (opened_ring n) {
  main = submitting;
  allocated = 1;
  queued = write_sqe 3 0 (payload 4 ring_request) ∷ [];
}

abbrev joining_ring : ℕ → System
joining_ring n = record (written_ring n) {
  main = joining;
  queued = [];
  flight = write_sqe 3 0 (payload 4 ring_request) ∷ [];
}

opened_reach : (n : ℕ) → Reach large (ring_server n) (ring_request ∷ []) (opened_ring n)
unfolding step_at read_first
opened_reach n =
    later {s = read_ring n}
      (later {s = started_ring n} (later start (main_step 1 refl)) (main_step 1 refl))
      (main_step 4 refl)

joining_reach : (n : ℕ) → Reach large (ring_server n) (ring_request ∷ []) (joining_ring n)
unfolding step_at read_next prepare_write
joining_reach n =
    later {s = record (joining_ring n) { main = reading }}
      (later {s = written_ring n}
        (later {s = record (opened_ring n) { main = allocating }}
          (later {s = record (opened_ring n) { main = first_sqe }}
            (later (opened_reach n) (main_step 1 refl)) (main_step 1 refl))
          (main_step 1 refl))
        (main_step 1 refl))
      (main_step 1 refl)

abbrev completed_ring : ℕ → System
completed_ring n = record (joining_ring n) {
  flight = [];
  completed = write_sqe 3 0 (payload 4 ring_request) ∷ [];
}

completed_reach : (n : ℕ) → Reach large (ring_server n) (ring_request ∷ []) (completed_ring n)
completed_reach n =
    later (joining_reach n) (kernel_step [] (write_sqe 3 0 (payload 4 ring_request)) [] refl)

-- With N = 1 the thread ends, with N = 2 it may give up.
abbrev answered_ring : System
answered_ring = record (completed_ring 1) {
  main = answered true;
  reaper = running 0;
  completed = [];
  freed = 0 ∷ [];
  fds = [];
}

answered_reach : Reach large (ring_server 1) (ring_request ∷ []) answered_ring
unfolding step_at join reap
answered_reach =
    later {s = record answered_ring { main = joining; fds = 3 ∷ [] }}
      (later (completed_reach 1) (reap_step true refl)) (main_step 1 refl)

abbrev failed_ring : System
failed_ring = record (joining_ring 2) { main = answered true; reaper = gave_up; fds = [] }

failed_reach : Reach large (ring_server 2) (ring_request ∷ []) failed_ring
unfolding step_at join reap
failed_reach =
    later {s = record failed_ring { main = joining; fds = 3 ∷ [] }}
      (later (joining_reach 2) (reap_step false refl)) (main_step 1 refl)

Reach-Owned_example : Owned 0 answered_ring
Reach-Owned_example =
    Reach-Owned large (ring_server 1) (ring_request ∷ []) answered_ring answered_reach 0

full_stream-AllDone_example :
    (answered_ring.reaper ≡ gave_up) ⊎ AllDone (ring_request ∷ []) answered_ring
full_stream-AllDone_example =
    full_stream-AllDone large (ring_server 1) (ring_request ∷ []) answered_ring (omega arith) refl
      answered_reach refl

short_stream-gave_up_example : failed_ring.reaper ≡ gave_up
short_stream-gave_up_example =
    short_stream-gave_up large (ring_server 2) (ring_request ∷ []) failed_ring (omega arith)
      (omega arith) failed_reach refl

joining-Answers_example : Answers large (ring_server 1) (joining_ring 1)
joining-Answers_example =
    joining-Answers large (ring_server 1) (ring_request ∷ []) (omega arith) (omega arith)
      (joining_ring 1) (joining_reach 1) refl refl

Reach-AllCarry_example :
    AllCarry 4 (ring_request ∷ []) []
    × AllCarry 4 (ring_request ∷ []) []
    × AllCarry 4 (ring_request ∷ []) (completed_ring 1).completed
Reach-AllCarry_example =
    Reach-AllCarry large (ring_server 1) (ring_request ∷ []) (completed_ring 1) (omega arith)
      (completed_reach 1)
