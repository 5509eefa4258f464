-- ===== src/Worker/Ring/Flow.antt =====
-- src/benchmark.cc, the io_uring loop: its depth and its offsets stay within bounds.
use native.Mathlib.Nat.{add-mod_right, zero-mod}
use nvmeof_project.Prelude.{
  ℕ, zero, suc, ◌+◌, ◌≤◌, ◌<◌, ◌^◌, ◌%◌, ◌≡◌, refl, ◌⊎◌, inl, inr, none, some, List, [], ◌∷◌, ℤ,
  pos, negsuc, is_neg, if◌then◌else◌, if_cases, option_cases, ltb, arith,
}
use nvmeof_project.Outside.{Machine, Os, Prog, ◌>>◌, call, pure, return_now, modify}
use nvmeof_project.Outside.Laws.{Ensures, Ensures-mono, bind_Ensures, function-Ensures}
use nvmeof_project.Worker.{Options, IoWorker, Call, Reply, prep_writev, next_cqe, cqe_seen}
use nvmeof_project.Worker.Ring.{
  reaped_one, reap_loop, reap_io_uring_cq, reap_or_fail, next_offset, prepare_write,
}

-- A ring with nothing in flight has no completion.
abbrev pub Quiet : Os Call Reply → Type 0
Quiet os = (n : ℕ) → (os n (next_cqe 0)).cqe ≡ none

-- Every request prepared so far writes inside the file, at an offset that is not the last block's,
-- while fewer than the queue's depth were in flight.
abbrev pub Writes : Options → List (Call × Reply) → Type 0
Writes o [] = Unit {0}
Writes o ((prep_writev fd offset in_flight, _) ∷ t) =
    (offset + o.bs < o.file_size)
    × (offset % o.bs ≡ 0)
    × (in_flight < o.io_uring_queue_depth)
    × Writes o t
Writes o (_ ∷ t) = Writes o t

pub record Inv (o : Options) (s : Machine Call Reply IoWorker) : Type 0 where
  pub depth : o.io_uring_queue_depth < 2 ^ 64
  pub file : o.file_size < 2 ^ 63
  pub flow : s.mem.free_io_units_io_uring + s.mem.in_flight ≡ o.io_uring_queue_depth
  pub fits : o.bs < o.file_size
  pub offset : s.mem.cur_offset + o.bs < o.file_size
  pub aligned : s.mem.cur_offset % o.bs ≡ 0
  pub writes : Writes o s.trace

abbrev pub free : Machine Call Reply IoWorker → ℕ
free s = s.mem.free_io_units_io_uring

next_offset_in_file :
    (o : Options) (offset : ℕ)
    → o.bs < o.file_size
    → o.file_size < 2 ^ 63
    → offset + o.bs < o.file_size
    → offset % o.bs ≡ 0
    → (next_offset o offset + o.bs < o.file_size) × (next_offset o offset % o.bs ≡ 0)
unfolding next_offset
next_offset_in_file o offset fits file h aligned =
    ground (arith, add-mod_right offset o.bs, zero-mod o.bs)

module _ (o : Options) (os : Os Call Reply) (quiet : Quiet os) where
  -- How reaping ends: on an error, or with at least `min` requests taken since `s`.
  abbrev Reaped : Machine Call Reply IoWorker → ℕ → ℕ → ℤ → Machine Call Reply IoWorker → Type 0
  Reaped s min reaped v t =
      Inv o t
      × ((v ≡ negsuc 0) ⊎ ((k : ℕ) × (v ≡ pos k) × (min ≤ k) × (k + free s ≡ reaped + free t)))

  Reaped-later :
      (s v : Machine Call Reply IoWorker) (min reaped : ℕ) (x : ℤ) (t : Machine Call Reply IoWorker)
      → free v ≡ free s + 1
      → Reaped v min (reaped + 1) x t
      → Reaped s min reaped x t
  Reaped-later s v min reaped x t e (kept, inl bad) = (kept, inl bad)
  Reaped-later s v min reaped x t e (kept, inr (k, q, le, sum)) =
      (kept, inr (k, q, le, omega arith))

  in_flight_pos :
      (n in_flight : ℕ) (res : ℤ) → (os n (next_cqe in_flight)).cqe ≡ some res → 0 < in_flight
  in_flight_pos n zero res e = cc (quiet n)
  in_flight_pos n (suc k) res e = omega arith

  reap_loop-Reaped :
      (fuel min reaped : ℕ) (s : Machine Call Reply IoWorker)
      → Inv o s
      → Ensures (Reaped s min reaped) (Reaped s min reaped) (Inv o) (reap_loop fuel min reaped os s)
  unfolding reap_loop
  reap_loop-Reaped zero min reaped s h = h
  reap_loop-Reaped (suc fuel) min reaped s h =
      let r = os s.clock (next_cqe s.mem.in_flight) in
      let u : Machine Call Reply IoWorker = record s {
        clock = suc s.clock;
        trace = (next_cqe s.mem.in_flight, r) ∷ s.trace;
      } in
      let v : Machine Call Reply IoWorker = record u {
        clock = suc u.clock;
        trace = (cqe_seen, os u.clock cqe_seen) ∷ u.trace;
        mem = reaped_one u.mem;
      } in
      let same : Inv o u = record {
        depth = h.depth;
        file = h.file;
        flow = h.flow;
        fits = h.fits;
        offset = h.offset;
        aligned = h.aligned;
        writes = h.writes;
      } in
      let Q : Prog Call Reply IoWorker ℤ ℤ → Type 0 =
        λ m. Ensures (Reaped s min reaped) (Reaped s min reaped) (Inv o) (m os u) in
      option_cases
        (λ c. Q (elim c [
          | none ↦ (if ltb reaped min then reap_loop fuel min reaped else pure (pos reaped))
          | some res ↦
              (if is_neg res
                then return_now (negsuc 0)
                else (do call cqe_seen; modify reaped_one; reap_loop fuel min (reaped + 1)))
        ]))
        r.cqe
        (λ nothing.
          if_cases Q (ltb reaped min) (reap_loop fuel min reaped) (pure (pos reaped))
            (λ more. reap_loop-Reaped fuel min reaped u same)
            (λ enough. (same, inr (reaped, refl, ground arith, refl))))
        (λ res one.
          if_cases Q (is_neg res) (return_now (negsuc 0))
            (do call cqe_seen; modify reaped_one; reap_loop fuel min (reaped + 1))
            (λ bad. (same, inl refl))
            (λ good.
              let busy : 0 < s.mem.in_flight = in_flight_pos s.clock s.mem.in_flight res one in
              let more : free v ≡ free s + 1 = omega (arith, h.flow, h.depth) in
              let kept : Inv o v = record {
                depth = h.depth;
                file = h.file;
                flow = omega (arith, h.flow, h.depth);
                fits = h.fits;
                offset = h.offset;
                aligned = h.aligned;
                writes = h.writes;
              } in
              Ensures-mono (Reaped v min (reaped + 1)) (Reaped s min reaped)
                (Reaped v min (reaped + 1)) (Reaped s min reaped) (Inv o) (Inv o)
                (reap_loop fuel min (reaped + 1) os v)
                (λ x t q. Reaped-later s v min reaped x t more q)
                (λ x t q. Reaped-later s v min reaped x t more q) (λ t q. q)
                (reap_loop-Reaped fuel min (reaped + 1) v kept)))

  pub prepare_write-Inv :
      (E : Type 0) (base : ℕ) (s : Machine Call Reply IoWorker)
      → Inv o s
      → 0 < free s
      → Ensures {E = E} (λ x t. Inv o t) (λ x t. ⊥) (λ t. ⊥) (prepare_write o base os s)
  unfolding prepare_write
  prepare_write-Inv E base s h room =
      ground (arith, next_offset_in_file o s.mem.cur_offset h.fits h.file h.offset h.aligned)

  -- A call that wants `min` completions leaves as many more free units, or fails.
  abbrev pub Frees :
      {A : Type 0} → Machine Call Reply IoWorker → ℕ → A → Machine Call Reply IoWorker → Type 0
  Frees s min x t = Inv o t × (min + free s ≤ free t)

  abbrev pub Fails : {E : Type 0} → E → Machine Call Reply IoWorker → Type 0
  Fails e t = Inv o t

  pub reap_or_fail-Frees :
      (E : Type 0) (fuel min : ℕ) (e : E) (s : Machine Call Reply IoWorker)
      → Inv o s
      → Ensures (Frees s min) Fails (Inv o) (reap_or_fail fuel min e os s)
  unfolding reap_or_fail reap_io_uring_cq
  reap_or_fail-Frees E fuel min e s h =
      bind_Ensures os (Reaped s min 0) (Frees s min) Fails (Inv o) (reap_io_uring_cq fuel min)
        (λ n. if is_neg n then return_now e else pure tt) s
        (function-Ensures os (Reaped s min 0) Fails (Inv o) (reap_loop fuel min 0) s
          (reap_loop-Reaped fuel min 0 s h))
        (λ n t q.
          if_cases
            (λ (m : Prog Call Reply IoWorker E (Unit {0})).
              Ensures (Frees s min) Fails (Inv o) (m os t))
            (is_neg n) (return_now e) (pure tt) (λ bad. q.0) (λ good. (q.0, ground (arith, q.1))))
