-- ===== src/FileRw/Aio/Waits.antt =====
-- The thread of test_small_aio and test_large_aio in src/file_rw_nvmeof.cc that takes completions.
use nvmeof_project.Prelude.{ℕ, suc, ◌≡◌, List, [], ◌∷◌, false, ℤ, is_pos}
use nvmeof_project.Outside.{Os, Exit, hung}
use nvmeof_project.FileRw.{Call, Reply, Ending, io_getevents, delete_event}
use nvmeof_project.FileRw.Trace.{TestMachine}

-- How many requests were deleted.
abbrev pub deleted : List (Call × Reply) → ℕ
deleted [] = 0
deleted ((delete_event i, r) ∷ t) = suc (deleted t)
deleted (_ ∷ t) = deleted t

-- No call of io_getevents reports a completion: it times out or fails.
abbrev pub NoneComplete : Os Call Reply → Type 0
NoneComplete os = (n : ℕ) (min max : ℤ) → is_pos (os n (io_getevents min max)).ret ≡ false

-- The thread waits for ever, and has deleted nothing.
abbrev pub Waits : TestMachine → Exit Ending (Unit {0}) × TestMachine → Type 0
Waits s (r, t) = (r ≡ hung) × (deleted t.trace ≡ deleted s.trace)
