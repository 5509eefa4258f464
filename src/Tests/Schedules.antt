-- ===== src/Tests/Schedules.antt =====
-- The asynchronous server of src/net.h under schedules of completions.
use nvmeof_project.Prelude.{[], ◌∷◌, pos}
use nvmeof_project.Block.{replied, status_unknown}
use nvmeof_project.Async.{Kind, completed, assertion_failed, exec}
use nvmeof_project.Async.Invariant.{Sound, exec-Sound}
use nvmeof_project.Async.Answers.{AnswersAlike, exec-AnswersAlike}

-- The first call is answered, its object is deleted, and another call arrives.
exec-Sound_example : Sound (
    exec Kind.read_block (
      completed 0 (replied (pos 9))
      ∷ completed 0 status_unknown
      ∷ completed 0 (replied (pos 1))
      ∷ completed 5 status_unknown
      ∷ assertion_failed
      ∷ []))
exec-Sound_example = exec-Sound Kind.read_block (
    completed 0 (replied (pos 9))
    ∷ completed 0 status_unknown
    ∷ completed 0 (replied (pos 1))
    ∷ completed 5 status_unknown
    ∷ assertion_failed
    ∷ [])

exec-AnswersAlike_example :
    AnswersAlike
      (exec Kind.write_block (completed 0 (replied (pos 9)) ∷ completed 1 status_unknown ∷ []))
exec-AnswersAlike_example =
    exec-AnswersAlike (completed 0 (replied (pos 9)) ∷ completed 1 status_unknown ∷ [])
