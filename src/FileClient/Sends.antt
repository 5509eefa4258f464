-- ===== src/FileClient/Sends.antt =====
-- What the tests of src/file_initiator.cc send: their parameters, and N requests on one stream.
use nvmeof_project.Prelude.{
  ℕ, suc, Bool, Bool-cases, true, false, ◌≡◌, refl, List, ◌⊎◌, inl, inr, arith,
}
use nvmeof_project.Outside.{Exit, Os, boot, for_range, ◌>>=◌, ◌>>◌}
use nvmeof_project.Outside.Laws.{Ensures, bind_Ensures, Ensures-fails}
use nvmeof_project.Outside.Loops.{for_range-Ensures}
use nvmeof_project.FileTarget.{FileRequest, Parameters}
use nvmeof_project.FileClient.{
  Options, Method, one_large_file, many_small_files, many_small_files_async, one_large_file_async,
  one_large_file_async_expr, Call, Reply, ClientProg, set_parameters, leave_if, params_of,
  set_target_params, build_rpc_stub, rounds, large_request, small_request, small_async_request,
  expr_request, blocking_round, async_round, start_test, end_blocking, end_async, start_expr,
  test_large_blocking, test_small_blocking, test_small_async, test_large_async,
  test_large_async_expr,
}
use nvmeof_project.FileClient.Trace.{ClientMachine, Sent, NoneSent}

abbrev Never : ClientMachine → Type 0
Never t = ⊥

start_test-Sent :
    (o : Options) (method : Method) (request : ℕ → FileRequest) (os : Os Call Reply)
    → Ensures
        (λ _ t. Sent (params_of o) method request 0 0 t)
        (λ _ t. ⊥)
        Never
        (start_test o method os (boot tt))
unfolding start_test build_rpc_stub set_target_params
start_test-Sent o method request os = record {
  set_once = refl;
  one_stream = refl;
  all_sent = refl;
  all_taken = refl;
}

abbrev pub expr_params : Options → Parameters
expr_params o = record (params_of o) { nfiles = o.fn }

-- Whether the server took those parameters.
abbrev pub takes_params : Options → Os Call Reply → Bool
takes_params o os = (os 1 (set_parameters (expr_params o))).is_ok

start_expr-Sent :
    (o : Options) (request : ℕ → FileRequest) (os : Os Call Reply)
    → takes_params o os ≡ true
    → Ensures
        (λ _ t. Sent (expr_params o) one_large_file_async_expr request 0 0 t)
        (λ _ t. ⊥)
        Never
        (start_expr o os (boot tt))
unfolding start_expr build_rpc_stub leave_if
start_expr-Sent o request os e = ground (arith, e)

start_expr-NoneSent :
    (o : Options) (os : Os Call Reply)
    → takes_params o os ≡ false
    → Ensures (λ _ t. ⊥) (λ _ t. NoneSent (expr_params o) t) Never (start_expr o os (boot tt))
unfolding start_expr build_rpc_stub leave_if
start_expr-NoneSent o os e = ground (arith, e)

module _ (p : Parameters) (method : Method) (request : ℕ → FileRequest) (os : Os Call Reply) where
  blocking_round-Sent :
      (k : ℕ) (s : ClientMachine)
      → Sent p method request k k s
      → Ensures
          (λ _ t. Sent p method request (suc k) (suc k) t)
          (λ _ t. ⊥)
          Never
          (blocking_round request k os s)
  unfolding blocking_round
  blocking_round-Sent k s h = ground (arith, h.set_once, h.one_stream, h.all_sent, h.all_taken)

  async_round-Sent :
      (k : ℕ) (s : ClientMachine)
      → Sent p method request k 0 s
      → Ensures
          (λ _ t. Sent p method request (suc k) 0 t)
          (λ _ t. ⊥)
          Never
          (async_round request k os s)
  unfolding async_round
  async_round-Sent k s h = ground (arith, h.set_once, h.one_stream, h.all_sent, h.all_taken)

  end_blocking-Sent :
      (n : ℕ) (s : ClientMachine)
      → Sent p method request n n s
      → Ensures
          (λ _ t. Sent p method request n n t)
          (λ _ t. Sent p method request n n t)
          Never
          (end_blocking os s)
  unfolding end_blocking leave_if
  end_blocking-Sent n s h = ground (arith, h.set_once, h.one_stream, h.all_sent, h.all_taken)

  end_async-Sent :
      (n : ℕ) (s : ClientMachine)
      → Sent p method request n 0 s
      → Ensures
          (λ _ t. Sent p method request n 1 t)
          (λ _ t. Sent p method request n 1 t)
          Never
          (end_async os s)
  unfolding end_async leave_if
  end_async-Sent n s h = ground (arith, h.set_once, h.one_stream, h.all_sent, h.all_taken)

module _ (p : Parameters) (method : Method) (request : ℕ → FileRequest) (os : Os Call Reply) where
  -- A test whose start, rounds and end do as above; `per` tells how many replies were read by a round.
  test-Sent :
      (X : ClientMachine → Type 0) (per : ℕ → ℕ) (replies n : ℕ) (start : ClientProg (Unit {0}))
      (round : ℕ → ClientProg (Unit {0})) (end : ClientProg (Unit {0}))
      → Ensures (λ _ t. Sent p method request 0 (per 0) t) (λ _ t. X t) Never (start os (boot tt))
      → ((k : ℕ) (s : ClientMachine)
          → Sent p method request k (per k) s
          → Ensures
              (λ _ t. Sent p method request (suc k) (per (suc k)) t)
              (λ _ t. ⊥)
              Never
              (round k os s))
      → ((s : ClientMachine)
          → Sent p method request n (per n) s
          → Ensures
              (λ _ t. Sent p method request n replies t)
              (λ _ t. Sent p method request n replies t)
              Never
              (end os s))
      → Ensures
          (λ _ t. Sent p method request n replies t)
          (λ _ t. X t ⊎ Sent p method request n replies t)
          Never
          ((do start; for_range round 0 n; end) os (boot tt))
  test-Sent X per replies n start round end h step last =
      let Q : ℕ → ClientMachine → Type 0 = λ k. Sent p method request k (per k) in
      let R : ClientMachine → Type 0 = Sent p method request n replies in
      let F : Unit {0} → ClientMachine → Type 0 = λ _ t. X t ⊎ R t in
      bind_Ensures os (λ _ t. Q 0 t) (λ _ t. R t) F Never start (λ _. (do for_range round 0 n; end))
        (boot tt)
        (Ensures-fails (λ _ t. Q 0 t) (λ _ t. X t) F Never (start os (boot tt)) (λ _ t x. inl x) h)
        (λ _ s q.
          bind_Ensures os (λ _ t. Q n t) (λ _ t. R t) F Never (for_range round 0 n) (λ _. end) s
            (for_range-Ensures os Q F Never round n
              (λ k u lt w.
                Ensures-fails (λ _ t. Q (suc k) t) (λ _ t. ⊥) F Never (round k os u)
                  (λ _ t x. absurd x) (step k u w))
              0 n s (omega arith) q)
            (λ _ u w.
              Ensures-fails (λ _ t. R t) (λ _ t. R t) F Never (end os u) (λ _ t r. inr r)
                (last u w)))

-- How a test that sends its `n` requests in any case ends.
abbrev pub SendsAll :
    Parameters
    → Method
    → (ℕ → FileRequest)
    → ℕ
    → ℕ
    → Exit (Unit {0}) (Unit {0}) × ClientMachine
    → Type 0
SendsAll p method request n replies out =
    Ensures (λ _ t. Sent p method request n replies t) (λ _ t. Sent p method request n replies t)
      (λ t. ⊥) out

start_fails :
    (p : Parameters) (method : Method) (request : ℕ → FileRequest) (k replies : ℕ)
    (t : ClientMachine)
    → ⊥ ⊎ Sent p method request k replies t
    → Sent p method request k replies t
start_fails p method request k replies t (inl x) = absurd x
start_fails p method request k replies t (inr h) = h

module _ (o : Options) (os : Os Call Reply) (method : Method) (request : ℕ → FileRequest) where
  blocking-SendsAll : SendsAll (params_of o) method request (rounds o) (rounds o) (
      (do start_test o method; for_range (blocking_round request) 0 (rounds o); end_blocking) os
        (boot tt))
  blocking-SendsAll =
      let p = params_of o in
      let n = rounds o in
      let R : Unit {0} → ClientMachine → Type 0 = λ _ t. Sent p method request n n t in
      Ensures-fails R (λ _ t. ⊥ ⊎ Sent p method request n n t) R Never
        ((do start_test o method; for_range (blocking_round request) 0 n; end_blocking) os
          (boot tt))
        (λ _ t h. start_fails p method request n n t h)
        (test-Sent p method request os Never (λ k. k) n n (start_test o method)
          (blocking_round request) end_blocking (start_test-Sent o method request os)
          (blocking_round-Sent p method request os) (end_blocking-Sent p method request os n))

  async-SendsAll : SendsAll (params_of o) method request (rounds o) 1 (
      (do start_test o method; for_range (async_round request) 0 (rounds o); end_async) os
        (boot tt))
  async-SendsAll =
      let p = params_of o in
      let n = rounds o in
      let R : Unit {0} → ClientMachine → Type 0 = λ _ t. Sent p method request n 1 t in
      Ensures-fails R (λ _ t. ⊥ ⊎ Sent p method request n 1 t) R Never
        ((do start_test o method; for_range (async_round request) 0 n; end_async) os (boot tt))
        (λ _ t h. start_fails p method request n 1 t h)
        (test-Sent p method request os Never (λ k. 0) 1 n (start_test o method)
          (async_round request) end_async (start_test-Sent o method request os)
          (async_round-Sent p method request os) (end_async-Sent p method request os n))

-- How the test of several files ends: parameters that are refused are the only thing it sends.
abbrev pub ExprSends :
    Options → List ℕ → Os Call Reply → Exit (Unit {0}) (Unit {0}) × ClientMachine → Type 0
ExprSends o behind os out =
    ((takes_params o os ≡ true)
      × SendsAll (expr_params o) one_large_file_async_expr (expr_request o behind) (rounds o) 1 out)
    ⊎ ((takes_params o os ≡ false)
        × Ensures (λ _ t. ⊥) (λ _ t. NoneSent (expr_params o) t) (λ t. ⊥) out)

test_large_async_expr-ExprSends :
    (o : Options) (behind : List ℕ) (os : Os Call Reply)
    → ExprSends o behind os (test_large_async_expr o behind os (boot tt))
unfolding test_large_async_expr
test_large_async_expr-ExprSends o behind os =
    let p = expr_params o in
    let request = expr_request o behind in
    let n = rounds o in
    let R : Unit {0} → ClientMachine → Type 0 =
      λ _ t. Sent p one_large_file_async_expr request n 1 t in
    let rest : Unit {0} → ClientProg (Unit {0}) =
      λ _. (do for_range (async_round request) 0 n; end_async) in
    elim (Bool-cases (takes_params o os)) [
      | inl taken ↦ inl (
        taken,
        Ensures-fails R (λ _ t. ⊥ ⊎ Sent p one_large_file_async_expr request n 1 t) R Never
            ((start_expr o >>= rest) os (boot tt))
            (λ _ t h. start_fails p one_large_file_async_expr request n 1 t h)
            (test-Sent p one_large_file_async_expr request os Never (λ k. 0) 1 n (start_expr o)
              (async_round request) end_async (start_expr-Sent o request os taken)
              (async_round-Sent p one_large_file_async_expr request os)
              (end_async-Sent p one_large_file_async_expr request os n)),
      )
      | inr refused ↦ inr (
        refused,
        bind_Ensures os (λ _ t. ⊥) (λ _ t. ⊥) (λ _ t. NoneSent p t) Never (start_expr o) rest
            (boot tt) (start_expr-NoneSent o os refused) (λ _ t q. absurd q),
      )
    ]

-- Each of the five tests on one stream ends, whatever is answered. It has sent its parameters once
-- and opened one stream, of its own method, and on it has written exactly N requests, numbered from
-- 0, each with its name and data; a blocking test has read N replies, the others one. The test of
-- several files alone, exactly where its parameters are refused, has opened no stream and sent no
-- request.
pub tests-SendsAll :
    (o : Options) (behind : List ℕ) (os : Os Call Reply)
    → let n = rounds o in
      let p = params_of o in
      SendsAll p one_large_file
        (large_request o behind)
        n
        n
        (test_large_blocking o behind os (boot tt))
      × SendsAll p many_small_files
          (small_request o behind)
          n
          n
          (test_small_blocking o behind os (boot tt))
      × SendsAll p many_small_files_async
          (small_async_request o behind)
          n
          1
          (test_small_async o behind os (boot tt))
      × SendsAll p one_large_file_async
          (large_request o behind)
          n
          1
          (test_large_async o behind os (boot tt))
      × ExprSends o behind os (test_large_async_expr o behind os (boot tt))
unfolding test_large_blocking test_small_blocking test_small_async test_large_async
tests-SendsAll o behind os = (
  blocking-SendsAll o os one_large_file (large_request o behind),
  blocking-SendsAll o os many_small_files (small_request o behind),
  async-SendsAll o os many_small_files_async (small_async_request o behind),
  async-SendsAll o os one_large_file_async (large_request o behind),
  test_large_async_expr-ExprSends o behind os,
)
