-- ===== src/FileClient/Remote.antt =====
-- The client of src/file_initiator.cc with the file server of src/file_target.cc: what
-- test_small_blocking has the server store.
use nvmeof_project.Prelude.{
  ℕ, zero, suc, ◌^◌, ◌≤◌, ◌<◌, ◌≡◌, refl, sym, ap, ◌∙◌, List, [], ◌∷◌, ◌++◌, map, replicate, take,
  pos, wrap, inl, inr, arith,
}
use nvmeof_project.Outside.{Exit, done, stop, hung, boot}
use nvmeof_project.Names.{small_file}
use nvmeof_project.FileRw.Trace.{small_files}
use nvmeof_project.FileTarget.Store.{
  FileMachine, FileOs, requests, opened_names, opens, closes, targets, writes, appended, stored_as,
  Stored,
}
use nvmeof_project.FileTarget.Many.{EndsBy, append_many_small_files-ManyReport}
use nvmeof_project.FileTarget.{
  FileRequest, FileServer, Parameters, payload, set_parameters, Outcome, ok,
  append_many_small_files,
}
use nvmeof_project.FileClient.{
  Method, Options, to_int32, params_of, small_request, rounds, test_small_blocking,
}
use nvmeof_project.FileClient.Trace.{ClientOs, ClientMachine, numbered, sent, Sent}
use mathlib.Core.Path.{subst}
use nvmeof_project.FileClient.Files.{HasSmallFiles, small_log, small_log-HasSmallFiles}
use nvmeof_project.FileClient.Sends.{SendsAll, tests-SendsAll}

take-replicate :
    (n : ℕ) (a : ℕ) (xs ys : List ℕ) → take n ((replicate n a ++ xs) ++ ys) ≡ replicate n a
take-replicate zero a xs ys = refl
take-replicate (suc n) a xs ys = ap (◌∷◌ a) (take-replicate n a xs ys)

to_int32_small : (n : ℕ) → n < 2 ^ 31 → to_int32 n ≡ pos n
unfolding to_int32
to_int32_small n h = ground arith

buffer_size_sent :
    (o : Options) (s : FileServer)
    → o.buffer_size < 2 ^ 31
    → (set_parameters (params_of o) s).buffer_size ≡ o.buffer_size
unfolding set_parameters params_of
buffer_size_sent o s small = ap (wrap (2 ^ 64)) (to_int32_small o.buffer_size small) ∙ omega arith

-- Sizes below 2^31 and counts reach the server as they are.
pub set_parameters-params_of :
    (o : Options) (s : FileServer)
    → o.buffer_size < 2 ^ 31
    → o.blk_size < 2 ^ 31
    → let p = set_parameters (params_of o) s in
      (p.buffer_size ≡ o.buffer_size)
      × (p.blk_size ≡ pos o.blk_size)
      × (p.request_count ≡ o.n)
      × (p.queue_depth ≡ o.queue_depth)
      × (p.poll_threshold ≡ o.idle_threshold)
unfolding set_parameters params_of
set_parameters-params_of o s small small' =
    (buffer_size_sent o s small, to_int32_small o.blk_size small', refl, refl, refl)

SendsAll-Sent :
    (p : Parameters) (method : Method) (request : ℕ → FileRequest) (n replies : ℕ)
    (out : Exit (Unit {0}) (Unit {0}) × ClientMachine)
    → SendsAll p method request n replies out
    → Sent p method request n replies out.1
SendsAll-Sent p method request n replies (done a, t) h = h
SendsAll-Sent p method request n replies (stop e, t) h = h
SendsAll-Sent p method request n replies (hung, t) h = absurd h

names_of-numbered :
    (o : Options) (behind : List ℕ) (n : ℕ)
    → map (λ r. r.filename) (numbered (small_request o behind) n) ≡ small_files n
unfolding small_request
names_of-numbered o behind zero = refl
names_of-numbered o behind (suc n) = ap (◌∷◌ (small_file n)) (names_of-numbered o behind n)

payloads_of-numbered :
    (o : Options) (behind : List ℕ) (n : ℕ)
    → map (payload o.buffer_size) (numbered (small_request o behind) n)
      ≡ replicate n (replicate o.buffer_size 255)
unfolding small_request
payloads_of-numbered o behind zero = refl
payloads_of-numbered o behind (suc n) =
    ap (λ d. d ∷ map (payload o.buffer_size) (numbered (small_request o behind) n))
      (take-replicate o.buffer_size 255 behind (0 ∷ []))
    ∙ ap (◌∷◌ (replicate o.buffer_size 255)) (payloads_of-numbered o behind n)

-- The N files /mnt/small-file-0, … have been opened, each written to once, where `write` has taken
-- a whole buffer of bytes 255, and closed; nothing was written to any other file.
pub record Remote (o : Options) (t : FileMachine) : Type 0 where
  pub names : opened_names t.trace ≡ small_files (rounds o)
  pub contents : writes t.trace ≡ replicate (rounds o) (replicate o.buffer_size 255)
  pub files : appended t.trace ≡ small_log (replicate o.buffer_size 255) (rounds o)
  pub own_file : targets t.trace ≡ opens t.trace
  pub closed : closes t.trace ≡ opens t.trace

files_of-numbered :
    (o : Options) (behind : List ℕ) (n : ℕ)
    → map (stored_as o.buffer_size) (numbered (small_request o behind) n)
      ≡ small_log (replicate o.buffer_size 255) n
unfolding small_request
files_of-numbered o behind zero = refl
files_of-numbered o behind (suc n) =
    ap
      (λ d. (small_file n, d) ∷ map (stored_as o.buffer_size) (numbered (small_request o behind) n))
      (take-replicate o.buffer_size 255 behind (0 ∷ []))
    ∙ ap (◌∷◌ (small_file n, replicate o.buffer_size 255)) (files_of-numbered o behind n)

abbrev result_of : Exit (Unit {0}) Outcome → Outcome
result_of (done e) = e
result_of (stop e) = ok
result_of hung = ok

Stored-Remote :
    (o : Options) (behind : List ℕ) (size : ℕ) (t : FileMachine)
    → size ≡ o.buffer_size
    → requests t.trace ≡ numbered (small_request o behind) (rounds o)
    → Stored size t
    → Remote o t
Stored-Remote o behind size t e same h = record {
  names = h.names ∙ ap (map (λ r. r.filename)) same ∙ names_of-numbered o behind (rounds o);
  contents =
      h.contents
      ∙ ap (λ n. map (payload n) (requests t.trace)) e
      ∙ ap (map (payload o.buffer_size)) same
      ∙ payloads_of-numbered o behind (rounds o);
  files =
      h.files
      ∙ ap (λ n. map (stored_as n) (requests t.trace)) e
      ∙ ap (map (stored_as o.buffer_size)) same
      ∙ files_of-numbered o behind (rounds o);
  own_file = h.own_file;
  closed = h.closed;
}

-- The log that the server leaves makes each of the N files one whole buffer, and no other.
abbrev pub RemoteFiles : Options → ℕ → FileMachine → Type 0
RemoteFiles o i t =
    Remote o t × HasSmallFiles (replicate o.buffer_size 255) (rounds o) i (appended t.trace)

Remote-RemoteFiles : (o : Options) (i : ℕ) (t : FileMachine) → Remote o t → RemoteFiles o i t
Remote-RemoteFiles o i t h =
    let buffer = replicate o.buffer_size 255 in
    (
      h,
      subst (HasSmallFiles buffer (rounds o) i) (sym h.files)
          (small_log-HasSmallFiles buffer (rounds o) i),
    )

-- The client runs test_small_blocking with buffers of less than 2^31 bytes, and the server
-- AppendManySmallFiles with the parameters of the client. If the stream brings the server the
-- requests that the client has written, in their order, and ends by call number `b`, and the
-- server's loop has `b` rounds and one at least, then, if the server answers OK, it has opened
-- each of the N files, written to it once and closed it. For every number `i`, what `write` has
-- returned to have appended to the file of that number, through descriptors that were opened for
-- it, is one whole buffer of bytes 255 if `i` is below N, and nothing if it is not.
pub append_many_small_files-Remote :
    (o : Options) (behind : List ℕ) (os : ClientOs) (os' : FileOs) (s : FileServer) (b fuel i : ℕ)
    → o.buffer_size < 2 ^ 31
    → EndsBy b os'
    → b ≤ fuel
    → 0 < fuel
    → let client = test_small_blocking o behind os (boot tt) in
      let server =
        append_many_small_files {E = Unit {0}} fuel os' (boot (set_parameters (params_of o) s)) in
      requests server.1.trace ≡ sent client.1.trace → server.0 ≡ done ok → RemoteFiles o i server.1
append_many_small_files-Remote o behind os os' s b fuel i small ends enough some same answer =
    let p = set_parameters (params_of o) s in
    let n = rounds o in
    let client = test_small_blocking o behind os (boot tt) in
    let server : Exit (Unit {0}) Outcome × FileMachine =
      append_many_small_files {E = Unit {0}} fuel os' (boot p) in
    let all =
      SendsAll-Sent (params_of o) _ (small_request o behind) n n client
        (tests-SendsAll o behind os).1 in
    elim (append_many_small_files-ManyReport b fuel os' p ends enough some) [
      | inl (e, h) ↦ Remote-RemoteFiles o i server.1 (
          Stored-Remote o behind p.buffer_size server.1 (buffer_size_sent o s small)
            (same ∙ all.all_sent) h)
      | inr (x, e, bad, h) ↦ absurd (bad (ap result_of (sym e ∙ answer)))
    ]
