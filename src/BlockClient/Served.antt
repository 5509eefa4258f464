-- ===== src/BlockClient/Served.antt =====
-- src/block_initiator.cc with the asynchronous server of src/net.h: what the client prints.
use nvmeof_project.Prelude.{
  ℕ, suc, ◌≡◌, ap, ◌∙◌, ◌⊎◌, inl, inr, false, some, List, [], ◌∷◌, ℤ, pos, arith,
}
use nvmeof_project.Outside.{Machine, Exit, Os, done, stop}
use nvmeof_project.Nvme
use nvmeof_project.Nvme.{DeviceConfig}
use nvmeof_project.Async.{Answer, written, read, Handler, write_block, Completion, exec}
use nvmeof_project.Async.Answers.{SameAnswer, AnswersAlike, exec-AnswersAlike}
use mathlib.Core.Path.{subst}
use nvmeof_project.BlockClient.{
  Call, Reply, Aborted, assertion_failed, next, print_end_block, print_failed, server_addr,
  remote_write, main,
}

-- What was printed, the last first.
abbrev pub prints : List (Call × Reply) → List Call
prints [] = []
prints ((print_end_block b, _) ∷ t) = print_end_block b ∷ prints t
prints ((print_failed, _) ∷ t) = print_failed ∷ prints t
prints (_ ∷ t) = prints t

-- One of the answers that a handler has sent.
abbrev pub IsSent : Answer → List (ℕ × Answer) → Type 0
IsSent a [] = ⊥
IsSent a ((t, b) ∷ rest) = (a ≡ b) ⊎ IsSent a rest

-- The call has failed, or its reply is one that a handler for WriteBlock has sent after some
-- completions.
abbrev pub FromServer : Os Call Reply → ℕ → Type 0
FromServer os n =
    ((os n next).status_ok ≡ false)
    ⊎ ((cs : List Completion) × (h : Handler) × (exec write_block cs ≡ some h)
        × IsSent (written (os n next).end_block) h.answers)

sent_answer :
    (a : Answer) (sent : List (ℕ × Answer))
    → SameAnswer sent
    → IsSent a sent
    → a ≡ written (pos 114514)
sent_answer a [] same is = absurd is
sent_answer a ((t, b) ∷ rest) same (inl e) = e ∙ same.0
sent_answer a ((t, b) ∷ rest) same (inr later) = sent_answer a rest same.1 later

end_block_of : Answer → ℤ
end_block_of (written b) = b
end_block_of (read io) = pos 0

served_end_block :
    (os : Os Call Reply) (n : ℕ)
    → FromServer os n
    → ((os n next).status_ok ≡ false) ⊎ ((os n next).end_block ≡ pos 114514)
unfolding end_block_of
served_end_block os n (inl failed) = inl failed
served_end_block os n (inr (cs, h, e, sent)) =
    let alike = subst AnswersAlike e (exec-AnswersAlike cs) in
    inr (ap end_block_of (sent_answer (written (os n next).end_block) h.answers alike sent))

abbrev pub Prints :
    Machine Call Reply (Unit {0}) → Exit Aborted (Unit {0}) × Machine Call Reply (Unit {0}) → Type 0
Prints s (r, t) =
    ((r ≡ stop assertion_failed) × (prints t.trace ≡ prints s.trace))
    ⊎ ((r ≡ done tt)
        × ((prints t.trace ≡ print_end_block (pos 114514) ∷ prints s.trace)
            ⊎ (prints t.trace ≡ print_failed ∷ prints s.trace)))

remote_write-Prints :
    (address : List ℕ) (os : Os Call Reply) (s : Machine Call Reply (Unit {0}))
    → FromServer os (suc (suc (suc s.clock)))
    → Prints s (remote_write address os s)
unfolding remote_write
remote_write-Prints address os s served =
    ground (arith, served_end_block os (suc (suc (suc s.clock))) served)

-- The client against the asynchronous server: its one call has failed, or was answered by a handler
-- for WriteBlock. The client prints the end block 114514, whatever its request was, or that the call
-- failed, and ends; or an assertion on the completion fails, and it has printed nothing.
pub main-Prints :
    (literal argc : ℕ) (addr : List ℕ) (port : ℤ) (nvme : Os Nvme.Call Nvme.Reply)
    (d : Machine Nvme.Call Nvme.Reply DeviceConfig) (os : Os Call Reply)
    (s : Machine Call Reply (Unit {0}))
    → FromServer os (suc (suc (suc s.clock)))
    → Prints s (main literal argc addr port nvme d os s).1
unfolding main
main-Prints literal argc addr port nvme d os s served =
    remote_write-Prints (server_addr argc addr port) os s served
