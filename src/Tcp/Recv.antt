-- ===== src/Tcp/Recv.antt =====
-- TCPConnection::recv against its contract: the bytes that the socket gave, in order.
use mathlib.Core.Path.{ap₂}
use nvmeof_project.Prelude.{
  ℕ, zero, suc, ◌+◌, ◌-◌, ◌≤◌, ◌<◌, ◌≡◌, refl, ap, sym, ◌∙◌, ◌⊎◌, inl, inr, true, false, List, [],
  ◌∷◌, ◌++◌, append-nil, append_assoc, length, length-append, ℤ, pos, negsuc, is_neg, nat_part,
  ◌==◌, if◌then◌else◌, if_cases, arith,
}
use nvmeof_project.Outside.{Machine, Exit, Os, Prog, done, stop, hung, pure, return_now, ◌>>=◌}
use nvmeof_project.Outside.Laws.{after_bind, Returned, function_lem}
use nvmeof_project.Tcp.{Call, Reply, TcpConnection, recv_bytes, recv_loop, recv}

-- All bytes that the socket has given so far, oldest first.
abbrev pub received : List (Call × Reply) → List ℕ
received [] = []
received ((recv_bytes sock left, r) ∷ t) = received t ++ r.bytes
received (_ ∷ t) = received t

-- `::recv` returns the number of bytes that it wrote, at most as many as asked for; none on failure.
abbrev pub GivesAtMost : Os Call Reply → Type 0
GivesAtMost os =
    (n : ℕ) (sock : ℤ) (left : ℕ)
    → (length (os n (recv_bytes sock left)).bytes ≡ nat_part (os n (recv_bytes sock left)).ret)
      × (nat_part (os n (recv_bytes sock left)).ret ≤ left)

-- From call number `b` on, `::recv` is not interrupted.
abbrev pub Uninterrupted : ℕ → Os Call Reply → Type 0
Uninterrupted b os =
    (n : ℕ) (sock : ℤ) (left : ℕ)
    → b ≤ n
    → is_neg (os n (recv_bytes sock left)).ret ≡ true
    → (os n (recv_bytes sock left)).eintr ≡ false

-- How a loop may end that had `got` and wanted `left` more, after `more` was written.
abbrev Ends : List ℕ → List ℕ → ℕ → Exit (ℤ × List ℕ) (List ℕ) → Type 0
Ends got more left (done g) = (g ≡ got ++ more) × (length more ≡ left)
Ends got more left (stop (v, g)) =
    (g ≡ got ++ more) × (length more < left) × ((v ≡ negsuc 0) ⊎ (v ≡ pos (length g)))
Ends got more left hung = ⊥

abbrev Receives :
    Machine Call Reply TcpConnection
    → List ℕ
    → ℕ
    → Exit (ℤ × List ℕ) (List ℕ) × Machine Call Reply TcpConnection
    → Type 0
Receives s got left (r, t) =
    (more : List ℕ) × (received t.trace ≡ received s.trace ++ more) × Ends got more left r

Ends-later :
    (got bytes more : List ℕ) (left w : ℕ) (r : Exit (ℤ × List ℕ) (List ℕ))
    → length bytes ≡ w
    → w ≤ left
    → Ends (got ++ bytes) more (left - w) r
    → Ends got (bytes ++ more) left r
Ends-later got bytes more left w (done g) e h k =
    (k.0 ∙ append_assoc got bytes more, omega (arith, length-append bytes more))
Ends-later got bytes more left w (stop (v, g)) e h k =
    (k.0 ∙ append_assoc got bytes more, omega (arith, length-append bytes more), k.2)
Ends-later got bytes more left w hung e h k = k

Receives-round :
    (s u : Machine Call Reply TcpConnection) (got bytes : List ℕ) (left w : ℕ)
    (out : Exit (ℤ × List ℕ) (List ℕ) × Machine Call Reply TcpConnection)
    → length bytes ≡ w
    → w ≤ left
    → received u.trace ≡ received s.trace ++ bytes
    → Receives u (got ++ bytes) (left - w) out
    → Receives s got left out
Receives-round s u got bytes left w (r, t) e h moved (more, eq, ends) = (
  bytes ++ more,
  eq ∙ ap (λ d. d ++ more) moved ∙ append_assoc (received s.trace) bytes more,
  Ends-later got bytes more left w r e h ends,
)

nil-of-length : (xs : List ℕ) → length xs ≡ 0 → xs ≡ []
nil-of-length [] h = refl
nil-of-length (x ∷ xs) h = absurd (omega arith)

-- A round that ends the loop leaves the buffer as it was.
Receives-stop :
    (s u : Machine Call Reply TcpConnection) (got bytes : List ℕ) (left : ℕ) (v : ℤ)
    → length bytes ≡ 0
    → received u.trace ≡ received s.trace ++ bytes
    → (v ≡ negsuc 0) ⊎ (v ≡ pos (length got))
    → Receives s got (suc left) (stop (v, got), u)
Receives-stop s u got bytes left v e moved h = (
  [],
  moved ∙ ap (◌++◌ (received s.trace)) (nil-of-length bytes e),
  (sym (append-nil got), omega arith, h),
)

-- An interrupted round changes nothing.
Receives-same :
    (s u : Machine Call Reply TcpConnection) (got bytes : List ℕ) (left : ℕ)
    (out : Exit (ℤ × List ℕ) (List ℕ) × Machine Call Reply TcpConnection)
    → length bytes ≡ 0
    → received u.trace ≡ received s.trace ++ bytes
    → Receives u got left out
    → Receives s got left out
Receives-same s u got bytes left out e moved (more, eq, ends) = (
  more,
  eq
      ∙ ap (λ d. d ++ more)
          (moved
            ∙ ap (◌++◌ (received s.trace)) (nil-of-length bytes e)
            ∙ append-nil (received s.trace)),
  ends,
)

recv_loop-Receives :
    (os : Os Call Reply) (b : ℕ)
    → GivesAtMost os
    → Uninterrupted b os
    → (fuel : ℕ) (sock : ℤ) (len : ℕ) (got : List ℕ) (left : ℕ)
      (s : Machine Call Reply TcpConnection)
    → (b - s.clock) + left ≤ fuel
    → length got + left ≡ len
    → Receives s got left (recv_loop fuel sock len got left os s)
unfolding recv_loop
recv_loop-Receives os b few adv fuel sock len got zero s h n =
    ([], sym (append-nil (received s.trace)), (sym (append-nil got), refl))
recv_loop-Receives os b few adv zero sock len got (suc left) s h n = absurd (omega arith)
recv_loop-Receives os b few adv (suc fuel) sock len got (suc left) s h n =
    let r = os s.clock (recv_bytes sock (suc left)) in
    let u : Machine Call Reply TcpConnection = record s {
      clock = suc s.clock;
      trace = (recv_bytes sock (suc left), r) ∷ s.trace;
    } in
    let honest = few s.clock sock (suc left) in
    let Q : Prog Call Reply TcpConnection (ℤ × List ℕ) (List ℕ) → Type 0 =
      λ m. Receives s got (suc left) (m os u) in
    if_cases Q (is_neg r.ret)
      (if r.eintr then recv_loop fuel sock len got (suc left) else return_now (negsuc 0, got))
      (if nat_part r.ret == 0
        then return_now (pos (len - suc left), got)
        else recv_loop fuel sock len (got ++ r.bytes) (suc left - nat_part r.ret))
      (λ neg.
        if_cases Q r.eintr (recv_loop fuel sock len got (suc left)) (return_now (negsuc 0, got))
          (λ again.
            let zero_read : nat_part r.ret ≡ 0 = ground arith in
            Receives-same s u got r.bytes (suc left) (recv_loop fuel sock len got (suc left) os u)
              (honest.0 ∙ zero_read) refl
              (recv_loop-Receives os b few adv fuel sock len got (suc left) u
                (ground (arith, adv s.clock sock (suc left))) n))
          (λ broken.
            let zero_read : nat_part r.ret ≡ 0 = ground arith in
            Receives-stop s u got r.bytes left (negsuc 0) (honest.0 ∙ zero_read) refl (inl refl)))
      (λ nonneg.
        if_cases Q (nat_part r.ret == 0) (return_now (pos (len - suc left), got))
          (recv_loop fuel sock len (got ++ r.bytes) (suc left - nat_part r.ret))
          (λ closed.
            Receives-stop s u got r.bytes left (pos (len - suc left)) (ground (arith, honest)) refl
              (inr (ap pos (omega arith))))
          (λ some.
            Receives-round s u got r.bytes (suc left) (nat_part r.ret)
              (recv_loop fuel sock len (got ++ r.bytes) (suc left - nat_part r.ret) os u) honest.0
              honest.1 refl
              (recv_loop-Receives os b few adv fuel sock len (got ++ r.bytes)
                (suc left - nat_part r.ret) u (ground (arith))
                (omega (arith, length-append got r.bytes, honest.0, honest.1)))))

abbrev pub RecvReport :
    Machine Call Reply TcpConnection
    → ℕ
    → Exit (Unit {0}) (ℤ × List ℕ) × Machine Call Reply TcpConnection
    → Type 0
RecvReport s len (r, t) =
    (got : List ℕ) × (received t.trace ≡ received s.trace ++ got)
    × (((r ≡ done (pos len, got)) × (length got ≡ len))
        ⊎ ((r ≡ done (pos (length got), got)) × (length got < len))
        ⊎ ((r ≡ done (negsuc 0, got)) × (length got < len)))

report :
    (os : Os Call Reply) (s : Machine Call Reply TcpConnection) (len : ℕ)
    (out : Exit (ℤ × List ℕ) (List ℕ) × Machine Call Reply TcpConnection)
    → Receives s [] len out
    → Returned (RecvReport s len) (after_bind (λ got. pure (pos len, got)) os out)
report os s len (done g, t) (more, eq, e) = (more, eq, inl (ap (λ b. done (pos len, b)) e.0, e.1))
report os s len (stop (v, g), t) (more, eq, (g_eq, short, inl fail)) =
    (more, eq, inr (inr (ap₂ (λ x b. done (x, b)) fail g_eq, short)))
report os s len (stop (v, g), t) (more, eq, (g_eq, short, inr eof)) = (
  more,
  eq,
  inr (inl (ap₂ (λ x b. done (x, b)) (eof ∙ ap (λ b. pos (length b)) g_eq) g_eq, short)),
)
report os s len (hung, t) (more, eq, e) = absurd e

-- If the socket gives at most as many bytes as it is asked for, is not interrupted for ever, and
-- the loop has fuel for the interrupted rounds and one round for each byte, then `recv` ends, and
-- the buffer holds exactly what the socket gave during the call, in order. It returns `len` with
-- `len` bytes, or the number of bytes, fewer than `len`, when the peer has closed, or -1 after
-- fewer than `len` bytes.
pub recv-RecvReport :
    (os : Os Call Reply) (b fuel len : ℕ) (s : Machine Call Reply TcpConnection)
    → GivesAtMost os
    → Uninterrupted b os
    → (b - s.clock) + len ≤ fuel
    → RecvReport s len (recv fuel len os s)
unfolding recv
recv-RecvReport os b fuel len s few adv h =
    function_lem (RecvReport s len)
      (do got ← recv_loop fuel s.mem.peer_sock len [] len; pure (pos len, got)) os s
      (report os s len (recv_loop fuel s.mem.peer_sock len [] len os s)
        (recv_loop-Receives os b few adv fuel s.mem.peer_sock len [] len s h (omega arith)))
