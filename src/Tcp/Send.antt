-- ===== src/Tcp/Send.antt =====
-- TCPConnection::send against its contract: the bytes that the socket took, in order.
use nvmeof_project.Prelude.{
  ℕ, zero, suc, ◌+◌, ◌-◌, ◌≤◌, ◌<◌, ◌≡◌, ◌≢◌, refl, ap, sym, ◌∙◌, ◌⊎◌, inl, inr, true, false, List,
  [], ◌∷◌, ◌++◌, append-nil, append_assoc, length, length-drop, take, drop, take-take,
  take-append-take-drop, ℤ, pos, negsuc, is_neg, nat_part, arith,
}
use nvmeof_project.Outside.{Machine, Exit, Os, done, stop, hung, pure, ◌>>◌}
use nvmeof_project.Outside.Laws.{bind_cases, after_bind, Returned, function_lem}
use nvmeof_project.Tcp.{Call, Reply, TcpConnection, send_bytes, sent, send_loop, send}

-- All bytes that the socket has taken so far, oldest first.
abbrev pub delivered : List (Call × Reply) → List ℕ
delivered [] = []
delivered ((send_bytes sock bytes, r) ∷ t) = delivered t ++ take (nat_part r.ret) bytes
delivered (_ ∷ t) = delivered t

-- `::send` takes no more than it is offered.
abbrev pub TakesAtMost : Os Call Reply → Type 0
TakesAtMost os =
    (n : ℕ) (sock : ℤ) (bytes : List ℕ) → nat_part (os n (send_bytes sock bytes)).ret ≤ length bytes

-- From call number `b` on, `::send` takes some of the bytes that it is offered, where there are any,
-- or fails: it is not interrupted for ever.
abbrev pub Advances : ℕ → Os Call Reply → Type 0
Advances b os =
    (n : ℕ) (sock : ℤ) (bytes : List ℕ)
    → b ≤ n
    → 0 < length bytes
    → ((is_neg (os n (send_bytes sock bytes)).ret ≡ true)
        × ((os n (send_bytes sock bytes)).eintr ≡ false))
      ⊎ (0 < nat_part (os n (send_bytes sock bytes)).ret)

-- How a loop that has moved `k` of `left` bytes may end.
abbrev pub Ends : {A : Type 0} → ℕ → ℕ → Exit ℤ A → Type 0
Ends k left (done a) = k ≡ left
Ends k left (stop e) = (e ≡ negsuc 0) × (k < left)
Ends k left hung = ⊥

abbrev pub Delivers :
    {A : Type 0}
    → Machine Call Reply TcpConnection
    → List ℕ
    → ℕ
    → Exit ℤ A × Machine Call Reply TcpConnection
    → Type 0
Delivers s buffer left (r, t) =
    (k : ℕ) × (delivered t.trace ≡ delivered s.trace ++ take k buffer) × Ends k left r

length-take-pos : (n : ℕ) (xs : List ℕ) → 0 < n → 0 < length xs → 0 < length (take n xs)
length-take-pos zero xs h k = absurd (omega arith)
length-take-pos (suc n) [] h k = absurd (omega arith)
length-take-pos (suc n) (x ∷ xs) h k = omega arith

length-take-le : (n : ℕ) (xs : List ℕ) → length (take n xs) ≤ n
length-take-le zero xs = omega arith
length-take-le (suc n) [] = omega arith
length-take-le (suc n) (x ∷ xs) = omega (arith, length-take-le n xs)

Ends-later :
    {A : Type 0} (w k left : ℕ) (r : Exit ℤ A)
    → w ≤ left
    → Ends k (left - w) r
    → Ends (w + k) left r
Ends-later w k left (done a) h e = omega arith
Ends-later w k left (stop x) h e = (e.0, omega arith)
Ends-later w k left hung h e = e

-- One round that took `w` bytes, and the rest of the loop.
Delivers-round :
    {A : Type 0} (s u : Machine Call Reply TcpConnection) (buffer : List ℕ) (left w : ℕ)
    (out : Exit ℤ A × Machine Call Reply TcpConnection)
    → w ≤ left
    → delivered u.trace ≡ delivered s.trace ++ take w (take left buffer)
    → Delivers u (drop w buffer) (left - w) out
    → Delivers s buffer left out
Delivers-round s u buffer left w (r, t) h e (k, moved, ends) = (
  w + k,
  moved
      ∙ ap (λ d. d ++ take k (drop w buffer))
          (e ∙ ap (◌++◌ (delivered s.trace)) (take-take w left buffer h))
      ∙ append_assoc (delivered s.trace) (take w buffer) (take k (drop w buffer))
      ∙ ap (◌++◌ (delivered s.trace)) (take-append-take-drop w k buffer),
  Ends-later w k left r h ends,
)

sent-done :
    (r : Reply) (os : Os Call Reply) (s : Machine Call Reply TcpConnection) (w : ℕ)
    (t : Machine Call Reply TcpConnection)
    → sent r os s ≡ (done w, t)
    → (t ≡ s) × (w ≡ nat_part r.ret) × (((is_neg r.ret ≡ true) × (r.eintr ≡ false)) → ⊥)
unfolding sent
sent-done r os s w t e = ground arith

sent-stop :
    (r : Reply) (os : Os Call Reply) (s : Machine Call Reply TcpConnection) (e : ℤ)
    (t : Machine Call Reply TcpConnection)
    → sent r os s ≡ (stop e, t)
    → (t ≡ s) × (nat_part r.ret ≡ 0) × (e ≡ negsuc 0)
unfolding sent
sent-stop r os s x t e = ground arith

sent-hung :
    (r : Reply) (os : Os Call Reply) (s : Machine Call Reply TcpConnection)
    (t : Machine Call Reply TcpConnection)
    → sent r os s ≢ (hung, t)
unfolding sent
sent-hung r os s t e = ground arith

send_loop-Delivers :
    (os : Os Call Reply) (b : ℕ)
    → TakesAtMost os
    → Advances b os
    → (fuel : ℕ) (sock : ℤ) (buffer : List ℕ) (left : ℕ) (s : Machine Call Reply TcpConnection)
    → left ≤ length buffer
    → (b - s.clock) + left ≤ fuel
    → Delivers s buffer left (send_loop fuel sock buffer left os s)
unfolding send_loop
send_loop-Delivers os b few adv fuel sock buffer zero s more h =
    (0, sym (append-nil (delivered s.trace)), refl)
send_loop-Delivers os b few adv zero sock buffer (suc left) s more h = absurd (omega arith)
send_loop-Delivers os b few adv (suc fuel) sock buffer (suc left) s more h =
    let c = send_bytes sock (take (suc left) buffer) in
    let r = os s.clock c in
    let u : Machine Call Reply TcpConnection = record s {
      clock = suc s.clock;
      trace = (c, r) ∷ s.trace;
    } in
    bind_cases (Delivers s buffer (suc left)) (sent r)
      (λ w. send_loop fuel sock (drop w buffer) (suc left - w)) os u
      (λ w t e.
        let facts = sent-done r os u w t e in
        let offered : 0 < length (take (suc left) buffer) =
          length-take-pos (suc left) buffer (omega arith) (omega arith) in
        let clock : t.clock ≡ suc s.clock = ap (λ m. m.clock) facts.0 in
        let fits : w ≤ suc left = omega (
          arith,
          facts.1,
          few s.clock sock (take (suc left) buffer),
          length-take-le (suc left) buffer,
        ) in
        Delivers-round s t buffer (suc left) w
          (send_loop fuel sock (drop w buffer) (suc left - w) os t) fits
          (ap (λ m. delivered m.trace) facts.0
            ∙ ap (λ k. delivered s.trace ++ take k (take (suc left) buffer)) (sym facts.1))
          (send_loop-Delivers os b few adv fuel sock (drop w buffer) (suc left - w) t
            (omega (arith, length-drop w buffer))
            (ground (arith, offered, adv s.clock sock (take (suc left) buffer)))))
      (λ x t e.
        let facts = sent-stop r os u x t e in
        (
          0,
          ap (λ m. delivered m.trace) facts.0
              ∙ ap (λ k. delivered s.trace ++ take k (take (suc left) buffer)) facts.1,
          (facts.2, omega arith),
        ))
      (λ t e. absurd (sent-hung r os u t e))

abbrev pub SendReport :
    Machine Call Reply TcpConnection
    → List ℕ
    → ℕ
    → Exit (Unit {0}) ℤ × Machine Call Reply TcpConnection
    → Type 0
SendReport s buffer len (r, t) =
    (k : ℕ) × (delivered t.trace ≡ delivered s.trace ++ take k buffer)
    × (((r ≡ done (pos len)) × (k ≡ len)) ⊎ ((r ≡ done (negsuc 0)) × (k < len)))

report :
    (os : Os Call Reply) (s : Machine Call Reply TcpConnection) (buffer : List ℕ) (len : ℕ)
    (out : Exit ℤ (Unit {0}) × Machine Call Reply TcpConnection)
    → Delivers s buffer len out
    → Returned (SendReport s buffer len) (after_bind (λ _. pure (pos len)) os out)
report os s buffer len (done x, t) (k, moved, e) = (k, moved, inl (refl, e))
report os s buffer len (stop x, t) (k, moved, e) = (k, moved, inr (ap done e.0, e.1))
report os s buffer len (hung, t) (k, moved, e) = absurd e

-- If the buffer has `len` bytes at least, the socket takes no more than it is offered, from call
-- number `b` on takes some of a non-empty offer or fails, and the loop has fuel for the rounds up to
-- that call and one round for each byte, then `send` ends. Either it returns
-- `len` and the socket has taken exactly the first `len` bytes of the buffer, in order, after all
-- that it took before; or it returns -1 and the socket has taken fewer than `len` of them.
pub send-SendReport :
    (os : Os Call Reply) (b fuel : ℕ) (buffer : List ℕ) (len : ℕ)
    (s : Machine Call Reply TcpConnection)
    → TakesAtMost os
    → Advances b os
    → len ≤ length buffer
    → (b - s.clock) + len ≤ fuel
    → SendReport s buffer len (send fuel buffer len os s)
unfolding send
send-SendReport os b fuel buffer len s few adv more h =
    function_lem (SendReport s buffer len)
      (do send_loop fuel s.mem.peer_sock buffer len; pure (pos len)) os s
      (report os s buffer len (send_loop fuel s.mem.peer_sock buffer len os s)
        (send_loop-Delivers os b few adv fuel s.mem.peer_sock buffer len s more h))
