-- ===== src/Tcp/Setup.antt =====
-- TCPConnection::init: which sockets it opens and closes on each path, and what it returns.
use nvmeof_project.Prelude.{
  suc, ◌≡◌, ◌⊎◌, inl, inr, true, false, List, [], ◌∷◌, ℤ, pos, is_neg, nonzero, arith,
}
use nvmeof_project.Outside.{Machine, Exit, Os, done}
use nvmeof_project.Tcp.{
  Call, Reply, TcpConnection, initiator, target, socket, bind, listen, accept, connect, close, init,
}

-- The sockets that were closed, the last first.
abbrev pub closes : List (Call × Reply) → List ℤ
closes [] = []
closes ((close sock, _) ∷ t) = sock ∷ closes t
closes (_ ∷ t) = closes t

module _ (os : Os Call Reply) (s : Machine Call Reply TcpConnection) where
  -- The answers on the target's path, in the order of the calls.
  abbrev pub opened : ℤ
  opened = (os s.clock socket).ret

  abbrev pub bound : ℤ
  bound = (os (suc s.clock) (bind opened s.mem.port)).ret

  abbrev pub listening : ℤ
  listening = (os (suc (suc s.clock)) (listen opened 5)).ret

  abbrev pub accepted : ℤ
  accepted = (os (suc (suc (suc s.clock))) (accept opened)).ret

  abbrev pub connected : ℤ
  connected = (os (suc s.clock) (connect opened s.mem.address s.mem.port)).ret

  abbrev pub TargetEnds : Exit (Unit {0}) ℤ × Machine Call Reply TcpConnection → Type 0
  TargetEnds (r, t) =
      ((nonzero bound ≡ false)
        × (nonzero listening ≡ false)
        × (is_neg accepted ≡ false)
        × (r ≡ done (pos 0))
        × (t.mem.peer_sock ≡ accepted)
        × (closes t.trace ≡ opened ∷ closes s.trace))
      ⊎ ((nonzero bound ≡ true)
          × (r ≡ done (os (suc (suc s.clock)) (close s.mem.peer_sock)).ret)
          × (closes t.trace ≡ s.mem.peer_sock ∷ closes s.trace))
      ⊎ ((nonzero bound ≡ false)
          × (nonzero listening ≡ true)
          × (r ≡ done (os (suc (suc (suc s.clock))) (close s.mem.peer_sock)).ret)
          × (closes t.trace ≡ s.mem.peer_sock ∷ closes s.trace))
      ⊎ ((is_neg accepted ≡ true)
          × (r ≡ done (os (suc (suc (suc (suc s.clock)))) (close accepted)).ret)
          × (closes t.trace ≡ accepted ∷ closes s.trace))

  abbrev pub InitiatorEnds : Exit (Unit {0}) ℤ × Machine Call Reply TcpConnection → Type 0
  InitiatorEnds (r, t) =
      (t.mem.peer_sock ≡ opened)
      × (((is_neg connected ≡ false) × (r ≡ done (pos 0)) × (closes t.trace ≡ closes s.trace))
          ⊎ ((is_neg connected ≡ true)
              × (r ≡ done (os (suc (suc s.clock)) (close opened)).ret)
              × (closes t.trace ≡ opened ∷ closes s.trace)))

  init-TargetEnds : s.mem.role ≡ target → TargetEnds (init os s)
  unfolding init
  init-TargetEnds e = ground arith

  init-InitiatorEnds : s.mem.role ≡ initiator → InitiatorEnds (init os s)
  unfolding init
  init-InitiatorEnds e = ground arith

  -- A connection whose role is one of the two. The target returns 0, with the accepted peer, when it
  -- could bind, listen and accept; it has then closed the listening socket alone. When one of these
  -- fails it closes `peer_sock` alone, so the listening socket stays open, and returns what that
  -- `close` returns; if it was `bind` or `listen` that failed, `peer_sock` is the value from before
  -- the call. The initiator returns 0 when it connects. When it does not, it returns what `close` of
  -- its socket returns: 0, as for a connection that was made, whenever the socket could be closed.
  pub init_cases :
      (s.mem.role ≡ target) ⊎ (s.mem.role ≡ initiator)
      → ((s.mem.role ≡ target) × TargetEnds (init os s))
        ⊎ ((s.mem.role ≡ initiator) × InitiatorEnds (init os s))
  init_cases (inl e) = inl (e, init-TargetEnds e)
  init_cases (inr e) = inr (e, init-InitiatorEnds e)
