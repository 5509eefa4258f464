-- ===== src/Nvme/Setup.antt =====
-- init_device_config: what it leaves open, and what its result says.
use nvmeof_project.Prelude.{
  ℕ, suc, ◌≡◌, ◌≢◌, ◌⊎◌, true, false, List, [], ◌∷◌, ℤ, pos, nonzero, arith,
}
use nvmeof_project.Outside.{Machine, Exit, Os, done, stop}
use nvmeof_project.Nvme.{
  Call, Reply, DeviceConfig, open_device, rdonly, get_nsid, get_logical_block_size, identify_ns,
  close_fd, written, init_device_config,
}

abbrev pub opens : List (Call × Reply) → List ℤ
opens [] = []
opens ((open_device dev flags, r) ∷ t) = r.ret ∷ opens t
opens (_ ∷ t) = opens t

abbrev pub closes : List (Call × Reply) → List ℤ
closes [] = []
closes ((close_fd fd, _) ∷ t) = fd ∷ closes t
closes (_ ∷ t) = closes t

-- The value that a function returns, by its last statement or early.
abbrev pub Yields : {A : Type 0} → Exit A A × Machine Call Reply DeviceConfig → A → Type 0
Yields (r, t) v = (r ≡ done v) ⊎ (r ≡ stop v)

module _ (literal : ℕ) (os : Os Call Reply) (s : Machine Call Reply DeviceConfig) where
  abbrev pub device : ℤ
  device = (os s.clock (open_device s.mem.name rdonly)).ret

  abbrev pub id_reply : Reply
  id_reply = os (suc s.clock) (get_nsid device)

  abbrev pub size_reply : Reply
  size_reply =
      os (suc (suc s.clock)) (get_logical_block_size device (written id_reply s.mem.namespace_id))

  abbrev pub ns_reply : Reply
  ns_reply = os (suc (suc (suc s.clock))) (identify_ns device (written id_reply s.mem.namespace_id))

  -- Unless the name points at the literal itself, the device is opened once and closed once on every
  -- path, and the result is 0 whether or not a query failed; the number of blocks is set only when
  -- all three queries succeed.
  pub init_device_config_cases :
      s.mem.name.address ≢ literal
      → let (r, t) = init_device_config literal os s in
        Yields (r, t) (pos 0)
        × (opens t.trace ≡ device ∷ opens s.trace)
        × (closes t.trace ≡ device ∷ closes s.trace)
        × (((nonzero id_reply.ret ≡ false)
              × (nonzero size_reply.ret ≡ false)
              × (nonzero ns_reply.ret ≡ false)
              × (t.mem.namespace_id ≡ written id_reply s.mem.namespace_id)
              × (t.mem.logical_block_size ≡ written size_reply s.mem.logical_block_size)
              × (t.mem.number_of_logical_blocks ≡ written ns_reply s.mem.number_of_logical_blocks))
            ⊎ (((nonzero id_reply.ret ≡ true)
                  ⊎ (nonzero size_reply.ret ≡ true)
                  ⊎ (nonzero ns_reply.ret ≡ true))
                × (t.mem.number_of_logical_blocks ≡ s.mem.number_of_logical_blocks)))
  unfolding init_device_config
  init_device_config_cases h = ground arith
