-- ===== src/Block/Server.antt =====
-- The constructors of GRPCSyncServer and GRPCAsyncServer in src/net.h, on top of init_device_config,
-- and the first command of a server that was made so.
use nvmeof_project.Prelude.{
  ℕ, ◌*◌, ◌%◌, ◌≤◌, ◌<◌, ◌≡◌, ◌≢◌, refl, sym, ◌∙◌, ◌⊎◌, inl, inr, true, false, if◌then◌else◌, none,
  [], ◌∷◌, length, ℤ, pos, is_neg, nonzero,
}
use nvmeof_project.Outside.{
  Machine, Exit, Os, Prog, done, stop, hung, boot, ◌>>=◌, ◌>>◌, call, pure, return_now, modify,
  function,
}
use nvmeof_project.Nvme.{
  CString, DeviceConfig, IoArgs, Call, Reply, open_device, rdonly, rdwr_direct, get_nsid,
  get_logical_block_size, identify_ns, nvme_write, written, init_device_config,
}
use mathlib.Core.Path.{subst}
use nvmeof_project.Outside.Laws.{Ensures, Ensures-mono, bind_Ensures, function-Ensures}
use nvmeof_project.Nvme.Setup.{opens, closes, Yields, init_device_config_cases}
use nvmeof_project.Block.{BlockRequest, Process, sync_write, command_args, write_block}
use nvmeof_project.Block.Handlers.{commands, write_block_fits}

-- The result is `blk_fd`, the state `config`.
pub open_server : {E : Type 0} → ℕ → CString → Prog Call Reply DeviceConfig E ℤ
open_server literal device = function (do
  fd ← call (open_device device rdwr_direct)
  if is_neg fd.ret then return_now fd.ret else pure tt
  modify (λ config. record config { name = device })
  function (init_device_config literal)
  pure fd.ret)

-- A process whose one server was just made.
abbrev pub new_process : ℤ → DeviceConfig → Process
new_process fd device = record {
  server = record {
    blk_fd = fd;
    config = device;
    time_on_allocation = pos 0;
    time_on_rw = pos 0;
    time_total = pos 0;
  };
  sync_read_args = none;
  sync_write_args = none;
  async_read_args = none;
}

module _ (literal : ℕ) (name : CString) (os : Os Call Reply) (c : DeviceConfig) where
  -- The descriptor of the server, and the one of init_device_config.
  abbrev pub blk_fd : ℤ
  blk_fd = (os 0 (open_device name rdwr_direct)).ret

  abbrev pub query_fd : ℤ
  query_fd = (os 1 (open_device name rdonly)).ret

  abbrev pub id_reply : Reply
  id_reply = os 2 (get_nsid query_fd)

  abbrev pub size_reply : Reply
  size_reply = os 3 (get_logical_block_size query_fd (written id_reply c.namespace_id))

  abbrev pub ns_reply : Reply
  ns_reply = os 4 (identify_ns query_fd (written id_reply c.namespace_id))

  -- What the constructor leaves when every call succeeds.
  abbrev pub Configured : Machine Call Reply DeviceConfig → Type 0
  Configured t =
      (opens t.trace ≡ query_fd ∷ blk_fd ∷ [])
      × (closes t.trace ≡ query_fd ∷ [])
      × (t.mem.namespace_id ≡ written id_reply c.namespace_id)
      × (t.mem.logical_block_size ≡ written size_reply c.logical_block_size)

  -- The machine at which init_device_config is called.
  abbrev named : Machine Call Reply DeviceConfig
  named = record {
    clock = 1;
    trace = (open_device name rdwr_direct, os 0 (open_device name rdwr_direct)) ∷ [];
    mem = record c { name = name };
  }

  Yields-Ensures :
      (out : Exit ℤ ℤ × Machine Call Reply DeviceConfig)
      → Yields out (pos 0)
      → Configured out.1
      → Ensures (λ _ t. Configured t) (λ _ t. Configured t) (λ t. ⊥) out
  Yields-Ensures (done a, t) y h = h
  Yields-Ensures (stop a, t) y h = h
  Yields-Ensures (hung, t) (inl y) h = cc
  Yields-Ensures (hung, t) (inr y) h = cc

  init-Configured :
      name.address ≢ literal
      → nonzero id_reply.ret ≡ false
      → nonzero size_reply.ret ≡ false
      → nonzero ns_reply.ret ≡ false
      → Ensures
          (λ _ t. Configured t)
          (λ _ t. Configured t)
          (λ t. ⊥)
          (init_device_config literal os named)
  init-Configured other id_good size_good ns_good =
      let all = init_device_config_cases literal os named other in
      Yields-Ensures (init_device_config literal os named) all.0
        (elim all.3 [ inl q ↦ (all.1, all.2, q.3, q.4) | inr q ↦ absurd (failed q.0) ])
    where
      failed :
          ((nonzero id_reply.ret ≡ true)
            ⊎ (nonzero size_reply.ret ≡ true)
            ⊎ (nonzero ns_reply.ret ≡ true))
          → ⊥
      failed (inl e) = let q : false ≡ true = sym id_good ∙ e in cc
      failed (inr (inl e)) = let q : false ≡ true = sym size_good ∙ e in cc
      failed (inr (inr e)) = let q : false ≡ true = sym ns_good ∙ e in cc

  open_server-Configured :
      name.address ≢ literal
      → is_neg blk_fd ≡ false
      → nonzero id_reply.ret ≡ false
      → nonzero size_reply.ret ≡ false
      → nonzero ns_reply.ret ≡ false
      → Ensures {E = Unit {0}}
          (λ fd t. (fd ≡ blk_fd) × Configured t)
          (λ e t. ⊥)
          (λ t. ⊥)
          (open_server literal name os (boot c))
  unfolding open_server
  open_server-Configured other good id_good size_good ns_good =
      function-Ensures os (λ fd t. (fd ≡ blk_fd) × Configured t) (λ e t. ⊥) (λ t. ⊥)
        (do
          fd ← call (open_device name rdwr_direct)
          if is_neg fd.ret then return_now fd.ret else pure tt
          modify (λ config. record config { name = name })
          function (init_device_config literal)
          pure fd.ret)
        (boot c)
        (rw good (
          bind_Ensures os (λ _ t. Configured t) (λ fd t. (fd ≡ blk_fd) × Configured t)
            (λ fd t. (fd ≡ blk_fd) × Configured t) (λ t. ⊥) (function (init_device_config literal))
            (λ _. pure blk_fd) named
            (function-Ensures os (λ _ t. Configured t) (λ fd t. (fd ≡ blk_fd) × Configured t)
              (λ t. ⊥) (init_device_config literal) named
              (init-Configured other id_good size_good ns_good))
            (λ _ t q. (refl, q))))

  -- The first WriteBlock of the new server, with `n` bytes of data.
  abbrev pub FirstWrite :
      ℕ → ℕ → BlockRequest → Os Call Reply → ℤ → Machine Call Reply DeviceConfig → Type 0
  FirstWrite m n request os' fd t =
      let p = new_process fd t.mem in
      (args : IoArgs) × (commands (write_block m request os' (boot p)).1.trace
        ≡ nvme_write args request.bytes ∷ [])
      × (args.fd ≡ blk_fd)
      × (args.nsid ≡ written id_reply c.namespace_id)
      × (n ≤ args.data_len)
      × (args.data_len % written size_reply c.logical_block_size ≡ 0)

  -- A server is made on a device that can be opened and whose three queries succeed, and the name is
  -- not the literal's pointer. Then its first WriteBlock, of the `n` bytes that the request names and
  -- that `m` blocks hold, sends one write of all of them to the server's own descriptor, in the
  -- namespace that the device has reported, with a length that is a whole number of the blocks that
  -- it has reported and at least `n`.
  pub open_server-write_block :
      (m n : ℕ) (request : BlockRequest) (os' : Os Call Reply)
      → name.address ≢ literal
      → is_neg blk_fd ≡ false
      → nonzero id_reply.ret ≡ false
      → nonzero size_reply.ret ≡ false
      → nonzero ns_reply.ret ≡ false
      → 0 < written size_reply c.logical_block_size
      → 0 < n
      → n ≤ m * written size_reply c.logical_block_size
      → request.size ≡ pos n
      → length request.bytes ≡ n
      → Ensures {E = Unit {0}}
          (FirstWrite m n request os')
          (λ e t. ⊥)
          (λ t. ⊥)
          (open_server literal name os (boot c))
  open_server-write_block m n request os' other good id_good size_good ns_good has_size some_data
        fits size len =
      Ensures-mono (λ fd t. (fd ≡ blk_fd) × Configured t) (FirstWrite m n request os') (λ e t. ⊥)
        (λ e t. ⊥) (λ t. ⊥) (λ t. ⊥) (open_server literal name os (boot c)) first (λ e t q. q)
        (λ t q. q) (open_server-Configured other good id_good size_good ns_good)
    where
      first :
          (fd : ℤ) (t : Machine Call Reply DeviceConfig)
          → (fd ≡ blk_fd) × Configured t
          → FirstWrite m n request os' fd t
      first fd t (same, h) =
          let p = new_process fd t.mem in
          let lbs : t.mem.logical_block_size ≡ written size_reply c.logical_block_size = h.3 in
          let w =
            write_block_fits m n request os' (boot p) (subst (λ k. 0 < k) (sym lbs) has_size)
              some_data (subst (λ k. n ≤ m * k) (sym lbs) fits) size len in
          (
            command_args m sync_write request p,
            w.1,
            same,
            h.2,
            w.2,
            subst (λ k. (command_args m sync_write request p).data_len % k ≡ 0) lbs w.4,
          )
