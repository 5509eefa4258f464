-- ===== src/FileRw/Trace.antt =====
-- What the calls of src/file_rw_nvmeof.cc did, the last first.
use nvmeof_project.Prelude.{ℕ, zero, suc, ◌-◌, if◌then◌else◌, List, [], ◌∷◌, ℤ, is_neg}
use nvmeof_project.Outside.{Machine}
use nvmeof_project.Names.{small_file}
use nvmeof_project.FileRw.{
  Call, Reply, open_file, write, close, start_thread, join_thread, prep_write, prep_pwrite,
  io_submit,
}

abbrev pub TestMachine : Type 0
TestMachine = Machine Call Reply (Unit {0})

-- The calls on files.
abbrev pub file_calls : List (Call × Reply) → List Call
file_calls [] = []
file_calls ((open_file name flags, r) ∷ t) = open_file name flags ∷ file_calls t
file_calls ((write fd bytes, r) ∷ t) = write fd bytes ∷ file_calls t
file_calls ((close fd, r) ∷ t) = close fd ∷ file_calls t
file_calls (_ ∷ t) = file_calls t

-- The names that were opened, and the descriptors.
abbrev pub names : List (Call × Reply) → List (List ℕ)
names [] = []
names ((open_file name flags, r) ∷ t) = name ∷ names t
names (_ ∷ t) = names t

abbrev pub opens : List (Call × Reply) → List ℤ
opens [] = []
opens ((open_file name flags, r) ∷ t) = if is_neg r.ret then opens t else r.ret ∷ opens t
opens (_ ∷ t) = opens t

abbrev pub closes : List (Call × Reply) → List ℤ
closes [] = []
closes ((close fd, r) ∷ t) = fd ∷ closes t
closes (_ ∷ t) = closes t

-- The descriptors written to, and the bytes that `write` was given.
abbrev pub targets : List (Call × Reply) → List ℤ
targets [] = []
targets ((write fd bytes, r) ∷ t) = fd ∷ targets t
targets (_ ∷ t) = targets t

abbrev pub contents : List (Call × Reply) → List (List ℕ)
contents [] = []
contents ((write fd bytes, r) ∷ t) = bytes ∷ contents t
contents (_ ∷ t) = contents t

-- The number of writes that have failed.
abbrev pub failed_writes : List (Call × Reply) → ℕ
failed_writes [] = 0
failed_writes ((write fd bytes, r) ∷ t) =
    if is_neg r.ret then suc (failed_writes t) else failed_writes t
failed_writes (_ ∷ t) = failed_writes t

-- The offsets of the writes that were prepared for a ring.
abbrev pub offsets : List (Call × Reply) → List ℕ
offsets [] = []
offsets ((prep_write fixed fd bytes offset, r) ∷ t) = offset ∷ offsets t
offsets (_ ∷ t) = offsets t

-- The descriptors of those writes.
abbrev pub ring_targets : List (Call × Reply) → List ℤ
ring_targets [] = []
ring_targets ((prep_write fixed fd bytes offset, r) ∷ t) = fd ∷ ring_targets t
ring_targets (_ ∷ t) = ring_targets t

-- The threads that were started and not joined.
abbrev pub joinable : List (Call × Reply) → ℕ
joinable [] = 0
joinable ((start_thread, r) ∷ t) = suc (joinable t)
joinable ((join_thread, r) ∷ t) = joinable t - 1
joinable (_ ∷ t) = joinable t

-- The sizes of the batches that were submitted to libaio, and the requests that were prepared.
abbrev pub batches : List (Call × Reply) → List ℕ
batches [] = []
batches ((io_submit n, r) ∷ t) = n ∷ batches t
batches (_ ∷ t) = batches t

abbrev pub prepared : List (Call × Reply) → ℕ
prepared [] = 0
prepared ((prep_pwrite slot fd bytes, r) ∷ t) = suc (prepared t)
prepared (_ ∷ t) = prepared t

-- The names of the first `k` small files.
abbrev pub small_files : ℕ → List (List ℕ)
small_files zero = []
small_files (suc k) = small_file k ∷ small_files k
