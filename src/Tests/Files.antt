-- ===== src/Tests/Files.antt =====
-- The file server of src/file_target.cc, with buffers of four bytes and a stream of one request.
use nvmeof_project.Prelude.{ℕ, zero, suc, refl, true, false, [], ◌∷◌, pos, arith}
use nvmeof_project.Outside.{Os, boot}
use nvmeof_project.FileTarget.{
  FileRequest, FileServer, Call, Reply, read_stream, open_file, write, append_one_large_file,
  append_many_small_files,
}
use nvmeof_project.FileTarget.Many.{EndsBy, ManyReport, append_many_small_files-ManyReport}
use nvmeof_project.FileTarget.Large.{
  LargeReport, first_of, descriptor, append_one_large_file-LargeReport,
}

abbrev file_server : FileServer
file_server = record {
  buffer_size = 4;
  queue_depth = pos 8;
  poll_threshold = pos 1;
  blk_size = pos 512;
  request_count = pos 2;
  file_count = pos 1;
  time_on_allocation = pos 0;
  time_on_rw = pos 0;
  time_total = pos 0;
  time_on_open = pos 0;
}

abbrev file_request : FileRequest
file_request = record { filename = 102 ∷ []; contents = 1 ∷ 2 ∷ 3 ∷ 4 ∷ 5 ∷ [] }

abbrev file_reply : ℕ → Reply
file_reply n = record { ret = pos n; more = false; request = file_request }

-- The first call finds a request on the stream; a descriptor is the number of a call.
abbrev file_system : Os Call Reply
file_system zero read_stream = record (file_reply 0) { more = true }
file_system n (open_file name trunc) = file_reply n
file_system n (write fd bytes) = file_reply 4
file_system n _ = file_reply 0

file_system-EndsBy : EndsBy 1 file_system
file_system-EndsBy zero h = absurd (omega arith)
file_system-EndsBy (suc n) h = refl

-- As above, but the stream has its request at the second call.
abbrev late_stream : Os Call Reply
late_stream (suc zero) read_stream = record (file_reply 0) { more = true }
late_stream n (open_file name trunc) = file_reply n
late_stream n (write fd bytes) = file_reply 4
late_stream n _ = file_reply 0

late_stream-EndsBy : EndsBy 2 late_stream
late_stream-EndsBy zero h = absurd (omega arith)
late_stream-EndsBy (suc zero) h = absurd (omega arith)
late_stream-EndsBy (suc (suc n)) h = refl

append_many_small_files-ManyReport_example :
    ManyReport 4 (append_many_small_files 5 late_stream (boot file_server))
append_many_small_files-ManyReport_example =
    append_many_small_files-ManyReport 2 5 late_stream file_server late_stream-EndsBy (omega arith)
      (omega arith)

append_one_large_file-LargeReport_example :
    let first = first_of file_request file_system in
    LargeReport 4
      (descriptor file_system first)
      first.filename
      (append_one_large_file 5 file_request file_system (boot file_server))
append_one_large_file-LargeReport_example =
    append_one_large_file-LargeReport 1 5 file_system file_request file_server file_system-EndsBy
      refl (omega arith) (omega arith)
