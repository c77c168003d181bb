-- ===== src/Examples/Files.antt =====
-- Records of the append-only file, their replay, the writer, and the files of a data directory.
use redis_like_data_storage.Prelude.{
  ℕ, suc, ◌%◌, ◌<◌, ◌≡◌, refl, Option, none, some, List, [], ◌∷◌, ◌++◌, map, true, false, arith,
  length, length-replicate, replicate, take, drop, ok, raise, protocol_error, aof_corrupted, ◌==◌,
}
use redis_like_data_storage.Prelude.Int.{pos}
use redis_like_data_storage.Protocol.Bytes.{Bytes, find_byte}
use redis_like_data_storage.Protocol.Codec.{to_bytes, encode_char}
use redis_like_data_storage.Protocol.Decimal.{
  show_ℕ, digits, read_int, read_signed, read_digits, skip_spaces,
}
use redis_like_data_storage.Protocol.Encoding
use redis_like_data_storage.Protocol.Encoding.{Arg, encode_command}
use redis_like_data_storage.Protocol.Requests.{Command, split_words, default_max_bulk}
use redis_like_data_storage.Persistence.Records.{
  Formats, encode_record, frame_record, decode_record, show_hex, v3_header, v3_words, read_hex,
  read_hex_word, read_hex_digits,
}
use redis_like_data_storage.Persistence.Records.RoundTrip.{
  IsCrc, decode_record-encode_record, decode_record-oversized,
}
use redis_like_data_storage.Persistence.Replay.{replay_aof}
use redis_like_data_storage.Persistence.Replay.Records.{log}
use redis_like_data_storage.Persistence.Replay.Crash.{replay_aof-torn, replay_aof-overlong}
use redis_like_data_storage.Persistence.Writer.{
  AofWriter, always, everysec, open_writer, append, spill, commit, after_flush, fsync,
  thread_starts, thread_ends,
}
use redis_like_data_storage.Persistence.Writer.Durable.{
  Event, appended, spilled, committed, happen, happens, payloads, commit-durable,
  thread_ends-overlap,
}
use redis_like_data_storage.Persistence.Manager
use redis_like_data_storage.Persistence.Manager.{
  append as append_command, Name, aof_file, snapshot_file, RewriteJob, Directory, Persistence,
  at_rest, cut, create_directory, load, recover, any_torn, hand_records, perform, perform_all,
  delete_ops, logged, begin_rewrite, switch_aof, finish_copy, hand_over, write_snapshot, write_job,
  close_previous, poll, finish_ops, finish_job, commit_rewrite,
}
use redis_like_data_storage.Persistence.Manager.Found.{Found, shortened}

files_run : Unit {0}
unfolding default_max_bulk find_byte to_bytes encode_char show_ℕ digits read_int read_signed
    read_digits skip_spaces Encoding.bulk encode_command split_words encode_record frame_record
    show_hex v3_header v3_words read_hex read_hex_word read_hex_digits append append_command spill
    commit after_flush fsync thread_starts thread_ends happen happens payloads load recover any_torn
    hand_records perform perform_all delete_ops Manager.commit Manager.fsync cut logged
    begin_rewrite switch_aof finish_copy hand_over write_snapshot write_job close_previous poll
    finish_ops finish_job commit_rewrite
files_run = tt

abbrev crc : Bytes → ℕ
crc bytes = length bytes % 4294967296

crc-IsCrc : IsCrc crc
crc-IsCrc bytes = omega arith

abbrev formats : Formats
formats = record { crc32 = crc; decode_v1 = λ line. none; decode_v2 = λ line. none }

-- `INCR a`
abbrev incr : Command
incr = (73 ∷ 78 ∷ 67 ∷ 82 ∷ []) ∷ (97 ∷ []) ∷ []

abbrev incr_args : List Arg
incr_args = map Arg.text incr

-- `#0000001b 27`, and the command.
incr_record :
    take 13 (encode_record crc incr_args)
    ≡ 35 ∷ 48 ∷ 48 ∷ 48 ∷ 48 ∷ 48 ∷ 48 ∷ 49 ∷ 53 ∷ 32 ∷ 50 ∷ 49 ∷ 10 ∷ []
unfolding files_run
incr_record = refl

decode_record-encode_record_example : decode_record formats (encode_record crc incr_args) ≡ ok incr
unfolding to_bytes encode_char default_max_bulk
decode_record-encode_record_example =
    decode_record-encode_record formats incr crc-IsCrc (ground arith)

abbrev letter : ℕ
letter = 97

-- One byte more than the parser of records takes.
abbrev huge : Bytes
huge = replicate (suc default_max_bulk) letter

decode_record-oversized_example :
    decode_record formats (encode_record crc (Arg.raw huge ∷ [])) ≡ raise protocol_error
decode_record-oversized_example =
    decode_record-oversized formats (Arg.raw huge ∷ []) [] huge [] crc-IsCrc refl (omega arith) tt
      (omega (arith, length-replicate (suc default_max_bulk) letter))

-- A counter of the commands.
abbrev counting : ℕ → Command → Option ℕ
counting n c = some (suc n)

abbrev torn : Bytes
torn = take 15 (encode_record crc incr_args)

replay_aof-torn_example :
    replay_aof formats counting true (log crc (incr ∷ []) ++ torn) 0
    ≡ ok (1, record { records = 1; truncated_bytes = length torn }, log crc (incr ∷ []))
unfolding files_run
replay_aof-torn_example =
    replay_aof-torn formats counting crc-IsCrc (incr ∷ []) incr_args torn 0 1 (ground arith) refl
      (drop 15 (encode_record crc incr_args), λ e. absurd (ground arith), refl)

-- A header that asks for 80 bytes, before a whole record.
abbrev damaged : Bytes
damaged = 35 ∷ 49 ∷ 53 ∷ 32 ∷ 56 ∷ 48 ∷ []

abbrev others : Bytes
others = encode_record crc incr_args

replay_aof-overlong_example :
    replay_aof formats counting true (log crc (incr ∷ []) ++ (damaged ++ 10 ∷ others)) 0
    ≡ ok (
      1,
      record { records = 1; truncated_bytes = length (damaged ++ 10 ∷ others) },
      log crc (incr ∷ []),
    )
unfolding files_run
replay_aof-overlong_example =
    replay_aof-overlong formats counting crc-IsCrc (incr ∷ []) damaged others (pos 21) 80 0 1
      (ground arith) refl (ground arith) refl refl (omega arith)

abbrev ab : Bytes
ab = 97 ∷ 98 ∷ []

abbrev writes : List Event
writes = appended ab ∷ spilled 3 ∷ appended ab ∷ committed ∷ appended ab ∷ []

commit-durable_example :
    let w = (commit true true (happen crc writes (open_writer always ab))).0 in
    (w.handed ≡ ab ++ payloads crc writes)
    × (w.buffered ≡ [])
    × (always ≡ always → take w.synced w.handed ≡ ab ++ payloads crc writes)
commit-durable_example = commit-durable crc always ab writes

-- A commit was handed over, and the thread is about to flush it.
abbrev due : AofWriter
due = record (open_writer everysec ab) { synced = 0; unsynced = true }

thread_ends-overlap_example :
    let later = thread_ends true (commit true true (append crc ab (thread_starts due))).0 in
    (later.unsynced ≡ false)
    × (later.dirty ≡ false)
    × (later.background_error ≡ none)
    × (later.synced < length later.handed)
thread_ends-overlap_example = thread_ends-overlap crc ab due (ground arith) refl refl

abbrev count : ℕ → Command → ℕ
count n c = suc n

abbrev opened : Persistence ℕ
opened = record (at_rest (create_directory none) 0) { directory = cut (create_directory none) }

-- A command, and a rewrite with a command meanwhile whose record stays in the buffer.
abbrev switched : Persistence ℕ
switched = switch_aof (Manager.commit true (append_command count incr opened))

abbrev copied_ : Persistence ℕ
copied_ = finish_copy (append_command count incr switched)

abbrev written_ : Persistence ℕ
written_ = close_previous true (write_snapshot true copied_)

-- What the directory lists at the end.
abbrev listing : List Name
listing = aof_file 1 ∷ snapshot_file 2 ∷ aof_file 2 ∷ []

abbrev job_ : RewriteJob ℕ
job_ = record { snapshot = 2; records = 1; result = some true }

written_holds :
    (written_.keyspace ≡ 2)
    × (written_.job ≡ some job_)
    × (written_.directory.manifest ≡ record { snapshot = none; older = 1 ∷ []; last = 2 })
    × (written_.directory.aofs 1 ≡ incr ∷ [])
    × (written_.directory.synced 1 ≡ 1)
unfolding files_run
written_holds = (refl, refl, refl, refl, refl)

polled_holds :
    ((poll listing written_).directory.manifest
      ≡ record { snapshot = some 2; older = []; last = 2 })
    × ((poll listing written_).directory.aofs 1 ≡ [])
    × ((poll listing written_).directory.snapshots 2 ≡ some 1)
unfolding files_run
polled_holds = (refl, refl, refl)

-- A power failure leaves a part of the record that was in the buffer: it is cut off.
shortened_holds : recover count 0 (shortened 0 true written_.directory) ≡ ok 1
unfolding files_run
shortened_holds = refl

-- With such a part at the end of the AOF before the last there is no start.
corrupted_holds :
    recover count 0 (record written_.directory { torn = λ g. g == 1 }) ≡ raise aof_corrupted
unfolding files_run
corrupted_holds = refl

-- The manifest is saved, and the process is killed before a file is deleted.
abbrev left_over : Directory ℕ
left_over = perform_all (take 1 (finish_ops listing 2 written_)) written_.directory
