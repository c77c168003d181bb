-- ===== src/Examples/Wire.antt =====
-- Requests and replies on the wire.
use redis_like_data_storage.Prelude.{
  ◌≡◌, refl, none, some, List, [], ◌∷◌, ◌++◌, map, arith, length, ok, raise, protocol_error, drop,
}
use redis_like_data_storage.Prelude.Int.{negsuc}
use redis_like_data_storage.Protocol.Bytes.{Bytes, find_crlf, find_byte}
use redis_like_data_storage.Protocol.Codec.{
  Str, to_bytes, to_str, encode_char, decode, decode_char, decode_two, decode_three, decode_four,
  to_bytes-to_str,
}
use redis_like_data_storage.Protocol.Decimal.{
  show_ℕ, show_ℤ, digits, read_int, read_signed, read_digits, skip_spaces,
}
use redis_like_data_storage.Protocol.Encoding
use redis_like_data_storage.Protocol.Encoding.{
  Arg, encode_command, all_bytes, Failure, Reply, Replies, nil, simple, array, failure, no_replies,
  reply, encode_reply, encode_replies, encode_error, one_line,
}
use redis_like_data_storage.Protocol.Requests.{
  RequestParser, create, feed, next_command, start, begin, bulks, bulk_at, bulk_body, parse_int,
  header_at, inline_at, wait_for_line, split_words, rstrip_cr, compact,
}
use redis_like_data_storage.Protocol.Requests.Stream.{
  stream_of, answer_of, read, read_start, read_count, read_bulks,
}
use redis_like_data_storage.Protocol.Requests.RoundTrip.{between, next_command-encode_command}
use redis_like_data_storage.Protocol.Requests.Pieces.{continue, continue-feed}
use redis_like_data_storage.Protocol.Requests.Stream.{answer-next_command}
use redis_like_data_storage.Protocol.Requests.Oversized.{next_command-oversized}
use redis_like_data_storage.Protocol.Replies.{
  ReplyParser, next_reply, parse_reply, parse_kind, parse_bulk, parse_array, parse_items, from_resp,
  partition, is_upper, trim,
}
use redis_like_data_storage.Protocol.Replies.Fuel.{parse_reply-fuel}
use redis_like_data_storage.Protocol.Replies.RoundTrip.{
  got, got_all, IsSendable, AllSendable, next_reply-encode_reply,
}
use redis_like_data_storage.Replication.Commands
use redis_like_data_storage.Replication.Commands.RoundTrip.{next_command-encoded}
use redis_like_data_storage.Protocol.Requests.RoundTrip.{received}

wire_runs : Unit {0}
unfolding find_crlf find_byte to_bytes to_str encode_char decode decode_char decode_two decode_three
    decode_four show_ℕ show_ℤ digits read_int read_signed read_digits skip_spaces Encoding.bulk
    encode_command encode_reply encode_replies encode_error one_line next_command start begin bulks
    bulk_at bulk_body parse_int header_at inline_at wait_for_line split_words rstrip_cr compact
    next_reply parse_reply parse_kind parse_bulk parse_array parse_items from_resp partition
    is_upper trim read read_start read_count read_bulks continue got got_all IsSendable AllSendable
wire_runs = tt

-- `é` (U+E9), and a byte that is not UTF-8.
abbrev mixed : Bytes
mixed = 195 ∷ 169 ∷ 255 ∷ []

mixed_decodes : to_str mixed ≡ 233 ∷ 56575 ∷ []
unfolding wire_runs
mixed_decodes = refl

to_bytes-to_str_example : to_bytes (to_str mixed) ≡ mixed
to_bytes-to_str_example = to_bytes-to_str mixed (ground arith)

-- `GET k`
abbrev get_k : List Str
get_k = (71 ∷ 69 ∷ 84 ∷ []) ∷ (107 ∷ []) ∷ []

abbrev get_args : List Arg
get_args = map Arg.text get_k

get_sent :
    encode_command get_args
    ≡ 42 ∷ 50 ∷ 13 ∷ 10 ∷ 36 ∷ 51 ∷ 13 ∷ 10 ∷ 71 ∷ 69 ∷ 84 ∷ 13 ∷ 10 ∷ 36 ∷ 49 ∷ 13 ∷ 10 ∷ 107 ∷ 13
      ∷ 10 ∷ []
unfolding wire_runs
get_sent = refl

abbrev behind : Bytes
behind = 80 ∷ []

abbrev given : RequestParser
given = feed (encode_command get_args ++ behind) (create 10)

next_command-encode_command_example :
    answer_of (next_command given) ≡ ok (some get_k, between behind)
unfolding to_bytes encode_char
next_command-encode_command_example =
    next_command-encode_command given get_k behind refl refl refl (omega arith) (omega arith)
      (ground arith) (ground arith)

-- An inline command, `PING`, and a parser that has a part of it.
abbrev ping : Bytes
ping = 80 ∷ 73 ∷ 78 ∷ 71 ∷ []

inline_runs :
    answer_of (next_command (feed (ping ++ 13 ∷ 10 ∷ []) (create 10)))
    ≡ ok (some (ping ∷ []), between [])
unfolding wire_runs
inline_runs = refl

answer-next_command_example : answer_of (next_command given) ≡ read 10 (stream_of given)
answer-next_command_example = answer-next_command given

abbrev part : RequestParser
part = feed (42 ∷ 50 ∷ 13 ∷ 10 ∷ 36 ∷ 51 ∷ 13 ∷ 10 ∷ 71 ∷ 69 ∷ 84 ∷ 13 ∷ 10 ∷ 36 ∷ []) (create 10)

abbrev rest_of_it : Bytes
rest_of_it = 49 ∷ 13 ∷ 10 ∷ 107 ∷ 13 ∷ 10 ∷ []

-- After the first string.
abbrev waiting : RequestParser
waiting = record part { pos = 13; pending = some ((71 ∷ 69 ∷ 84 ∷ []) ∷ []); remaining = 1 }

part_waits : next_command part ≡ ok (none, waiting)
unfolding wire_runs
part_waits = refl

continue-feed_example :
    answer_of (continue rest_of_it (none, waiting))
    ≡ answer_of (next_command (feed rest_of_it part))
continue-feed_example = continue-feed part rest_of_it (none, waiting) (omega arith) part_waits

abbrev large : Bytes
large = 97 ∷ 98 ∷ 99 ∷ []

abbrev narrow : RequestParser
narrow = feed (encode_command (Arg.raw large ∷ []) ++ []) (create 2)

next_command-oversized_example : next_command narrow ≡ raise protocol_error
next_command-oversized_example =
    next_command-oversized narrow (Arg.raw large ∷ []) [] large [] [] refl refl (omega arith) tt
      (omega arith)

-- `ERR no`
abbrev refusal : Failure
refusal = record { prefix = 69 ∷ 82 ∷ 82 ∷ []; message = 110 ∷ 111 ∷ [] }

abbrev answers : Reply
answers = array (
    reply (Reply.int (negsuc 4))
      (reply nil (reply (failure refusal) (reply (Reply.raw large) no_replies))))

abbrev own : Str → Str
own prefix = prefix

abbrev client : ReplyParser
client = record { buf = encode_reply answers ++ behind; pos = 0 }

next_reply-encode_reply_example :
    (q : ReplyParser) × (next_reply own client ≡ ok (some (got answers), q))
    × (drop q.pos q.buf ≡ behind)
unfolding IsSendable AllSendable is_upper
next_reply-encode_reply_example =
    next_reply-encode_reply own client answers behind (ground arith) refl

parse_reply-fuel_example :
    parse_reply own 9 (43 ∷ 79 ∷ 13 ∷ 10 ∷ []) ≡ parse_reply own 5 (43 ∷ 79 ∷ 13 ∷ 10 ∷ [])
parse_reply-fuel_example =
    parse_reply-fuel own 9 5 (43 ∷ 79 ∷ 13 ∷ 10 ∷ []) (omega arith) (omega arith)

next_command-encoded_example :
    Commands.next_command (encode_command get_args ++ behind)
    ≡ ok (some (received (all_bytes get_args), length (encode_command get_args)))
next_command-encoded_example = next_command-encoded get_args behind
