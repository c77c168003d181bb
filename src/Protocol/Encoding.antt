-- ===== src/Protocol/Encoding.antt =====
-- protocol/resp.py: what is sent, requests (`encode_command`) and replies (`encode_reply`). A float is
-- given by the text that `format_float` has for it.
use redis_like_data_storage.Prelude.{
  List, [], ◌∷◌, ◌++◌, ℕ, suc, length, map, ◌==◌, ◌||◌, if◌then◌else◌,
}
use redis_like_data_storage.Prelude.Int.{ℤ}
use redis_like_data_storage.Protocol.Bytes.{Bytes, crlf}
use redis_like_data_storage.Protocol.Codec.{Str, to_bytes}
use redis_like_data_storage.Protocol.Decimal.{show_ℕ, show_ℤ}

-- `b"$%d\r\n%s\r\n" % (len(data), data)`
unfoldable pub bulk : Bytes → Bytes
bulk content = 36 ∷ (show_ℕ (length content) ++ 13 ∷ 10 ∷ (content ++ crlf))

-- What a client passes to `encode_command`; an int is sent as its decimal text.
pub data Arg : Type 0 where
  raw : Bytes → Arg
  text : Str → Arg
  int : ℤ → Arg
  float : Str → Arg

abbrev pub arg_bytes : Arg → Bytes
arg_bytes (raw bytes) = bytes
arg_bytes (text s) = to_bytes s
arg_bytes (int i) = to_bytes (show_ℤ i)
arg_bytes (float shown) = to_bytes shown

abbrev pub bulks : List Bytes → Bytes
bulks [] = []
bulks (x ∷ xs) = bulk x ++ bulks xs

abbrev pub all_bytes : List Arg → List Bytes
all_bytes [] = []
all_bytes (arg ∷ args) = arg_bytes arg ∷ all_bytes args

unfoldable pub encode_command : List Arg → Bytes
encode_command args = 42 ∷ (show_ℕ (length args) ++ 13 ∷ 10 ∷ bulks (all_bytes args))

-- core/exceptions.py, `KVStoreError`, as far as it goes over the wire.
pub record Failure : Type 0 where
  pub prefix : Str
  pub message : Str

-- `to_resp`
abbrev pub to_resp : Failure → Str
to_resp e = e.prefix ++ 32 ∷ e.message

-- `line.replace("\r", " ").replace("\n", " ")`
unfoldable pub one_line : Str → Str
one_line line = map (λ c. if c == 13 || c == 10 then 32 else c) line

unfoldable pub encode_error : Failure → Bytes
unfolding one_line
encode_error e = 45 ∷ (to_bytes (one_line (to_resp e)) ++ crlf)

-- The values that a command returns.
mutual
  pub data Reply : Type 0 where
    nil : Reply
    simple : Str → Reply
    text : Str → Reply
    int : ℤ → Reply
    array : Replies → Reply
    float : Str → Reply
    raw : Bytes → Reply
    failure : Failure → Reply

  pub data Replies : Type 0 where
    no_replies : Replies
    reply : Reply → Replies → Replies

abbrev pub count : Replies → ℕ
count no_replies = 0
count (reply r rs) = suc (count rs)

-- `_encode`
unfoldable mutual
  unfolding encode_error bulk

  pub encode_reply : Reply → Bytes
  encode_reply nil = 36 ∷ 45 ∷ 49 ∷ crlf
  encode_reply (simple s) = 43 ∷ (to_bytes s ++ crlf)
  encode_reply (text s) = bulk (to_bytes s)
  encode_reply (int i) = 58 ∷ (show_ℤ i ++ crlf)
  encode_reply (array rs) = 42 ∷ (show_ℕ (count rs) ++ 13 ∷ 10 ∷ encode_replies rs)
  encode_reply (float shown) = bulk (to_bytes shown)
  encode_reply (raw bytes) = bulk bytes
  encode_reply (failure e) = encode_error e

  pub encode_replies : Replies → Bytes
  encode_replies no_replies = []
  encode_replies (reply r rs) = encode_reply r ++ encode_replies rs
