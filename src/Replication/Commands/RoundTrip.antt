-- ===== src/Replication/Commands/RoundTrip.antt =====
-- What the primary puts on the stream (`encode_command` of protocol/resp.py), a replica reads
-- (`next_command` of replication/stream.py).
use redis_like_data_storage.Prelude.{
  ℕ, suc, ◌+◌, ◌-◌, ◌≡◌, refl, sym, ap, ◌∙◌, Option, some, List, [], ◌∷◌, ◌++◌, false, ltb, length,
  length-append, take, drop, arith, Result, ok,
}
use mathlib.Core.List.{append_assoc, append-nil}
use redis_like_data_storage.Prelude.Int.{pos, ltb_ℤ}
use redis_like_data_storage.Protocol.Bytes.{Bytes, crlf, take-length, drop-length}
use redis_like_data_storage.Protocol.Codec.{Str, to_str}
use redis_like_data_storage.Protocol.Decimal.{show_ℕ, read_int-show_ℕ}
use redis_like_data_storage.Protocol.Encoding
use redis_like_data_storage.Protocol.Encoding.{Arg, encode_command, all_bytes}
use redis_like_data_storage.Protocol.Requests.RoundTrip.{
  header, find_crlf-header, drop-header, bulk-split, length-bulk, received, encode_command-split,
  length-encode_command,
}
use redis_like_data_storage.Replication.Commands.{to_int, argument_at, arguments, next_command}

to_int-header :
    (n : ℕ) (rest : Bytes)
    → to_int (take (suc (length (show_ℕ n)) - 1) (show_ℕ n ++ 13 ∷ 10 ∷ rest)) ≡ ok (pos n)
unfolding to_int
to_int-header n rest =
    rw (take-length (show_ℕ n) (13 ∷ 10 ∷ rest) (suc (length (show_ℕ n)) - 1) (omega arith))
      (rw (read_int-show_ℕ n, to_int) refl)

not_negative : (n : ℕ) → ltb_ℤ (pos n) (pos 0) ≡ false
not_negative n = ground arith

argument_at-bulk :
    (content rest : Bytes)
    → argument_at (Encoding.bulk content ++ rest)
      ≡ ok (some (to_str content, length (Encoding.bulk content)))
unfolding argument_at
argument_at-bulk content rest =
    let n = length content in
    let tail = content ++ 13 ∷ 10 ∷ rest in
    let start = suc (length (show_ℕ n)) + 2 in
    let enough : ltb (length (header 36 n tail)) (start + n + 2) ≡ false =
      ground (
        arith,
        length-append (show_ℕ n) (13 ∷ 10 ∷ tail),
        length-append content (13 ∷ 10 ∷ rest),
      ) in
    ap argument_at (bulk-split content rest)
    ∙ rw (find_crlf-header 36 n tail (ground arith), argument_at)
        (rw (to_int-header n tail) (
          rw
            (
              not_negative n,
              enough,
              drop-header 36 n tail,
              take-length content (13 ∷ 10 ∷ rest) n refl,
            )
            refl))
    ∙ ap (λ size. ok (some (to_str content, size))) (sym (length-bulk content))

abbrev arrived : List Str → ℕ → Result (Option (List Str × ℕ))
arrived args cursor = ok (some (args, cursor))

found : {a b : List Str} {m n : ℕ} → a ≡ b → m ≡ n → arrived a m ≡ arrived b n
found e f = cc

arguments-bulks :
    (xs : List Bytes) (seen : List Str) (cursor : ℕ) (front rest : Bytes)
    → cursor ≡ length front
    → arguments (length xs) seen cursor (front ++ (Encoding.bulks xs ++ rest))
      ≡ ok (some (seen ++ received xs, cursor + length (Encoding.bulks xs)))
unfolding arguments
arguments-bulks [] seen cursor front rest e = found (sym (append-nil seen)) (omega arith)
arguments-bulks (x ∷ xs) seen cursor front rest e =
    let later = Encoding.bulks xs ++ rest in
    let size = length (Encoding.bulk x) in
    let here : drop cursor (front ++ (Encoding.bulk x ++ Encoding.bulks xs ++ rest))
        ≡ Encoding.bulk x ++ later =
      drop-length front (Encoding.bulk x ++ Encoding.bulks xs ++ rest) cursor (sym e)
      ∙ append_assoc (Encoding.bulk x) (Encoding.bulks xs) rest in
    let next =
      arguments-bulks xs (seen ++ to_str x ∷ []) (cursor + size) (front ++ Encoding.bulk x) rest
        (omega (arith, length-append front (Encoding.bulk x))) in
    rw here (
      rw (argument_at-bulk x later) (
        ap (arguments (length xs) (seen ++ to_str x ∷ []) (cursor + size)) (
          ap (◌++◌ front) (append_assoc (Encoding.bulk x) (Encoding.bulks xs) rest)
          ∙ sym (append_assoc front (Encoding.bulk x) later))
        ∙ next
        ∙ found (append_assoc seen (to_str x ∷ []) (received xs))
            (omega (arith, length-append (Encoding.bulk x) (Encoding.bulks xs)))))

-- From a command that the primary put on the stream, and any bytes behind it, a replica reads its
-- strings, and finds its end.
pub next_command-encoded :
    (args : List Arg) (rest : Bytes)
    → next_command (encode_command args ++ rest)
      ≡ ok (some (received (all_bytes args), length (encode_command args)))
unfolding next_command
next_command-encoded args rest =
    let xs = all_bytes args in
    let n = length xs in
    let body = Encoding.bulks xs ++ rest in
    let here = suc (length (show_ℕ n)) + 2 in
    let front = 42 ∷ (show_ℕ n ++ crlf) in
    ap next_command (encode_command-split args rest)
    ∙ rw (find_crlf-header 42 n body (ground arith), next_command)
        (rw (to_int-header n body) (
          ap (λ bytes. arguments n [] here (42 ∷ bytes)) (sym (append_assoc (show_ℕ n) crlf body))
          ∙ arguments-bulks xs [] here front rest (omega (arith, length-append (show_ℕ n) crlf))))
    ∙ ap (arrived (received xs)) (length-encode_command args)
