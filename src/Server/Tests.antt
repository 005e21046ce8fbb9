-- ===== src/Server/Tests.antt =====
-- Runs of the server definitions, and each result of the server modules at a concrete input. The
-- channel is instantiated by the list of all packets sent, and a receiver by its place in it.
use rusty_ice.Prelude.{
  ascii, some, ℕ, suc, ◌≤◌, ◌≡◌, ◌⊎◌, refl, sym, List, [], ◌∷◌, ◌++◌, length, drop, replicate,
  arith, drop-append_self, append_assoc, append-nil, ◌∙◌, ap,
}
use rusty_ice.Core.Types.{CodecId, encoded, StreamPacket}
use rusty_ice.Server.Bus.{
  Broadcast, send_all, publish, subscribe, new, evict, burst, walk, packet_bytes,
}
use rusty_ice.Server.Bus.History.{bytes_of}
use rusty_ice.Server.Bus.Contiguous.{publish_all, Delivers, subscribe-contiguous}
use rusty_ice.Server.Chunked
use rusty_ice.Server.Chunked.{
  Arrival, byte, not_yet, Answer, ChunkedDecoder, payload, find_crlf, poll_read,
}
use rusty_ice.Server.Chunked.Size.{
  parse_chunk_size, until_semicolon, trim, strip, leading, from_str_radix, hex_digits, hex_digit,
}
use rusty_ice.Server.Chunked.Body.{Body, chunk, last, encode, IsBody}
use rusty_ice.Server.Chunked.Total.{poll_read-some}
use rusty_ice.Server.Chunked.RoundTrip.{read_to_end, read_to_end-encode}

abbrev log : Broadcast
log = record {
  Sender = List StreamPacket;
  Receiver = ℕ;
  send = λ s p. s ++ (p ∷ []);
  subscribe = λ s. (length s, s);
  received = λ s r. drop r s;
}

send_all-log : (s ps : List StreamPacket) → send_all log s ps ≡ s ++ ps
send_all-log s [] = sym (append-nil s)
send_all-log s (p ∷ ps) = send_all-log (s ++ (p ∷ [])) ps ∙ append_assoc s (p ∷ []) ps

log-Delivers : Delivers log
log-Delivers s ps = ap (drop (length s)) (send_all-log s ps) ∙ drop-append_self s ps

abbrev packet : ℕ → StreamPacket
packet n = record {
  payload = encoded (record { codec = CodecId.mp3; bytes = replicate n 0 });
  pts = 0;
  sequence = n;
}

abbrev before : List StreamPacket
before = packet 4 ∷ packet 3 ∷ packet 2 ∷ []

-- With room for 6 bytes, the packets of 3 and 2 bytes stay and are replayed.
replayed : (subscribe log (publish_all log (new log [] 6) before)).0 ≡ packet 3 ∷ packet 2 ∷ []
unfolding subscribe publish new evict burst walk packet_bytes
replayed = refl

subscribe-contiguous_example :
    let bus = publish_all log (new log [] 6) before in
    let sub = subscribe log bus in
    (older : List StreamPacket) × (before ++ (packet 5 ∷ [])
      ≡ older ++ (sub.0 ++ drop sub.1 (publish_all log sub.2 (packet 5 ∷ [])).sender))
    × ((bytes_of sub.0 ≤ 6) ⊎ (length sub.0 ≡ 1))
subscribe-contiguous_example = subscribe-contiguous log [] 6 before (packet 5 ∷ []) log-Delivers

-- Two chunks, the first with an extension, a trailer line, and the start of another request.
abbrev hello : Body
hello =
    chunk (ascii "5;name=value") (ascii "Hello")
      (chunk (ascii "1") (ascii "!") (last (ascii "0") (ascii "Expires: 0" ∷ []) (ascii "GET")))

-- Every byte on its own, with a moment without data in front of it.
abbrev trickle : List ℕ → List Arrival
trickle [] = []
trickle (b ∷ bs) = not_yet ∷ byte b ∷ trickle bs

hello-IsBody : IsBody hello
unfolding find_crlf parse_chunk_size until_semicolon trim strip leading from_str_radix hex_digits
    hex_digit
hello-IsBody = (
  (refl, omega arith, refl),
  omega arith,
  (
    (refl, omega arith, refl),
    omega arith,
    ((refl, omega arith, refl), ((refl, omega arith, omega arith), tt)),
  ),
)

read_to_end-encode_example :
    read_to_end
      (suc (length (trickle (encode hello))))
      (λ _. 2)
      (Chunked.new (trickle (encode hello)))
    ≡ some (ascii "Hello!")
read_to_end-encode_example =
    read_to_end-encode hello (trickle (encode hello)) (λ _. 2) hello-IsBody tt refl
      (λ _. omega arith)

poll_read-some_example :
    (a : Answer) × (d' : ChunkedDecoder) × (poll_read 0
        (record { inner = []; state = payload 3; scratch = [] })
      ≡ some (a, d'))
poll_read-some_example = poll_read-some 0 (record { inner = []; state = payload 3; scratch = [] })
