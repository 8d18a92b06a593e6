-- ===== src/Transport/Scp.antt =====
-- provision.go: the upload of a file by the protocol of scp, as the side that sends.
use psychic_funicular.Base.{ℕ, ◌||◌, String, Option, none, some, List, [], ◌∷◌, if◌then◌else◌, ◌==◌}
use psychic_funicular.Format.{concat, decimal}

-- Bytes of the stream that the remote side sends; behind the last one is its end.
abbrev pub Bytes : Type 0
Bytes = List ℕ

-- Why an answer is not the one hoped for: the stream has ended, the remote side refuses with a message,
-- or it sends another byte.
pub data Refusal : Type 0 where
  ended : Refusal
  remote : Bytes → Refusal
  unexpected : ℕ → Refusal

-- `readLine`: what stands in front of the line break, and behind it.
unfoldable pub read_line : Bytes → Bytes × Bytes
read_line [] = ([], [])
read_line (b ∷ r) = let rest = read_line r in if b == 10 then ([], r) else (b ∷ rest.0, rest.1)

unfoldable pub read_ack : Bytes → Option Refusal × Bytes
unfolding read_line
read_ack [] = (some ended, [])
read_ack (b ∷ r) =
    let (message, rest) = read_line r in
    if b == 0
    then (none, r)
    else if b == 1 || b == 2
    then (some (remote message), rest)
    else (some (unexpected b), r)

unfoldable pub scp_control : ℕ → String → String
scp_control size name = concat ("C0755 " ∷ decimal size ∷ " " ∷ name ∷ "\n" ∷ [])

-- The steps at which the transfer fails. A write fails with the text of its error.
pub data ScpError : Type 0 where
  await_ready await_control_ack await_data_ack : Refusal → ScpError
  send_control send_data send_end : String → ScpError

-- What is written to the remote side.
pub data Chunk : Type 0 where
  control : String → Chunk
  data_bytes : Bytes → Chunk

-- The errors that the three writes meet.
pub record Pipe : Type 0 where
  pub control_fault : Option String
  pub data_fault : Option String
  pub end_fault : Option String

-- The result of the transfer, and what was written before it.
abbrev pub Transfer : Type 0
Transfer = Option ScpError × List Chunk

abbrev pub after : Chunk → Transfer → Transfer
after c t = (t.0, c ∷ t.1)

unfoldable pub await_end : Option Refusal × Bytes → Transfer
await_end (some why, r) = (some (await_data_ack why), [])
await_end (none, r) = (none, [])

unfoldable pub send_content : Pipe → Bytes → Option Refusal × Bytes → Transfer
unfolding read_ack await_end
send_content pipe content (some why, r) = (some (await_control_ack why), [])
send_content pipe content (none, r) = elim pipe.data_fault [
  | some e ↦ (some (send_data e), [])
  | none ↦ after (data_bytes content) (elim pipe.end_fault [
    | some e ↦ (some (send_end e), [])
    | none ↦ after (data_bytes (0 ∷ [])) (await_end (read_ack r))
  ])
]

unfoldable pub send_header : Pipe → Bytes → ℕ → String → Option Refusal × Bytes → Transfer
unfolding read_ack send_content scp_control
send_header pipe content size name (some why, r) = (some (await_ready why), [])
send_header pipe content size name (none, r) = elim pipe.control_fault [
  | some e ↦ (some (send_control e), [])
  | none ↦ after (control (scp_control size name)) (send_content pipe content (read_ack r))
]

-- The answers of the remote side are given at once; `content` is what `io.Copy` reads of the file.
unfoldable pub write_scp : Pipe → Bytes → Bytes → ℕ → String → Transfer
unfolding read_ack send_header
write_scp pipe answers content size name = send_header pipe content size name (read_ack answers)
