-- ===== src/Gateway.antt =====
-- src/tcp_server.cpp: how the bytes of a client become lines (the second loop of handle_client_read).
pub mod Framing
pub mod Execute
pub mod Answers
pub mod Responds
pub mod Server
pub mod Sockets
pub mod Connections
pub mod Pipeline
pub mod Poll
pub mod System
pub mod Replies
use mathlib.Core.Option
use lloms.Base.{
  ℕ, zero, suc, ◌+◌, Option, none, some, List, [], ◌∷◌, ◌++◌, ◌==◌, if◌then◌else◌, length,
}
use lloms.Base.Text.{Text}

-- `find('\n')`: what stands before the first newline, and what after it.
unfoldable pub find_newline : Text → Option (Text × Text)
find_newline [] = none
find_newline (c ∷ s) =
    let rest = find_newline s in
    if c == 10 then some ([], s) else elim rest [ none ↦ none | some (l, r) ↦ some (c ∷ l, r) ]

-- `if (!line.empty() && line.back() == '\r') line.remove_suffix(1)`
unfoldable pub strip_cr : Text → Text
strip_cr [] = []
strip_cr (c ∷ []) = if c == 13 then [] else c ∷ []
strip_cr (c ∷ d ∷ s) = c ∷ strip_cr (d ∷ s)

-- The loop, on fuel: the lines that process_client_line is given, and what stays in `read_buffer`. Each
-- round takes a newline, so the length of the buffer is enough.
unfoldable pub take_lines : ℕ → Text → List Text × Text
unfolding find_newline
take_lines zero buffer = ([], buffer)
take_lines (suc fuel) buffer = elim (find_newline buffer) [
  | none ↦ ([], buffer)
  | some (line, rest) ↦ let (lines, left) = take_lines fuel rest in (strip_cr line ∷ lines, left)
]

-- `read_buffer.append(…)`, and then the loop.
unfoldable pub take_input : Text → Text → List Text × Text
unfolding take_lines
take_input read_buffer bytes_read =
    take_lines (length (read_buffer ++ bytes_read)) (read_buffer ++ bytes_read)

-- How the reads of one call end: with EAGAIN, or with the end of the stream or an error.
pub data ReadEnd : Type 0 where
  would_block disconnected : ReadEnd

-- The whole call, for the bytes that it reads; `none` when it closes the connection, without a look at
-- what it has read.
unfoldable pub handle_client_read : Text → Text → ReadEnd → Option (List Text × Text)
unfolding take_input
handle_client_read read_buffer bytes_read would_block = some (take_input read_buffer bytes_read)
handle_client_read read_buffer bytes_read disconnected = none

-- Calls that end with EAGAIN, with the bytes that each of them reads.
unfoldable pub reads : Text → List Text → Option (List Text × Text)
unfolding handle_client_read
reads read_buffer [] = some ([], read_buffer)
reads read_buffer (bytes_read ∷ more) =
    elim (handle_client_read read_buffer bytes_read would_block) [
      | none ↦ none
      | some (lines, left) ↦ Option.map (λ r. (lines ++ r.0, r.1)) (reads left more)
    ]
