-- ===== src/Tests/Parsing.antt =====
-- Lines that the tokenisers read.
use myteams.Prelude.{◌⊎◌, none, List, arith, List, [], ◌∷◌, map, ◌≡◌, refl, some, Text, text}
use myteams.Models.{Thread}
use myteams.Protocol.Words.{words, is_space, starts_quoted}
use myteams.Protocol.Arguments.{parse_args}
use myteams.Protocol.TokenParser.{parse}
use myteams.Protocol.Quoting.{is_clean, is_plain, line_end}
use myteams.Protocol.Lines.{Part, word, field, is_sound, all_plain, render, content, parse-render}
use myteams.Protocol.Unclosed.{Unclosed, parse_args-parse}
use mathlib.Core.Option
use myteams.Loop.{handle_read, bytes, set_read_buffer, append_to_read_buffer}
use myteams.State.{Server, find_client, on_client}
use myteams.Session.Chunks.{handle_read-joined, handle_lines, joined}
use myteams.Tests.Samples.{guest, ann, server, envs}

abbrev parts : List Part
parts = word (b'o' ∷ b'k' ∷ []) ∷ field (b'a' ∷ 32 ∷ b'b' ∷ []) ∷ []

parse-render_example : parse (render (13 ∷ 10 ∷ []) parts) ≡ some (map content parts)
unfolding is_sound all_plain is_clean is_plain is_space
parse-render_example = parse-render (13 ∷ 10 ∷ []) parts line_end (refl, (refl, tt))

abbrev open_line : Text
open_line = text "/send \"a b"

parse_args-parse_example :
    (us : List Text) × (parse_args open_line ≡ some us)
    × ((parse open_line ≡ some us)
        ⊎ ((parse open_line ≡ none) × Unclosed none (words open_line) us))
unfolding words starts_quoted text
parse_args-parse_example = parse_args-parse open_line (refl, (refl, (refl, tt)))

abbrev motto : Text
motto = b'a' ∷ 32 ∷ b'b' ∷ []

abbrev topic : Thread
topic = record {
  uuid = b'x' ∷ [];
  user_uuid = ann.uuid;
  timestamp = 42;
  title = motto;
  body = motto;
  replies = [];
}

-- A connection with an unfinished line in its buffer.
abbrev talking : Server
talking = record server { clients = (7, record guest { read_buffer = text "/login A\n/li" }) ∷ [] }

handle_read-joined_example :
    handle_read envs (bytes (text "st\n/us")) 7 talking
    ≡ Option.map (on_client 7 (set_read_buffer (text "/us"))) (
        handle_lines envs 0
          (text "/login A" ∷ text "/list" ∷ [])
          7
          (on_client 7 (append_to_read_buffer (text "st\n/us")) talking))
unfolding find_client joined text
handle_read-joined_example =
    handle_read-joined envs 7 (text "st\n/us") talking
      (record guest { read_buffer = text "/login A\n/li" }) (text "/login A" ∷ text "/list" ∷ [])
      (text "/us") refl refl (ground arith) (ground arith)
