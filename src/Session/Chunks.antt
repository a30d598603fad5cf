-- ===== src/Session/Chunks.antt =====
-- `_handleRead` and `_parseCommands` beside the lines that a buffer is made of.
use mathlib.Core.Option
use mathlib.Core.List.{append_assoc, append-nil}
use myteams.Prelude.{
  ℕ, ◌+◌, List, [], ◌∷◌, ◌++◌, ◌==◌, ◌≡◌, refl, ap, sym, ◌∙◌, Option, none, some, false, Text, All,
  inl, inr, Option-cases,
}
use myteams.State.{Env, Client, Server, find_client, on_client}
use myteams.Loop.{
  handle_line, parse_lines, parse_commands, handle_read, bytes, append_to_read_buffer,
  set_read_buffer,
}
use myteams.Accounting.Supply.{find_client-update_client}

-- A text with no newline.
abbrev pub IsLine : Text → Type 0
IsLine line = All (λ c. (c == b'\n') ≡ false) line

-- Lines, each with its newline, and an unfinished line.
unfoldable pub joined : List Text → Text → Text
joined [] rest = rest
joined (line ∷ lines) rest = line ++ b'\n' ∷ joined lines rest

-- One line after the other, each with the answers of its place.
unfoldable pub handle_lines : (ℕ → Env) → ℕ → List Text → ℕ → Server → Option Server
handle_lines envs n [] fd s = some s
handle_lines envs n (line ∷ lines) fd s = elim (handle_line (envs n) line fd s) [
  | none ↦ none
  | some s' ↦ handle_lines envs (n + 1) lines fd s'
]

module _ (envs : ℕ → Env) (fd : ℕ) where
  parse_lines-line :
      (line acc later : Text) (n : ℕ) (s : Server)
      → IsLine line
      → parse_lines envs n acc (line ++ later) fd s ≡ parse_lines envs n (acc ++ line) later fd s
  unfolding parse_lines
  parse_lines-line [] acc later n s h =
      ap (λ a. parse_lines envs n a later fd s) (sym (append-nil acc))
  parse_lines-line (c ∷ line) acc later n s (h, hs) =
      rw (h, parse_lines)
        (parse_lines-line line (acc ++ c ∷ []) later n s hs
          ∙ ap (λ a. parse_lines envs n a later fd s) (append_assoc acc (c ∷ []) line))

  parse_lines-joined :
      (lines : List Text) (rest : Text) (n : ℕ) (s : Server)
      → All IsLine lines
      → IsLine rest
      → parse_lines envs n [] (joined lines rest) fd s
        ≡ Option.map (λ t. (t, rest)) (handle_lines envs n lines fd s)
  unfolding joined handle_lines parse_lines
  parse_lines-joined [] rest n s h k =
      ap (λ a. parse_lines envs n [] a fd s) (sym (append-nil rest))
      ∙ parse_lines-line rest [] [] n s k
  parse_lines-joined (line ∷ lines) rest n s (h, hs) k =
      parse_lines-line line [] (b'\n' ∷ joined lines rest) n s h
      ∙ (elim (Option-cases (handle_line (envs n) line fd s)) [
        | inl e ↦ rw (e, parse_lines, handle_lines) refl
        | inr (s', e) ↦
            rw (e, parse_lines, handle_lines) (parse_lines-joined lines rest (n + 1) s' hs k)
      ])

  parse_commands-joined :
      (s : Server) (c : Client) (lines : List Text) (rest : Text)
      → find_client fd s.clients ≡ some c
      → c.read_buffer ≡ joined lines rest
      → All IsLine lines
      → IsLine rest
      → parse_commands envs fd s
        ≡ Option.map (on_client fd (set_read_buffer rest)) (handle_lines envs 0 lines fd s)
  parse_commands-joined s c lines rest found split h k =
      let parsed =
        ap (λ a. parse_lines envs 0 [] a fd s) split ∙ parse_lines-joined lines rest 0 s h k in
      elim (Option-cases (handle_lines envs 0 lines fd s)) [
        | inl e ↦ unfold parse_commands in rw (found, parsed, e, parse_commands) refl
        | inr (t, e) ↦ unfold parse_commands in rw (found, parsed, e, parse_commands) refl
      ]

  -- Where the buffer of a client and the bytes that a read brings are together some lines, each with
  -- its newline, and an unfinished line, the read handles those lines one after the other, each whole
  -- and once, and leaves the unfinished line in the buffer. It has no result if one of the lines has
  -- none.
  pub handle_read-joined :
      (chunk : Text) (s : Server) (c : Client) (lines : List Text) (rest : Text)
      → find_client fd s.clients ≡ some c
      → c.read_buffer ++ chunk ≡ joined lines rest
      → All IsLine lines
      → IsLine rest
      → handle_read envs (bytes chunk) fd s
        ≡ Option.map
            (on_client fd (set_read_buffer rest))
            (handle_lines envs 0 lines fd (on_client fd (append_to_read_buffer chunk) s))
  unfolding handle_read on_client
  handle_read-joined chunk s c lines rest found =
      parse_commands-joined (on_client fd (append_to_read_buffer chunk) s)
        (append_to_read_buffer chunk c) lines rest
        (find_client-update_client fd (append_to_read_buffer chunk) s.clients c found)
