-- ===== src/Client/Frames.antt =====
-- The frames of `handleServerReadable` in client/ClientApplication.cpp.
use myteams.Prelude.{ℕ, [], ◌∷◌, ◌++◌, Text, length, ltb, ◌==◌, if◌then◌else◌}
use myteams.Loop.{strip_return, ReadResult, would_block, end_of_file, bytes}
use myteams.Client.Calls.{Router}
use myteams.Client.Router.{route_frame}

abbrev pub max_server_frame_size : ℕ
max_server_frame_size = 65536

-- `kept` holds the bytes behind the last frame, `stopped` is a return of false, and `exceeded` the
-- `ClientError` of a frame that is too long.
pub data Routed : Type 0 where
  kept : Router → Text → Routed
  stopped exceeded : Router → Routed

-- The loop over the buffer, behind `line`, the bytes of a frame whose end was not yet found.
unfoldable pub route_frames : Text → Text → Router → Routed
route_frames line [] r = kept r line
route_frames line (c ∷ s) r =
    let r' = route_frame (strip_return line) r in
    let next = route_frames [] s r' in
    let longer = route_frames (line ++ c ∷ []) s r in
    if c == 10
    then (if ltb max_server_frame_size (length line)
        then exceeded r
        else if r'.should_disconnect
        then stopped r'
        else next)
    else longer

-- `if (_serverReadBuffer.size() > MAX_SERVER_FRAME_SIZE) throw`
abbrev pub bounded : Routed → Routed
bounded (kept r rest) = if ltb max_server_frame_size (length rest) then exceeded r else kept r rest
bounded (stopped r) = stopped r
bounded (exceeded r) = exceeded r

-- `handleServerReadable`, with the buffer
unfoldable pub handle_server_readable : ReadResult → Text → Router → Routed
handle_server_readable would_block buffer r = kept r buffer
handle_server_readable end_of_file buffer r = stopped r
handle_server_readable (bytes chunk) buffer r = bounded (route_frames [] (buffer ++ chunk) r)
