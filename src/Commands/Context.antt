-- ===== src/Commands/Context.antt =====
-- server/commands/use
use myteams.Prelude.{
  ℕ, [], Bool, true, false, text, empty, not, length, get_or, ltb, none, some, if◌then◌else◌,
}
use myteams.Models.{is_user_subscribed}
use myteams.Database.{find_team, find_channel, find_thread}
use myteams.State.{Client, Context, new_context, Server, send_to_client, set_context}
use myteams.Commands.Answers.{bad_request, unauthorized, forbidden, not_found}

-- What each step of the validation returns: its verdict, the context so far and the server.
abbrev pub Validation : Type 0
Validation = Bool × Context × Server

unfoldable pub validate_and_set_team : ℕ → Client → Context → Server → Validation
validate_and_set_team fd c ctx s =
    if ltb (length c.args) 2
    then (true, new_context, send_to_client (text "200 OK\r\n") fd s)
    else let team_uuid = get_or c.args 1 [] in
      elim (find_team s.db team_uuid) [
        | none ↦ (false, ctx, not_found (text "TEAM") team_uuid fd s)
        | some team ↦
            if not (is_user_subscribed c.user_uuid team) then (false, ctx, forbidden fd s) else (
              true,
              record { team_uuid = team_uuid; channel_uuid = []; thread_uuid = [] },
              send_to_client (text "200 OK\r\n") fd s,
            )
      ]

unfoldable pub validate_and_set_channel : ℕ → Client → Context → Server → Validation
validate_and_set_channel fd c ctx s =
    if ltb (length c.args) 3
    then (true, ctx, s)
    else let channel_uuid = get_or c.args 2 [] in
      elim (find_channel s.db ctx.team_uuid channel_uuid) [
        | none ↦ (false, ctx, not_found (text "CHANNEL") channel_uuid fd s)
        | some _ ↦ (
          true,
          record ctx { channel_uuid = channel_uuid; thread_uuid = [] },
          send_to_client (text "200 OK\r\n") fd s,
        )
      ]

unfoldable pub validate_and_set_thread : ℕ → Client → Context → Server → Validation
validate_and_set_thread fd c ctx s =
    if ltb (length c.args) 4
    then (true, ctx, s)
    else let thread_uuid = get_or c.args 3 [] in
      elim (find_thread s.db ctx.channel_uuid thread_uuid) [
        | none ↦ (false, ctx, not_found (text "THREAD") thread_uuid fd s)
        | some _ ↦ (
          true,
          record ctx { thread_uuid = thread_uuid },
          send_to_client (text "200 OK\r\n") fd s,
        )
      ]

-- `if (!validate(...)) return;` in front of a step
unfoldable pub and_then : Validation → (Context → Server → Validation) → Validation
and_then (false, ctx, s) step = (false, ctx, s)
and_then (true, ctx, s) step = step ctx s

-- The context is stored only behind the last step.
unfoldable pub commit_context : ℕ → Validation → Server
commit_context fd (false, ctx, s) = s
commit_context fd (true, ctx, s) = set_context ctx fd s

unfoldable pub use_context : ℕ → Client → Server → Server
unfolding and_then commit_context
use_context fd c s =
    if empty c.user_uuid
    then unauthorized fd s
    else if ltb 4 (length c.args)
    then bad_request fd s
    else let team = validate_and_set_team fd c new_context s in
      let channel = and_then team (validate_and_set_channel fd c) in
      let thread = and_then channel (validate_and_set_thread fd c) in commit_context fd thread
