-- ===== src/Frame/Commands.antt =====
-- Each command but `login` and `logout` is made of such writes.
use myteams.Prelude.{◌≢◌, refl, ℕ, Text, sym, arith, subst}
use myteams.Models.{User, add_subscriber}
use myteams.State.{Env, Client, Server}
use myteams.Commands.Answers.{unauthorized, bad_request, not_found, forbidden}
use myteams.Commands.Context.{
  use_context, validate_and_set_team, validate_and_set_channel, validate_and_set_thread,
}
use myteams.Commands.Subscriptions.{subscribe, unsubscribe}
use myteams.Commands.Messages.{send, deliver, private_message}
use myteams.Commands.Create.Emit.{
  emit_team_created, emit_channel_created, emit_thread_created, emit_reply_created,
}
use myteams.Commands.Create.{create, execute_team, execute_channel, execute_thread, execute_reply}
use myteams.Commands.Handling.{
  Command, execute, login_cmd, logout_cmd, create_cmd, list_cmd, info_cmd, subscribed_cmd,
  messages_cmd, user_cmd, users_cmd, use_cmd, subscribe_cmd, unsubscribe_cmd, send_cmd,
}
use myteams.Answering.Queries.{
  infos, lists, subscriptions, message_lists, one_user, all_users, query-IsAnswer,
}
use myteams.Answering.Sending.{IsAnswer}
use myteams.Frame.Writes.{
  Frame, subscribes, unsubscribes, delivers, founds_team, opens_channel, starts_thread, replies,
  sends-P, logs-P, broadcast-P, send_to_user-P, notify_subscribers-P,
}

module _ {P : Server → Type 0} (frame : Frame P) where
  answer-P : (fd : ℕ) (s s' : Server) → IsAnswer fd s s' → P s → P s'
  answer-P fd s s' a p = subst P (sym a.sent) (frame.sends a.msg fd s p)

  subscribe-P : (fd : ℕ) (c : Client) (s : Server) → P s → P (subscribe fd c s)
  unfolding subscribe unauthorized bad_request not_found
  subscribe-P fd c s p =
      grind
        (arith, sends-P frame, logs-P frame, notify_subscribers-P frame, frame.changes, subscribes)

  unsubscribe-P : (fd : ℕ) (c : Client) (s : Server) → P s → P (unsubscribe fd c s)
  unfolding unsubscribe unauthorized bad_request not_found forbidden
  unsubscribe-P fd c s p =
      grind (
        arith,
        sends-P frame,
        logs-P frame,
        notify_subscribers-P frame,
        frame.changes,
        unsubscribes,
      )

  deliver-P :
      (env : Env) (fd : ℕ) (sender receiver : User) (body : Text) (s : Server)
      → P s
      → P (deliver env fd sender receiver body s)
  unfolding deliver
  deliver-P env fd sender receiver body s p =
      let m = private_message env sender.uuid receiver.uuid body in
      let first = frame.changes s _ (delivers sender.uuid receiver.uuid m) p in
      let second = frame.changes _ _ (delivers receiver.uuid sender.uuid m) first in
      sends-P frame _ fd _ (send_to_user-P frame _ _ _ (logs-P frame _ _ second))

  send-P : (env : Env) (fd : ℕ) (c : Client) (s : Server) → P s → P (send env fd c s)
  send-P env fd c s p =
      unfold send unauthorized bad_request not_found in grind (arith, sends-P frame, deliver-P)

  use_context-P : (fd : ℕ) (c : Client) (s : Server) → P s → P (use_context fd c s)
  unfolding use_context unauthorized bad_request not_found forbidden validate_and_set_team
      validate_and_set_channel validate_and_set_thread
  use_context-P fd c s p = grind (arith, sends-P frame, frame.sets_context)

  execute_team-P :
      (env : Env) (fd : ℕ) (c : Client) (s : Server) → P s → P (execute_team env fd c s)
  unfolding execute_team emit_team_created add_subscriber
  execute_team-P env fd c s p =
      grind (arith, sends-P frame, logs-P frame, broadcast-P frame, frame.changes, founds_team)

  execute_channel-P :
      (env : Env) (fd : ℕ) (c : Client) (s : Server) → P s → P (execute_channel env fd c s)
  unfolding execute_channel emit_channel_created
  execute_channel-P env fd c s p =
      grind (
        arith,
        sends-P frame,
        logs-P frame,
        notify_subscribers-P frame,
        frame.changes,
        opens_channel,
      )

  execute_thread-P :
      (env : Env) (fd : ℕ) (c : Client) (s : Server) → P s → P (execute_thread env fd c s)
  unfolding execute_thread emit_thread_created
  execute_thread-P env fd c s p =
      grind (
        arith,
        sends-P frame,
        logs-P frame,
        notify_subscribers-P frame,
        frame.changes,
        starts_thread,
      )

  execute_reply-P :
      (env : Env) (fd : ℕ) (c : Client) (s : Server) → P s → P (execute_reply env fd c s)
  unfolding execute_reply emit_reply_created
  execute_reply-P env fd c s p =
      grind (arith, sends-P frame, logs-P frame, notify_subscribers-P frame, frame.changes, replies)

  create-P : (env : Env) (fd : ℕ) (c : Client) (s : Server) → P s → P (create env fd c s)
  create-P env fd c s p =
      unfold create in
      grind
        (arith, sends-P frame, execute_team-P, execute_channel-P, execute_thread-P, execute_reply-P)

  -- A property that all the writes keep is kept by every command but `login` and `logout`.
  pub execute-P :
      (cmd : Command) (env : Env) (fd : ℕ) (c : Client) (s : Server)
      → cmd ≢ login_cmd
      → cmd ≢ logout_cmd
      → P s
      → P (execute cmd env fd c s)
  unfolding execute
  execute-P create_cmd env fd c s _ _ p = create-P env fd c s p
  execute-P use_cmd env fd c s _ _ p = use_context-P fd c s p
  execute-P subscribe_cmd env fd c s _ _ p = subscribe-P fd c s p
  execute-P unsubscribe_cmd env fd c s _ _ p = unsubscribe-P fd c s p
  execute-P send_cmd env fd c s _ _ p = send-P env fd c s p
  execute-P login_cmd env fd c s h _ p = absurd (h refl)
  execute-P logout_cmd env fd c s _ h p = absurd (h refl)
  execute-P list_cmd env fd c s _ _ p = answer-P fd s _ (query-IsAnswer list_cmd env fd c s lists) p
  execute-P info_cmd env fd c s _ _ p = answer-P fd s _ (query-IsAnswer info_cmd env fd c s infos) p
  execute-P subscribed_cmd env fd c s _ _ p =
      answer-P fd s _ (query-IsAnswer subscribed_cmd env fd c s subscriptions) p
  execute-P messages_cmd env fd c s _ _ p =
      answer-P fd s _ (query-IsAnswer messages_cmd env fd c s message_lists) p
  execute-P user_cmd env fd c s _ _ p =
      answer-P fd s _ (query-IsAnswer user_cmd env fd c s one_user) p
  execute-P users_cmd env fd c s _ _ p =
      answer-P fd s _ (query-IsAnswer users_cmd env fd c s all_users) p
