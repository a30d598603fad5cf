-- ===== src/Session/Choosing.antt =====
-- `/use`: what the context of a connection may become.
use myteams.Prelude.{
  ℕ, [], ◌≡◌, ◌⊎◌, refl, sym, ap, inl, inr, some, Text, empty, true, false, length, get_or, ltb,
  Bool-cases, Option-cases, arith,
}
use myteams.Models.{Team, Channel, Thread, is_user_subscribed}
use myteams.Database.{Database, find_team, find_channel, find_thread}
use myteams.State.{Client, Context, new_context, Server, send_to_client, set_context, on_client}
use myteams.Commands.Answers.{bad_request, unauthorized, forbidden, not_found}
use myteams.Commands.Context.{
  use_context, validate_and_set_team, validate_and_set_channel, validate_and_set_thread, Validation,
  and_then, commit_context,
}
use myteams.Answering.Sending.{IsAnswer, send_to_client-IsAnswer, send_to_client-IsAnswer_after}

-- The contexts that `/use` may store for a user: nothing, a team that the user subscribes to, a
-- channel of it, or a thread of that channel.
pub data IsChoice (db : Database) (user : Text) : Context → Type 0 where
  no_team : IsChoice db user new_context
  in_team :
      (t : Text) (team : Team)
      → find_team db t ≡ some team
      → is_user_subscribed user team ≡ true
      → IsChoice db user (record { team_uuid = t; channel_uuid = []; thread_uuid = [] })
  in_channel :
      (ctx : Context) (c : Text) (channel : Channel)
      → IsChoice db user ctx
      → find_channel db ctx.team_uuid c ≡ some channel
      → IsChoice db user (record ctx { channel_uuid = c; thread_uuid = [] })
  in_thread :
      (ctx : Context) (t : Text) (thread : Thread)
      → IsChoice db user ctx
      → find_thread db ctx.channel_uuid t ≡ some thread
      → IsChoice db user (record ctx { thread_uuid = t })

-- A validation that only answered so far, and whose context is a choice where it goes on.
pub record IsSound (fd : ℕ) (user : Text) (s : Server) (v : Validation) : Type 0 where
  pub answered : IsAnswer fd s v.2
  pub chosen : v.0 ≡ true → IsChoice s.db user v.1

IsAnswer-db : {fd : ℕ} {s s' : Server} → IsAnswer fd s s' → s'.db ≡ s.db
unfolding send_to_client on_client
IsAnswer-db a = ap (λ t. t.db) a.sent

module _ (fd : ℕ) (c : Client) (s : Server) where
  team-IsSound : IsSound fd c.user_uuid s (validate_and_set_team fd c new_context s)
  unfolding validate_and_set_team not_found forbidden
  team-IsSound = grind (arith, send_to_client-IsAnswer, no_team, in_team)

  channel-IsSound :
      (v : Validation)
      → IsSound fd c.user_uuid s v
      → IsSound fd c.user_uuid s (and_then v (validate_and_set_channel fd c))
  unfolding and_then
  channel-IsSound (false, ctx, s1) h = h
  channel-IsSound (true, ctx, s1) h = elim (Bool-cases (ltb (length c.args) 3)) [
    | inl e ↦ unfold validate_and_set_channel in rw (e, validate_and_set_channel) h
    | inr e ↦ elim (Option-cases (find_channel s1.db ctx.team_uuid (get_or c.args 2 []))) [
      | inl f ↦
          unfold validate_and_set_channel not_found in
          rw (e, f, validate_and_set_channel)
            (record { answered = send_to_client-IsAnswer_after _ fd h.answered; chosen = λ z. cc })
      | inr (channel, f) ↦
          unfold validate_and_set_channel in
          rw (e, f, validate_and_set_channel)
            (record {
              answered = send_to_client-IsAnswer_after _ fd h.answered;
              chosen = λ z.
                  in_channel ctx _ channel (h.chosen refl) (rw (sym (IsAnswer-db h.answered)) f);
            })
    ]
  ]

  thread-IsSound :
      (v : Validation)
      → IsSound fd c.user_uuid s v
      → IsSound fd c.user_uuid s (and_then v (validate_and_set_thread fd c))
  unfolding and_then
  thread-IsSound (false, ctx, s1) h = h
  thread-IsSound (true, ctx, s1) h = elim (Bool-cases (ltb (length c.args) 4)) [
    | inl e ↦ unfold validate_and_set_thread in rw (e, validate_and_set_thread) h
    | inr e ↦ elim (Option-cases (find_thread s1.db ctx.channel_uuid (get_or c.args 3 []))) [
      | inl f ↦
          unfold validate_and_set_thread not_found in
          rw (e, f, validate_and_set_thread)
            (record { answered = send_to_client-IsAnswer_after _ fd h.answered; chosen = λ z. cc })
      | inr (thread, f) ↦
          unfold validate_and_set_thread in
          rw (e, f, validate_and_set_thread)
            (record {
              answered = send_to_client-IsAnswer_after _ fd h.answered;
              chosen =
                  λ z. in_thread ctx _ thread (h.chosen refl) (rw (sym (IsAnswer-db h.answered)) f);
            })
    ]
  ]

  committed_sound :
      (v : Validation)
      → IsSound fd c.user_uuid s v
      → IsAnswer fd s (commit_context fd v)
        ⊎ ((ctx : Context) × (s1 : Server) × IsChoice s.db c.user_uuid ctx
            × IsAnswer fd s s1
            × (commit_context fd v ≡ set_context ctx fd s1))
  unfolding commit_context
  committed_sound (false, ctx, s1) h = inl h.answered
  committed_sound (true, ctx, s1) h = inr (ctx, s1, h.chosen refl, h.answered, refl)

-- `/use` only answers, or it answers and stores a context that the database has: none, a team that
-- the user subscribes to, or a channel or a thread that the look-ups find below it.
pub use_context-IsChoice :
    (fd : ℕ) (c : Client) (s : Server)
    → IsAnswer fd s (use_context fd c s)
      ⊎ ((ctx : Context) × (s1 : Server) × IsChoice s.db c.user_uuid ctx
          × IsAnswer fd s s1
          × (use_context fd c s ≡ set_context ctx fd s1))
unfolding use_context unauthorized bad_request
use_context-IsChoice fd c s = elim (Bool-cases (empty c.user_uuid)) [
  | inl e ↦ rw e (inl (send_to_client-IsAnswer _ fd s))
  | inr e ↦ elim (Bool-cases (ltb 4 (length c.args))) [
    | inl f ↦ rw (e, f) (inl (send_to_client-IsAnswer _ fd s))
    | inr f ↦
        rw (e, f)
          (committed_sound fd c s _
            (thread-IsSound fd c s _ (channel-IsSound fd c s _ (team-IsSound fd c s))))
  ]
]
