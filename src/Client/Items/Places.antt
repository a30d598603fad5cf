-- ===== src/Client/Items/Places.antt =====
-- Teams, channels and threads as items.
use native.Mathlib.Decide.{ℕ_discrete}
use mathlib.Core.List.{append_assoc}
use myteams.Prelude.{◌<◌, List, [], ◌∷◌, map, ◌≡◌, refl, text, text_discrete}
use myteams.Models.{Team, Channel, Thread}
use myteams.Protocol.{to_string}
use myteams.Protocol.Lines.{Part, word, field, content, show, render, render_more}
use myteams.Commands.Answers.{team_line, channel_line, thread_line}
use myteams.Client.Integers.{pos, long_limit}
use myteams.Client.Calls.{
  Call, Router, call, print_teams, team_print_channels, channel_print_threads,
}
use myteams.Client.Router.{route_tokens}
use myteams.Client.Listed.{Item, Readable}
use myteams.Client.Items.Kinds.{kinds_are_sound, kinds_fit, with_number-to_string}

abbrev pub team_parts : Team → List Part
team_parts x = field x.uuid ∷ field x.name ∷ field x.description ∷ []

abbrev pub team_call : Team → Call
team_call x = print_teams x.uuid x.name x.description

abbrev pub TeamIsReadable : Team → Type 0
TeamIsReadable x = Readable (word (text "210") ∷ team_parts x)

pub team_written :
    (x : Team)
    → team_line (text "210 ") x ≡ render (13 ∷ 10 ∷ []) (word (text "210") ∷ team_parts x)
unfolding team_line render render_more show text
team_written x = simp append_assoc

pub team_read :
    (x : Team) (r : Router)
    → TeamIsReadable x
    → route_tokens
        (text "210" ∷ map content (team_parts x))
        (record r { list_context = text "TEAMS" })
      ≡ call (team_call x) (record r { list_context = text "TEAMS" })
unfolding route_tokens text text_discrete ℕ_discrete
team_read x r v = refl

abbrev pub team_item : Item Team TeamIsReadable
team_item = record {
  kind = text "TEAMS";
  line = team_line (text "210 ");
  parts = team_parts;
  made = team_call;
  written = team_written;
  read = team_read;
  readable = λ x v. v;
  kind_is_sound = kinds_are_sound.0;
  kind_fits = kinds_fit.0;
}

abbrev pub channel_parts : Channel → List Part
channel_parts x = field x.uuid ∷ field x.name ∷ field x.description ∷ []

abbrev pub channel_call : Channel → Call
channel_call x = team_print_channels x.uuid x.name x.description

abbrev pub ChannelIsReadable : Channel → Type 0
ChannelIsReadable x = Readable (word (text "210") ∷ channel_parts x)

pub channel_written :
    (x : Channel)
    → channel_line (text "210 ") x ≡ render (13 ∷ 10 ∷ []) (word (text "210") ∷ channel_parts x)
unfolding channel_line render render_more show text
channel_written x = simp append_assoc

pub channel_read :
    (x : Channel) (r : Router)
    → ChannelIsReadable x
    → route_tokens
        (text "210" ∷ map content (channel_parts x))
        (record r { list_context = text "CHANNELS" })
      ≡ call (channel_call x) (record r { list_context = text "CHANNELS" })
unfolding route_tokens text text_discrete ℕ_discrete
channel_read x r v = refl

abbrev pub channel_item : Item Channel ChannelIsReadable
channel_item = record {
  kind = text "CHANNELS";
  line = channel_line (text "210 ");
  parts = channel_parts;
  made = channel_call;
  written = channel_written;
  read = channel_read;
  readable = λ x v. v;
  kind_is_sound = kinds_are_sound.1;
  kind_fits = kinds_fit.1;
}

abbrev pub thread_parts : Thread → List Part
thread_parts x =
    field x.uuid
    ∷ field x.user_uuid
    ∷ word (to_string x.timestamp)
    ∷ field x.title
    ∷ field x.body
    ∷ []

abbrev pub thread_call : Thread → Call
thread_call x = channel_print_threads x.uuid x.user_uuid (pos x.timestamp) x.title x.body

abbrev pub ThreadIsReadable : Thread → Type 0
ThreadIsReadable x = (x.timestamp < long_limit) × Readable (word (text "210") ∷ thread_parts x)

pub thread_written :
    (x : Thread)
    → thread_line (text "210 ") x ≡ render (13 ∷ 10 ∷ []) (word (text "210") ∷ thread_parts x)
unfolding thread_line render render_more show text
thread_written x = simp append_assoc

pub thread_read :
    (x : Thread) (r : Router)
    → ThreadIsReadable x
    → route_tokens
        (text "210" ∷ map content (thread_parts x))
        (record r { list_context = text "THREADS" })
      ≡ call (thread_call x) (record r { list_context = text "THREADS" })
unfolding route_tokens text text_discrete ℕ_discrete
thread_read x r v = with_number-to_string x.timestamp _ _ v.0

abbrev pub thread_item : Item Thread ThreadIsReadable
thread_item = record {
  kind = text "THREADS";
  line = thread_line (text "210 ");
  parts = thread_parts;
  made = thread_call;
  written = thread_written;
  read = thread_read;
  readable = λ x v. v.1;
  kind_is_sound = kinds_are_sound.2;
  kind_fits = kinds_fit.2;
}
