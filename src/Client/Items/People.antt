-- ===== src/Client/Items/People.antt =====
-- Replies, users and messages as items.
use native.Mathlib.Decide.{ℕ_discrete}
use mathlib.Core.List.{append_assoc}
use myteams.Prelude.{
  ◌<◌, List, [], ◌∷◌, map, ◌≡◌, refl, text, text_discrete, Bool-cases, inl, inr, if◌then◌else◌,
}
use myteams.Models.{User, Thread, Reply, Message, is_connected}
use myteams.Protocol.{to_string}
use myteams.Protocol.Words.{is_space}
use myteams.Protocol.Lines.{Part, word, field, content, show, render, render_more}
use myteams.Commands.Answers.{user_line}
use myteams.Commands.Listing.{reply_line}
use myteams.Commands.Messages.{message_line}
use myteams.Protocol.Numbers.{is_digit}
use myteams.Client.Integers.{pos, stoll, read_integer, skip_spaces, signed, to_int, long_limit}
use myteams.Client.Calls.{
  Call, Router, call, print_users, thread_print_replies, private_message_print_messages,
}
use myteams.Client.Router.{route_tokens, with_number}
use myteams.Client.Listed.{Item, Readable}
use myteams.Client.Items.Kinds.{kinds_are_sound, kinds_fit, with_number-to_string}

abbrev pub reply_parts : Thread → Reply → List Part
reply_parts thread x =
    field thread.uuid ∷ field x.user_uuid ∷ word (to_string x.timestamp) ∷ field x.body ∷ []

abbrev pub reply_call : Thread → Reply → Call
reply_call thread x = thread_print_replies thread.uuid x.user_uuid (pos x.timestamp) x.body

abbrev pub ReplyIsReadable : Thread → Reply → Type 0
ReplyIsReadable thread x =
    (x.timestamp < long_limit) × Readable (word (text "210") ∷ reply_parts thread x)

pub reply_written :
    (thread : Thread) (x : Reply)
    → reply_line thread x ≡ render (13 ∷ 10 ∷ []) (word (text "210") ∷ reply_parts thread x)
unfolding reply_line render render_more show text
reply_written thread x = simp append_assoc

pub reply_read :
    (thread : Thread) (x : Reply) (r : Router)
    → ReplyIsReadable thread x
    → route_tokens
        (text "210" ∷ map content (reply_parts thread x))
        (record r { list_context = text "REPLIES" })
      ≡ call (reply_call thread x) (record r { list_context = text "REPLIES" })
unfolding route_tokens text text_discrete ℕ_discrete
reply_read thread x r v = with_number-to_string x.timestamp _ _ v.0

abbrev pub reply_item : (thread : Thread) → Item Reply (ReplyIsReadable thread)
reply_item thread = record {
  kind = text "REPLIES";
  line = reply_line thread;
  parts = reply_parts thread;
  made = reply_call thread;
  written = reply_written thread;
  read = reply_read thread;
  readable = λ x v. v.1;
  kind_is_sound = kinds_are_sound.3;
  kind_fits = kinds_fit.3;
}

abbrev pub user_parts : User → List Part
user_parts x =
    field x.uuid ∷ field x.name ∷ word (if is_connected x then text "1" else text "0") ∷ []

abbrev pub user_call : User → Call
user_call x = print_users x.uuid x.name (pos (if is_connected x then 1 else 0))

abbrev pub UserIsReadable : User → Type 0
UserIsReadable x = Readable (word (text "210") ∷ user_parts x)

pub user_written :
    (x : User)
    → user_line (text "210 ") x ≡ render (13 ∷ 10 ∷ []) (word (text "210") ∷ user_parts x)
unfolding user_line render render_more show text
user_written x = simp append_assoc

pub user_read :
    (x : User) (r : Router)
    → UserIsReadable x
    → route_tokens
        (text "210" ∷ map content (user_parts x))
        (record r { list_context = text "USERS" })
      ≡ call (user_call x) (record r { list_context = text "USERS" })
unfolding route_tokens text text_discrete ℕ_discrete with_number stoll read_integer skip_spaces
    is_space signed is_digit to_int
user_read x r v = elim (Bool-cases (is_connected x)) [ inl e ↦ rw e refl | inr e ↦ rw e refl ]

abbrev pub user_item : Item User UserIsReadable
user_item = record {
  kind = text "USERS";
  line = user_line (text "210 ");
  parts = user_parts;
  made = user_call;
  written = user_written;
  read = user_read;
  readable = λ x v. v;
  kind_is_sound = kinds_are_sound.4;
  kind_fits = kinds_fit.4;
}

abbrev pub message_parts : Message → List Part
message_parts x = field x.sender_uuid ∷ word (to_string x.timestamp) ∷ field x.body ∷ []

abbrev pub message_call : Message → Call
message_call x = private_message_print_messages x.sender_uuid (pos x.timestamp) x.body

abbrev pub MessageIsReadable : Message → Type 0
MessageIsReadable x = (x.timestamp < long_limit) × Readable (word (text "210") ∷ message_parts x)

pub message_written :
    (x : Message) → message_line x ≡ render (13 ∷ 10 ∷ []) (word (text "210") ∷ message_parts x)
unfolding message_line render render_more show text
message_written x = simp append_assoc

pub message_read :
    (x : Message) (r : Router)
    → MessageIsReadable x
    → route_tokens
        (text "210" ∷ map content (message_parts x))
        (record r { list_context = text "MESSAGES" })
      ≡ call (message_call x) (record r { list_context = text "MESSAGES" })
unfolding route_tokens text text_discrete ℕ_discrete
message_read x r v = with_number-to_string x.timestamp _ _ v.0

abbrev pub message_item : Item Message MessageIsReadable
message_item = record {
  kind = text "MESSAGES";
  line = message_line;
  parts = message_parts;
  made = message_call;
  written = message_written;
  read = message_read;
  readable = λ x v. v.1;
  kind_is_sound = kinds_are_sound.5;
  kind_fits = kinds_fit.5;
}
