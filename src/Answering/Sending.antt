-- ===== src/Answering/Sending.antt =====
-- Two writes to one client are one write of both texts, so a list answer is one write.
use mathlib.Core.List.{append_assoc}
use myteams.Prelude.{ℕ, List, [], ◌∷◌, ◌++◌, ◌≡◌, refl, ap, ◌∙◌, Text, arith}
use myteams.State.{
  Client, Clients, Server, update_client, append_to_write_buffer, send_to_client, send_each,
}
use myteams.Commands.Listing.{send_list}

-- `s'` is `s` with some text more in the write buffer of the client at `fd`.
pub record IsAnswer (fd : ℕ) (s s' : Server) : Type 0 where
  pub msg : Text
  pub sent : s' ≡ send_to_client msg fd s

pub send_to_client-IsAnswer :
    (msg : Text) (fd : ℕ) (s : Server) → IsAnswer fd s (send_to_client msg fd s)
send_to_client-IsAnswer msg fd s = record { msg = msg; sent = refl }

append_twice :
    (a b : Text) (c : Client)
    → append_to_write_buffer b (append_to_write_buffer a c) ≡ append_to_write_buffer (a ++ b) c
unfolding append_to_write_buffer
append_twice a b c = ap (λ w. record c { write_buffer = w }) (append_assoc c.write_buffer a b)

update_client-append :
    (a b : Text) (fd : ℕ) (cs : Clients)
    → update_client fd (append_to_write_buffer b) (update_client fd (append_to_write_buffer a) cs)
      ≡ update_client fd (append_to_write_buffer (a ++ b)) cs
unfolding update_client
update_client-append a b fd [] = refl
update_client-append a b fd ((k, c) ∷ cs) =
    ground (arith, append_twice a b c, update_client-append a b fd cs)

pub send-send :
    (a b : Text) (fd : ℕ) (s : Server)
    → send_to_client b fd (send_to_client a fd s) ≡ send_to_client (a ++ b) fd s
unfolding send_to_client
send-send a b fd s = ap (λ cs. record s { clients = cs }) (update_client-append a b fd s.clients)

pub send_to_client-IsAnswer_after :
    (msg : Text) (fd : ℕ) {s s' : Server}
    → IsAnswer fd s s'
    → IsAnswer fd s (send_to_client msg fd s')
send_to_client-IsAnswer_after msg fd {s} a = record {
  msg = a.msg ++ msg;
  sent = ap (send_to_client msg fd) a.sent ∙ send-send a.msg msg fd s;
}

pub send_each-IsAnswer {ℓ} :
    {A : Type ℓ} (line : A → Text) (xs : List A) (fd : ℕ) {s s' : Server}
    → IsAnswer fd s s'
    → IsAnswer fd s (send_each line xs fd s')
unfolding send_each
send_each-IsAnswer line [] fd a = a
send_each-IsAnswer line (x ∷ xs) fd a =
    send_each-IsAnswer line xs fd (send_to_client-IsAnswer_after (line x) fd a)

pub send_list-IsAnswer {ℓ} :
    {A : Type ℓ} (kind : Text) (line : A → Text) (xs : List A) (fd : ℕ) (s : Server)
    → IsAnswer fd s (send_list kind line xs fd s)
unfolding send_list
send_list-IsAnswer kind line xs fd s =
    send_to_client-IsAnswer_after _ fd
      (send_each-IsAnswer line xs fd (send_to_client-IsAnswer _ fd s))
