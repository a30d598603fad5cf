-- ===== src/Messaging/Subscribing.antt =====
-- `/subscribe` and `/unsubscribe` on the subscribers of a team.
use myteams.Prelude.{
  List, [], ◌∷◌, ◌++◌, ◌≡◌, refl, true, false, Text, text_eq, arith, if◌then◌else◌,
}
use myteams.Models.{
  Team, contains, remove_all, is_user_subscribed, add_subscriber, remove_subscriber,
}
use myteams.Commands.Subscriptions.{subscribe_user, unsubscribe_user}

contains-append :
    (v u : Text) (xs : List Text)
    → contains v (xs ++ u ∷ []) ≡ (if text_eq u v then true else contains v xs)
unfolding contains
contains-append v u [] = ground arith
contains-append v u (x ∷ xs) = ground (arith, contains-append v u xs)

contains-remove_all :
    (v u : Text) (xs : List Text)
    → contains v (remove_all u xs) ≡ (if text_eq u v then false else contains v xs)
unfolding contains remove_all
contains-remove_all v u [] = ground arith
contains-remove_all v u (x ∷ xs) = ground (arith, contains-remove_all v u xs)

remove_all-missing : (v : Text) (xs : List Text) → contains v xs ≡ false → remove_all v xs ≡ xs
unfolding contains remove_all
remove_all-missing v [] h = refl
remove_all-missing v (x ∷ xs) h = ground (arith, remove_all-missing v xs)

remove_all-append :
    (v : Text) (xs : List Text) → contains v xs ≡ false → remove_all v (xs ++ v ∷ []) ≡ xs
unfolding contains remove_all
remove_all-append v [] h = ground arith
remove_all-append v (x ∷ xs) h = ground (arith, remove_all-append v xs)

-- After `addSubscriber` the user subscribes to the team, and every other user does if he did.
pub is_user_subscribed-subscribe :
    (user other : Text) (t : Team)
    → is_user_subscribed other (subscribe_user user t)
      ≡ (if text_eq user other then true else is_user_subscribed other t)
unfolding add_subscriber is_user_subscribed
is_user_subscribed-subscribe user other t =
    ground (arith, contains-append other user t.subscriber_uuids)

-- After `removeSubscriber` the user does not subscribe to the team, and every other user does if
-- he did.
pub is_user_subscribed-unsubscribe :
    (user other : Text) (t : Team)
    → is_user_subscribed other (unsubscribe_user user t)
      ≡ (if text_eq user other then false else is_user_subscribed other t)
unfolding remove_subscriber is_user_subscribed
is_user_subscribed-unsubscribe user other t =
    ground (arith, contains-remove_all other user t.subscriber_uuids)

-- `removeSubscriber` behind `addSubscriber` gives back the team, for a user who did not subscribe.
pub unsubscribe-subscribe :
    (user : Text) (t : Team)
    → is_user_subscribed user t ≡ false
    → unsubscribe_user user (subscribe_user user t) ≡ t
unfolding add_subscriber remove_subscriber is_user_subscribed
unsubscribe-subscribe user t h =
    ground (
      arith,
      contains-append user user t.subscriber_uuids,
      remove_all-append user t.subscriber_uuids,
    )
