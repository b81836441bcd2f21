-- ===== src/Example/Clients.antt =====
-- The theorems on subjects, patterns and subscribers, at two clients and four patterns.
use wup_demo.Prelude.{none, String, string_eq, pos, true, some, List, [], ◌∷◌, ◌≡◌, ◌↔◌, refl}
use wup_demo.DashMap.Local.{local_maps}
use wup_demo.HashMap
use wup_demo.Text.{split, contains_char}
use wup_demo.Subscription.{
  matches_subject, parse_subject, build_subject, extract_subject_parts, validate_pattern,
  validate_parts,
}
use wup_demo.Subscription.Matching.{Matches, matches_subject_iff}
use wup_demo.Subscription.Subjects.{parse-build_subject}
use wup_demo.Registry.{Display, ClientRegistry, Result, ok, new, new_client, register, subscribe}
use wup_demo.Registry.Routing.{has_id, get_matching_subscribers}
use wup_demo.Registry.Consistency.{subscribed, IsConsistent}
use wup_demo.Registry.Reachable.{Reachable, started, registered, subscribes, Reachable-IsConsistent}
use wup_demo.Gateway.{ClientMessage, Outcome, first_error, handle_subscribe, handle_client_message}
use wup_demo.Gateway.Answers.{Each, handle_subscribe-confirmed}
use wup_demo.Registry.Stale.{Cleaned, cleanup_stale_clients, get-cleanup_stale_clients}
use wup_demo.Gateway.Keeps.{handle_client_message-IsConsistent}
use wup_demo.Registry.Fanout.{matching_subscribers_iff}

instance abbrev pub names : Display String
names = record { to_string = λ s. s }

matches_subject_iff_example :
    (matches_subject "market.*" ("market" ∷ "token" ∷ []) ≡ true)
    ↔ Matches (split "market.*") ("market" ∷ "token" ∷ [])
unfolding validate_pattern split
matches_subject_iff_example = matches_subject_iff "market.*" ("market" ∷ "token" ∷ []) refl

parse-build_subject_example :
    (parse_subject (build_subject "market" "token") ≡ "market" ∷ "token" ∷ [])
    × (extract_subject_parts (build_subject "market" "token") ≡ some ("market", "token"))
unfolding contains_char
parse-build_subject_example = parse-build_subject "market" "token" refl refl

abbrev pub two_clients : ClientRegistry String
two_clients = register "bob" (new_client (pos 2)) (register "ann" (new_client (pos 1)) new)

abbrev subjects : List String
subjects = "market.*" ∷ "market.token" ∷ []

abbrev answer : ClientRegistry String → Result (ClientRegistry String) → ClientRegistry String
answer reg (ok reg') = reg'
answer reg (Result.err e) = reg

abbrev pub subscribed_once : ClientRegistry String
subscribed_once = answer two_clients (subscribe "ann" subjects two_clients)

two_clients-Reachable : Reachable two_clients
unfolding register HashMap.get HashMap.insert
two_clients-Reachable = registered "bob" (pos 2) (registered "ann" (pos 1) started refl) refl

pub subscribed_once-Reachable : Reachable subscribed_once
unfolding register HashMap.get HashMap.insert subscribe
subscribed_once-Reachable = subscribes "ann" subjects two_clients-Reachable refl

Reachable-IsConsistent_example : IsConsistent subscribed_once
Reachable-IsConsistent_example = Reachable-IsConsistent subscribed_once-Reachable

matching_subscribers_iff_example :
    (has_id "ann" (HashMap.keys (get_matching_subscribers "market.other" subscribed_once)) ≡ true)
    ↔ ((p : String) × ((subscribed "ann" p subscribed_once ≡ true)
          × (matches_subject p (split "market.other") ≡ true)))
matching_subscribers_iff_example =
    matching_subscribers_iff subscribed_once "market.other" "ann"
      (Reachable-IsConsistent subscribed_once-Reachable)

abbrev confirmed : Outcome String
confirmed = handle_subscribe true (λ s. []) "ann" subjects two_clients

handle_subscribe-confirmed_example :
    Each
      (λ s. (validate_pattern s ≡ none) × (subscribed "ann" s confirmed.registry ≡ true))
      subjects
unfolding handle_subscribe first_error validate_pattern validate_parts split register HashMap.get
    HashMap.insert subscribe
handle_subscribe-confirmed_example =
    handle_subscribe-confirmed true (λ s. []) "ann" subjects two_clients refl

handle_client_message-IsConsistent_example :
    IsConsistent
      (handle_client_message true
        (λ s. [])
        (pos 3)
        "ann"
        ClientMessage.ping
        subscribed_once).registry
handle_client_message-IsConsistent_example =
    handle_client_message-IsConsistent true (λ s. []) (pos 3) "ann" ClientMessage.ping
      subscribed_once (Reachable-IsConsistent subscribed_once-Reachable)

get-cleanup_stale_clients_example :
    Cleaned
      (pos 9)
      (pos 7)
      (HashMap.get "ann" two_clients.clients)
      (HashMap.get "ann" (cleanup_stale_clients (pos 9) (pos 7) two_clients).clients)
get-cleanup_stale_clients_example = get-cleanup_stale_clients (pos 9) (pos 7) "ann" two_clients
