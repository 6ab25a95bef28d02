-- ===== src/Events/Tests.antt =====
-- The events of two pods, of which one belongs to the component ray, and a watch with a failed lookup.
use mathlib.Core.List.{Permᴰ}
use odh_cli.Base.{
  ◌≡◌, refl, sym, ◌∙◌, ap, subst, Bool-cases, inl, inr, String, Bool, true, false, ◌==◌, ◌&&◌,
  Option, none, some, List, [], ◌∷◌, ℕ, All, In, keep, arith, if◌then◌else◌,
}
use odh_cli.Base.Stable.{IsDescending}
use odh_cli.Output.{pos}
use odh_cli.Errors.{text}
use odh_cli.Errors.Tests.{no_api_errors}
use odh_cli.Errors.Returns.{ok, fail}
use odh_cli.Client.{NotFoundErrors}
use odh_cli.Events.{EventInfo, EventsCommand, get_target_namespaces}
use odh_cli.Events.Labels.{
  get_component_label_value, LabelLookup, LabelReader, kind_to_gvr, by_labels,
  check_object_has_component_label,
}
use odh_cli.Events.Keys.{IsPlain}
use odh_cli.Events.Listing.{lookup_of, LabelResult, list_events, filter_events_by_component}
use odh_cli.Events.Collected.{IsOk, IsFailure, ok_true}
use odh_cli.Events.Filtered.{answer_for, filter_events_by_component_lem}
use odh_cli.Events.Newest.{IsPlausible, at_time, list_events_lem}
use odh_cli.Events.Cached.{IsHonest}
use odh_cli.Events.Sent.{IsDue, IsKnown, IsClear}
use odh_cli.Events.Attempts.{arrivals_of, watch_namespace_events_lem}
use odh_cli.Events.Versions.{watch_namespace_events-requests}
use odh_cli.Events.Watch.{Event, Arrival, Attempt, refused, connected, watch_namespace_events}

abbrev not_found : NotFoundErrors
not_found = record { is_no_match_error = λ e. false; is_not_found = λ e. false }

abbrev reader : LabelReader
reader gvr namespace name =
    if name == "worker"
    then ok (("app.kubernetes.io/part-of", "ray") ∷ [])
    else if name == "other"
    then ok []
    else fail (text "timeout")

abbrev swap_first : List LabelResult → List LabelResult
swap_first [] = []
swap_first (a ∷ []) = a ∷ []
swap_first (a ∷ b ∷ rest) = b ∷ a ∷ rest

swap_first-perm : (rs : List LabelResult) → Permᴰ rs (swap_first rs)
swap_first-perm [] = Permᴰ.nil
swap_first-perm (a ∷ []) = Permᴰ.cons refl Permᴰ.nil
swap_first-perm (a ∷ b ∷ rest) = Permᴰ.swap refl refl

abbrev event_at : String → ℕ → EventInfo
event_at name t = record {
  namespace = "apps";
  name = name;
  kind = "Pod";
  reason = "Started";
  message = "";
  count = 1;
  event_type = "Normal";
  last_time = t;
}

abbrev ray_command : EventsCommand
ray_command = record {
  flag_namespace = none;
  event_type = "";
  since = pos 0;
  all_namespaces = false;
  output_format = "table";
  component = "ray";
  follow = false;
  namespace = "";
  namespace_explicit = false;
  applications_ns = "apps";
  operator_ns = "operators";
  monitoring_ns = "apps";
}

abbrev fetched_events : List EventInfo
fetched_events =
    event_at "worker" 63_000_000_000_000_000_000
    ∷ event_at "other" 63_000_000_000_000_000_002
    ∷ event_at "worker" 63_000_000_000_000_000_001
    ∷ []

target_namespaces : get_target_namespaces ray_command ≡ ok ("apps" ∷ "operators" ∷ [])
unfolding get_target_namespaces
target_namespaces = refl

All-IsPlausible : All (λ e. IsPlausible e.last_time) fetched_events
All-IsPlausible = (
  inr (omega arith, omega arith),
  (inr (omega arith, omega arith), (inr (omega arith, omega arith), tt)),
)

All-IsPlain : All (λ e. IsPlain (get_component_label_value "ray") (lookup_of e)) fetched_events
unfolding get_component_label_value
All-IsPlain = ((refl, (refl, refl)), ((refl, (refl, refl)), ((refl, (refl, refl)), tt)))

All-IsOk : All (λ e. IsOk (answer_for not_found reader "ray" e)) fetched_events
unfolding get_component_label_value check_object_has_component_label
All-IsOk = ((true, refl), ((false, refl), ((true, refl), tt)))

list_events_lem_example :
    (shown : List EventInfo) × ((list_events no_api_errors not_found reader swap_first
          (λ nss. ok fetched_events)
          ray_command
        ≡ ok shown)
      × (IsDescending (λ e. e.last_time) shown
          × ((t : ℕ)
              → keep (at_time t) shown
                ≡ keep
                    (at_time t)
                    (keep (λ e. ok_true (answer_for not_found reader "ray" e)) fetched_events))))
list_events_lem_example =
    list_events_lem no_api_errors not_found reader swap_first swap_first-perm
      (λ nss. ok fetched_events) ray_command ("apps" ∷ "operators" ∷ []) fetched_events refl
      target_namespaces refl All-IsPlausible All-IsPlain All-IsOk

abbrev with_stranger : List EventInfo
with_stranger = event_at "stranger" 1 ∷ []

stranger-IsPlain : All (λ e. IsPlain (get_component_label_value "ray") (lookup_of e)) with_stranger
unfolding get_component_label_value
stranger-IsPlain = ((refl, (refl, refl)), tt)

filter_events_by_component_lem_example :
    (All (λ e. IsOk (answer_for not_found reader "ray" e)) with_stranger
      → filter_events_by_component not_found reader swap_first "ray" with_stranger
        ≡ ok (keep (λ e. ok_true (answer_for not_found reader "ray" e)) with_stranger))
    × ((e : EventInfo)
        → In e with_stranger
        → IsFailure (answer_for not_found reader "ray" e)
        → IsFailure (filter_events_by_component not_found reader swap_first "ray" with_stranger))
filter_events_by_component_lem_example =
    filter_events_by_component_lem not_found reader swap_first swap_first-perm "ray" with_stranger
      stranger-IsPlain

-- A reader that does not answer at the moment.
abbrev busy : LabelReader
busy gvr namespace name = fail (text "timeout")

abbrev ray_reader : LabelReader
ray_reader gvr namespace name =
    if gvr.resource == "pods" && name == "worker"
    then ok (("app.kubernetes.io/part-of", "ray") ∷ [])
    else ok []

-- The labels as a reader that answers finds them.
abbrev truth : LabelLookup → Bool
truth l =
    ok_true
      (check_object_has_component_label not_found ray_reader l (get_component_label_value "ray"))

abbrev event_of : String → String → Event
event_of version name = record {
  resource_version = version;
  namespace = "apps";
  involved_object = record { namespace = "apps"; kind = "Pod"; name = name };
  reason = "Started";
  message = "";
  count = 1;
  event_type = "Normal";
  last_timestamp = 9;
  event_time = 0;
}

abbrev arrival : LabelReader → String → String → Arrival
arrival get version name = record {
  event = record { change = "ADDED"; object = some (event_of version name) };
  get = get;
  is_delivered = true;
}

abbrev attempts : List Attempt
attempts =
    connected (arrival busy "7" "worker" ∷ arrival ray_reader "8" "worker" ∷ []) false
    ∷ refused (text "connection reset")
    ∷ connected (arrival ray_reader "" "other" ∷ arrival ray_reader "9" "worker" ∷ []) false
    ∷ []

goes_on : (watch_namespace_events not_found "ray" 0 attempts).ended ≡ none
unfolding watch_namespace_events
goes_on = refl

watch_namespace_events-requests_example :
    ((watch_namespace_events not_found "ray" 0 attempts).requested ≡ "" ∷ "8" ∷ "8" ∷ [])
    × ((watch_namespace_events not_found "ray" 0 attempts).resource_version ≡ "9")
watch_namespace_events-requests_example =
    watch_namespace_events-requests not_found "ray" 0 attempts goes_on
      (refl, (refl, (refl, (refl, tt))))

-- The test of a reader whose answer is known, by whether the kind is supported.
checks :
    (get : LabelReader) (l : LabelLookup) (t : Bool)
    → ((kind_to_gvr l.kind).resource == "") ≡ t
    → check_object_has_component_label not_found get l (get_component_label_value "ray") ≡ (
        if t
        then ok false
        else by_labels not_found
            (kind_to_gvr l.kind)
            l
            (get_component_label_value "ray")
            (get (kind_to_gvr l.kind) l.namespace l.name))
unfolding check_object_has_component_label
checks get l t e =
    ap
      (λ t.
        if t
        then ok false
        else by_labels not_found (kind_to_gvr l.kind) l (get_component_label_value "ray")
            (get (kind_to_gvr l.kind) l.namespace l.name))
      e

busy-IsHonest : IsHonest not_found "ray" truth busy
busy-IsHonest l b e = elim (Bool-cases ((kind_to_gvr l.kind).resource == "")) [
  | inl u ↦
      sym (ap ok_true e)
      ∙ ap ok_true (checks busy l true u)
      ∙ sym (ap ok_true (checks ray_reader l true u))
  | inr s ↦ absurd (cc (e, checks busy l false s))
]

ray_reader-IsHonest : IsHonest not_found "ray" truth ray_reader
ray_reader-IsHonest l b e = sym (ap ok_true e)

worker-IsPlain :
    (version name : String) (e : Event)
    → Option.some (event_of version name) ≡ some e
    → IsPlain (get_component_label_value "ray") e.involved_object
unfolding get_component_label_value
worker-IsPlain version name e q =
    subst
      (λ o. elim o [
        | none ↦ Unit
        | some d ↦ IsPlain (get_component_label_value "ray") d.involved_object
      ])
      q (refl, (refl, refl))

given : ("ray" == "") ≡ false
given = refl

All-IsClear : All (IsClear not_found "ray" truth 0 given) (arrivals_of attempts)
All-IsClear = (
  (worker-IsPlain "7" "worker", busy-IsHonest),
  (
    (worker-IsPlain "8" "worker", ray_reader-IsHonest),
    (
      (worker-IsPlain "" "other", ray_reader-IsHonest),
      ((worker-IsPlain "9" "worker", ray_reader-IsHonest), tt),
    ),
  ),
)

watch_namespace_events_lem_example :
    let w = watch_namespace_events not_found "ray" 0 attempts in
    ((e : Event) → In e w.sent → IsDue not_found "ray" truth 0 given (arrivals_of attempts) e)
    × (w.ended ≡ none
        → All (λ a. a.is_delivered ≡ true) (arrivals_of attempts)
        → (e : Event) → IsKnown not_found "ray" truth 0 given (arrivals_of attempts) e
        → In e w.sent)
watch_namespace_events_lem_example =
    watch_namespace_events_lem not_found "ray" truth 0 given attempts All-IsClear

sent_events :
    (watch_namespace_events not_found "ray" 0 attempts).sent
    ≡ event_of "8" "worker" ∷ event_of "9" "worker" ∷ []
unfolding watch_namespace_events
sent_events = refl
