-- ===== src/Events/Watch.antt =====
-- The watch of the events of one namespace (pkg/events/filter.go), with the cache of component labels.
-- What the API server sends, and when the context is done, is data that the environment chooses. The
-- waits are noted, and the warnings are left out.
use odh_cli.Base.{
  ℕ, ◌+◌, ◌*◌, String, Bool, true, false, not, ◌&&◌, Option, none, some, List, [], ◌∷◌, ◌++◌,
  if◌then◌else◌, ◌==◌, ltb, nat_eq, lookup, insert,
}
use odh_cli.Errors.{Error}
use odh_cli.Errors.Returns.{Returns, ok, fail}
use odh_cli.Client.{NotFoundErrors}
use odh_cli.Cmd.{second}
use odh_cli.Events.{EventInfo}
use odh_cli.Events.Labels.{
  get_component_label_value, LabelLookup, component_cache_key, LabelReader,
  check_object_has_component_label,
}

-- corev1.Event, as far as the program reads it, with times as in EventInfo.
pub record Event : Type 0 where
  pub resource_version : String
  pub namespace : String
  pub involved_object : LabelLookup
  pub reason : String
  pub message : String
  pub count : ℕ
  pub event_type : String
  pub last_timestamp : ℕ
  pub event_time : ℕ

-- watch.Event, with no object if it is not an event.
pub record WatchEvent : Type 0 where
  pub change : String
  pub object : Option Event

-- `t := e.LastTimestamp.Time; if t.IsZero() { t = e.EventTime.Time }`
abbrev pub time_of : Event → ℕ
time_of e = if nat_eq e.last_timestamp 0 then e.event_time else e.last_timestamp

-- isEventBeforeCutoff
unfoldable pub is_event_before_cutoff : Event → ℕ → Bool
is_event_before_cutoff e cutoff = not (nat_eq (time_of e) 0) && ltb (time_of e) cutoff

-- eventToEventInfo
unfoldable pub event_to_event_info : Event → EventInfo
event_to_event_info e = record {
  namespace = e.namespace;
  name = e.involved_object.name;
  kind = e.involved_object.kind;
  reason = e.reason;
  message = e.message;
  count = e.count;
  event_type = e.event_type;
  last_time = time_of e;
}

-- labelCache
abbrev pub LabelCache : Type 0
LabelCache = List (String × Bool)

-- The answer of the cluster is stored, and an error is not.
abbrev pub store_answer : LabelCache → String → Returns Bool → LabelCache × Bool
store_answer cache key (fail err) = (cache, false)
store_answer cache key (ok b) = (insert cache key b, b)

-- The value of the cache, or the answer of the cluster.
abbrev pub cached_or : LabelCache → String → Option Bool → Returns Bool → LabelCache × Bool
cached_or cache key (some b) answer = (cache, b)
cached_or cache key none answer = store_answer cache key answer

-- The event, or nil.
abbrev pub event_if : Event → LabelCache × Bool → LabelCache × Option Event
event_if e (cache, true) = (cache, some e)
event_if e (cache, false) = (cache, none)

-- What the watch meets: an event, with the answers of the cluster at its time, and whether the event
-- can be sent on before the context is done.
pub record Arrival : Type 0 where
  pub event : WatchEvent
  pub get : LabelReader
  pub is_delivered : Bool

-- What processWatchEvents leaves: the cache, the last resource version, and the events it sent on.
pub record Processed : Type 0 where
  pub cache : LabelCache
  pub last_version : String
  pub sent : List Event

-- `if e.ResourceVersion != "" { lastRV = e.ResourceVersion }`
abbrev pub version_after : String → Option Event → String
version_after v none = v
version_after v (some e) = if e.resource_version == "" then v else e.resource_version

-- One event of processWatchEvents that is not nil is sent on, unless the context is done.
abbrev pub send : LabelCache → String → Option Event → Bool → Processed → Processed
send cache v none is_delivered rest = rest
send cache v (some e) true rest = record rest { sent = e ∷ rest.sent }
send cache v (some e) false rest = record { cache = cache; last_version = v; sent = [] }

module _ (not_found : NotFoundErrors) (component : String) where
  -- checkEventMatchesComponentCached
  unfoldable pub check_event_matches_component_cached :
      LabelReader → LabelCache → Event → LabelCache × Bool
  unfolding get_component_label_value component_cache_key check_object_has_component_label
  check_event_matches_component_cached get cache e =
      let target = get_component_label_value component in
      let key = component_cache_key target e.involved_object in
      cached_or cache key (lookup cache key)
        (check_object_has_component_label not_found get e.involved_object target)

module _ (not_found : NotFoundErrors) (component : String) (cutoff : ℕ) where
  -- The filters of extractValidEvent on an event.
  unfoldable pub filter_event : LabelReader → LabelCache → Event → LabelCache × Option Event
  unfolding is_event_before_cutoff check_event_matches_component_cached
  filter_event get cache e =
      if not (nat_eq cutoff 0) && is_event_before_cutoff e cutoff
      then (cache, none)
      else if component == ""
      then (cache, some e)
      else event_if e (check_event_matches_component_cached not_found component get cache e)

  abbrev pub filter_object : LabelReader → LabelCache → Option Event → LabelCache × Option Event
  filter_object get cache none = (cache, none)
  filter_object get cache (some e) = filter_event get cache e

  -- extractValidEvent
  unfoldable pub extract_valid_event :
      LabelReader → LabelCache → WatchEvent → LabelCache × Option Event
  unfolding filter_event
  extract_valid_event get cache event =
      if not (event.change == "ADDED") && not (event.change == "MODIFIED")
      then (cache, none)
      else filter_object get cache event.object

  -- processWatchEvents, until the channel is closed or the context is done.
  unfoldable pub process_watch_events : List Arrival → LabelCache → String → Processed
  unfolding extract_valid_event
  process_watch_events [] cache v = record { cache = cache; last_version = v; sent = [] }
  process_watch_events (a ∷ as') cache v =
      let v' = version_after v a.event.object in
      let (cache', o) = extract_valid_event a.get cache a.event in
      send cache' v' o a.is_delivered (process_watch_events as' cache' v')

-- What a turn of watchNamespaceEvents meets: the context is done, or the Watch call fails, or it
-- succeeds and the watch gets these events until its channel is closed or the context is done; the
-- last part says whether the context is done then.
pub data Attempt : Type 0 where
  stop : Attempt
  refused : Error → Attempt
  connected : List Arrival → Bool → Attempt

-- How watchNamespaceEvents ends.
pub data WatchEnd : Type 0 where
  stopped : WatchEnd
  gave_up : Error → WatchEnd

-- The variables of watchNamespaceEvents, the resource versions of its Watch calls, its waits, the
-- events that it sent on, and how it ended.
pub record NamespaceWatch : Type 0 where
  pub consecutive_errors : ℕ
  pub backoff : ℕ
  pub resource_version : String
  pub cache : LabelCache
  pub requested : List String
  pub waited : List ℕ
  pub sent : List Event
  pub ended : Option WatchEnd

-- min(backoff*backoffMultiplier, maxRetryBackoff)
abbrev pub next_retry : ℕ → ℕ
next_retry b = if ltb (b * 2) (30 * second) then b * 2 else 30 * second

-- A failed Watch call.
unfoldable pub watch_refused : NamespaceWatch → Error → NamespaceWatch
watch_refused w err =
    if not (ltb (w.consecutive_errors + 1) 5)
    then record w {
      consecutive_errors = w.consecutive_errors + 1;
      requested = w.requested ++ w.resource_version ∷ [];
      ended = some (gave_up err);
    }
    else record w {
      consecutive_errors = w.consecutive_errors + 1;
      backoff = next_retry w.backoff;
      requested = w.requested ++ w.resource_version ∷ [];
      waited = w.waited ++ w.backoff ∷ [];
    }

-- A Watch call that succeeded, with what its events left, and whether the context is done.
unfoldable pub watch_connected : NamespaceWatch → Processed → Bool → NamespaceWatch
watch_connected w p is_done = record {
  consecutive_errors = 0;
  backoff = second;
  resource_version = if p.last_version == "" then w.resource_version else p.last_version;
  cache = p.cache;
  requested = w.requested ++ w.resource_version ∷ [];
  waited = if is_done then w.waited else w.waited ++ second ∷ [];
  sent = w.sent ++ p.sent;
  ended = if is_done then some stopped else none;
}

abbrev pub unless_ended : Option WatchEnd → NamespaceWatch → NamespaceWatch → NamespaceWatch
unless_ended (some end) w rest = w
unless_ended none w rest = rest

module _ (not_found : NotFoundErrors) (component : String) (cutoff : ℕ) where
  -- One turn of the loop of watchNamespaceEvents.
  unfoldable pub watch_attempt : NamespaceWatch → Attempt → NamespaceWatch
  unfolding watch_refused watch_connected process_watch_events
  watch_attempt w stop = record w { ended = some stopped }
  watch_attempt w (refused err) = watch_refused w err
  watch_attempt w (connected arrivals is_done) =
      watch_connected w (process_watch_events not_found component cutoff arrivals w.cache "")
        is_done

  -- The loop, over the turns so far.
  unfoldable pub watch_attempts : NamespaceWatch → List Attempt → NamespaceWatch
  unfolding watch_attempt
  watch_attempts w [] = w
  watch_attempts w (a ∷ as') = unless_ended w.ended w (watch_attempts (watch_attempt w a) as')

  -- watchNamespaceEvents
  unfoldable pub watch_namespace_events : List Attempt → NamespaceWatch
  unfolding watch_attempts
  watch_namespace_events attempts =
      watch_attempts
        (record {
          consecutive_errors = 0;
          backoff = second;
          resource_version = "";
          cache = [];
          requested = [];
          waited = [];
          sent = [];
          ended = none;
        })
        attempts
