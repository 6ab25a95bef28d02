-- ===== src/Events/Listing.antt =====
-- listEvents of pkg/events/command.go, with the fetching, the filter and the order of
-- pkg/events/filter.go.
use odh_cli.Base.{
  ℕ, ◌+◌, String, Bool, false, ◌&&◌, ◌||◌, Option, none, some, List, [], ◌∷◌, ◌++◌, map,
  if◌then◌else◌, ◌==◌, lookup, insert, keep,
}
use odh_cli.Base.Stable.{sort_stable}
use Prim.Native.Nat.{◌%◌}
use odh_cli.Errors.{Error, wrapped, structured}
use odh_cli.Errors.Tables.{ApiErrors}
use odh_cli.Errors.Common.{err_events_fetch_failed}
use odh_cli.Errors.Returns.{Returns, ok, fail}
use odh_cli.Client.{NotFoundErrors}
use odh_cli.Events.{EventInfo, EventsCommand, get_target_namespaces}
use odh_cli.Events.Labels.{
  get_component_label_value, LabelLookup, component_cache_key, LabelReader,
  check_object_has_component_label,
}

-- The object of an event, which is also its key in `seen`.
abbrev pub lookup_of : EventInfo → LabelLookup
lookup_of e = record { namespace = e.namespace; kind = e.kind; name = e.name }

-- `_, ok := seen[key]`
abbrev pub is_seen : List LabelLookup → LabelLookup → Bool
is_seen [] l = false
is_seen (m ∷ ms) l =
    (m.namespace == l.namespace && (m.kind == l.kind && m.name == l.name)) || is_seen ms l

-- The loop that collects the objects; the keys of `seen` are those of `lookups`.
unfoldable pub collect_lookups : List EventInfo → List LabelLookup → List LabelLookup
collect_lookups [] lookups = lookups
collect_lookups (e ∷ es) lookups =
    collect_lookups es
      (if is_seen lookups (lookup_of e) then lookups else lookups ++ lookup_of e ∷ [])

-- `result` of fetchComponentLabelsParallel: the key of the cache, with the label or the error.
abbrev pub LabelResult : Type 0
LabelResult = String × Returns Bool

-- What a loop does with a result: it returns the error, or stores the label and goes on.
abbrev pub store_or : {B : Type 0} → Returns Bool → (Bool → Returns B) → Returns B
store_or (fail err) next = fail (wrapped "checking component label: " err "")
store_or (ok has_label) next = next has_label

-- The loop that collects the results, in the order in which they arrive.
unfoldable pub collect_results :
    List LabelResult → List (String × Bool) → Returns (List (String × Bool))
collect_results [] cache = ok cache
collect_results ((k, r) ∷ rs) cache = store_or r (λ b. collect_results rs (insert cache k b))

-- UnixNano as a number of 64 bits, with the sign bit flipped, which keeps the order. The years before
-- 1970 have 62135596800 seconds: the number that is added is 2^63 less their nanoseconds, modulo 2^64.
unfoldable pub unix_nano : ℕ → ℕ
unix_nano t = (t + 2_428_007_457_983_430_656) % 18_446_744_073_709_551_616

-- sortEventsByTime
unfoldable pub sort_events_by_time : List EventInfo → List EventInfo
unfolding unix_nano
sort_events_by_time events = sort_stable (λ e. unix_nano e.last_time) events

-- The label of an object in the cache, which is false for a key that is not there.
abbrev pub or_false : Option Bool → Bool
or_false none = false
or_false (some b) = b

-- `arrive` is the order in which the workers send their results.
module _ (not_found : NotFoundErrors) (get : LabelReader)
    (arrive : List LabelResult → List LabelResult) where
  -- What a worker sends for an object.
  unfoldable pub work : String → LabelLookup → LabelResult
  unfolding component_cache_key check_object_has_component_label
  work target l =
      (component_cache_key target l, check_object_has_component_label not_found get l target)

  -- fetchComponentLabelsParallel
  unfoldable pub fetch_component_labels_parallel :
      List LabelLookup → String → Returns (List (String × Bool))
  unfolding work collect_results
  fetch_component_labels_parallel [] target = ok []
  fetch_component_labels_parallel (l ∷ ls) target =
      collect_results (arrive (map (work target) (l ∷ ls))) []

  -- The filter on the cache, or the error.
  abbrev pub filter_by :
      String → List EventInfo → Returns (List (String × Bool)) → Returns (List EventInfo)
  filter_by target events (fail err) = fail err
  filter_by target events (ok cache) =
      ok (keep (λ e. or_false (lookup cache (component_cache_key target (lookup_of e)))) events)

  -- filterEventsByComponent
  unfoldable pub filter_events_by_component : String → List EventInfo → Returns (List EventInfo)
  unfolding get_component_label_value collect_lookups fetch_component_labels_parallel
  filter_events_by_component component events =
      let target = get_component_label_value component in
      filter_by target events (fetch_component_labels_parallel (collect_lookups events []) target)

  -- The filter, if a component is given.
  abbrev pub filter_if : String → List EventInfo → Returns (List EventInfo)
  filter_if component events =
      if component == "" then ok events else filter_events_by_component component events

-- ErrEventsFetchFailed of an error
abbrev pub fetch_failed : ApiErrors → Error → Error
fetch_failed api err = elim (err_events_fetch_failed api (some err)) [
  | none ↦ err
  | some (s, why) ↦ structured s why
]

-- `if err != nil { return nil, err }`, and what follows.
abbrev pub if_ok : {A B : Type 0} → Returns A → (A → Returns B) → Returns B
if_ok (fail err) next = fail err
if_ok (ok a) next = next a

abbrev pub fetched : ApiErrors → Returns (List EventInfo) → Returns (List EventInfo)
fetched api (fail err) = fail (fetch_failed api err)
fetched api (ok events) = ok events

abbrev pub then_sorted : Returns (List EventInfo) → Returns (List EventInfo)
then_sorted (fail err) = fail err
then_sorted (ok events) = ok (sort_events_by_time events)

-- `fetch` is clusterhealth.RunRecentEvents on the namespaces, with the options of the command.
module _ (api : ApiErrors) (fetch : List String → Returns (List EventInfo)) where
  -- fetchEvents
  unfoldable pub fetch_events : EventsCommand → Returns (List EventInfo)
  unfolding get_target_namespaces err_events_fetch_failed
  fetch_events c = if_ok (get_target_namespaces c) λ namespaces. fetched api (fetch namespaces)

module _ (api : ApiErrors) (not_found : NotFoundErrors) (get : LabelReader)
    (arrive : List LabelResult → List LabelResult)
    (fetch : List String → Returns (List EventInfo)) where
  -- listEvents: the events that it renders
  unfoldable pub list_events : EventsCommand → Returns (List EventInfo)
  unfolding fetch_events filter_events_by_component sort_events_by_time
  list_events c =
      if_ok (fetch_events api fetch c)
        λ events. then_sorted (filter_if not_found get arrive c.component events)
