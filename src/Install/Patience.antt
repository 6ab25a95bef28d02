-- ===== src/Install/Patience.antt =====
-- How long waitForCSV of pkg/deps/install.go takes to see an operator that is there.
use odh_cli.Base.{
  ℕ, suc, ◌≡◌, refl, sym, ap, subst, Option, none, some, Some, ◌==◌, ◌&&◌, Bool-cases, ◌⊎◌, inl,
  inr, String, Bool, true, false, List, [], ◌∷◌, ◌++◌, All, arith, nat_eq,
}
use Prim.Native.Nat.{◌%◌}
use odh_cli.Errors.Returns.{Returns, ok, fail}
use odh_cli.Client.{NotFoundErrors}
use odh_cli.Install.{Cluster, Subscription, SubscriptionCondition, Csv}
use odh_cli.Install.Match.{matches_subscription}
use odh_cli.Install.Select.{get_subscription, first_succeeded}
use odh_cli.Errors.{Error}
use odh_cli.Install.Wait.{
  CsvResult, csv_of_subscription, result_of_phase, resolution_failure, of_subscription, of_found,
  either_csv, return_or, ready, not_ready, csv_error, Expiry, try_csv_from_subscription,
  find_succeeded_csv_in_namespace, poll_csv, wait_for_csv,
}

abbrev pub IsReady : CsvResult → Type 0
IsReady r = (v : String) × (r ≡ ready v)

abbrev pub IsWithoutError : CsvResult → Type 0
IsWithoutError r = (r ≡ not_ready) ⊎ IsReady r

abbrev pub Arrives : Returns String → Type 0
Arrives r = (v : String) × (r ≡ ok v)

either_csv_cases :
    (r : CsvResult) (b : Bool) (o : CsvResult)
    → IsWithoutError r
    → IsWithoutError o
    → IsWithoutError (either_csv r b o)
either_csv_cases (csv_error err) b o h l = h
either_csv_cases (ready v) b o h l = inr (v, refl)
either_csv_cases not_ready true o h l = l
either_csv_cases not_ready false o h l = inl refl

either_csv-IsReady :
    (r : CsvResult) (b : Bool) (o : CsvResult)
    → b ≡ true
    → IsWithoutError r
    → IsReady o
    → IsReady (either_csv r b o)
either_csv-IsReady (csv_error err) b o k (inl e) l = absurd (cc)
either_csv-IsReady (csv_error err) b o k (inr e) l = e
either_csv-IsReady (ready v) b o k h l = (v, refl)
either_csv-IsReady not_ready true o k h l = l
either_csv-IsReady not_ready false o k h l = absurd (cc)

return_or-Arrives :
    (r : CsvResult) (later : Returns String)
    → IsWithoutError r
    → Arrives later
    → Arrives (return_or r later)
return_or-Arrives (csv_error err) later (inl e) k = absurd (cc)
return_or-Arrives (csv_error err) later (inr (v, e)) k = absurd (cc)
return_or-Arrives (ready v) later h k = (v, refl)
return_or-Arrives not_ready later h k = k

return_or_ends :
    (r : CsvResult) (later : Returns String) (v : String)
    → r ≡ ready v
    → Arrives (return_or r later)
return_or_ends r later v e = (v, ap (λ x. return_or x later) e)

third :
    (n : ℕ)
    → (nat_eq (suc n % 3) 0 ≡ true)
      ⊎ ((nat_eq (suc (suc n) % 3) 0 ≡ true) ⊎ (nat_eq (suc (suc (suc n)) % 3) 0 ≡ true))
third n = ground arith

module _ {C : Type 0} (not_found : NotFoundErrors) (cluster : Cluster C)
    (namespace sub_name : String) where
  -- The installed CSV of a subscription is not there yet, or it can be read and has not failed.
  abbrev pub HasNotFailed : C → Subscription → Type 0
  HasNotFailed c sub =
      ((sub.installed_csv == "") ≡ true)
      ⊎ (((err : Error) × ((cluster.get_csv c namespace sub.installed_csv ≡ fail err)
              × (not_found.is_not_found err ≡ true)))
          ⊎ ((csv : Csv) × ((cluster.get_csv c namespace sub.installed_csv ≡ ok csv)
                × ((csv.phase == "Failed") ≡ false))))

  -- No subscription, or one whose resolution and whose installed CSV have not failed.
  abbrev pub IsSound : C → Option Subscription → Type 0
  IsSound c none = Unit
  IsSound c (some sub) =
      All (λ cond. (cond.kind == "ResolutionFailed" && cond.status == "True") ≡ false)
        sub.conditions
      × HasNotFailed c sub

  -- The subscription can be read, and is sound.
  abbrev pub HasSoundSubscription : C → Type 0
  HasSoundSubscription c =
      (o : Option Subscription) × ((get_subscription not_found cluster c namespace sub_name ≡ ok o)
        × IsSound c o)

  -- A sound subscription, and the CSVs of the namespace can be listed.
  abbrev pub IsCalm : C → Type 0
  IsCalm c =
      HasSoundSubscription c × ((csvs : List Csv) × (cluster.list_csvs c namespace ≡ ok csvs))

  -- A sound subscription, and a succeeded CSV that matches it is listed.
  abbrev pub IsVisible : C → Type 0
  IsVisible c =
      HasSoundSubscription c
      × ((csvs : List Csv) × ((cluster.list_csvs c namespace ≡ ok csvs)
            × Some
                (λ csv. (csv.phase == "Succeeded" && matches_subscription csv.name sub_name) ≡ true)
                csvs))

  no_failure :
      (cs : List SubscriptionCondition)
      → All (λ cond. (cond.kind == "ResolutionFailed" && cond.status == "True") ≡ false) cs
      → resolution_failure cs ≡ none
  no_failure [] h = refl
  no_failure (c ∷ cs) (e, h) = rw e (no_failure cs h)

  result_of_phase-IsWithoutError :
      (csv : Csv) → (csv.phase == "Failed") ≡ false → IsWithoutError (result_of_phase csv)
  result_of_phase-IsWithoutError csv e = elim (Bool-cases (csv.phase == "Succeeded")) [
    | inl s ↦ rw s (inr (csv.version, refl))
    | inr s ↦ rw (s, e) (inl refl)
  ]

  csv_of_subscription-IsWithoutError :
      (c : C) (sub : Subscription)
      → IsSound c (some sub)
      → IsWithoutError (csv_of_subscription not_found cluster c namespace sub)
  unfolding csv_of_subscription
  csv_of_subscription-IsWithoutError c sub (h, f) = rw (no_failure sub.conditions h) (elim f [
    | inl e ↦ rw e (inl refl)
    | inr g ↦ elim (Bool-cases (sub.installed_csv == "")) [
      | inl e ↦ rw e (inl refl)
      | inr e ↦ rw e (elim g [
        | inl (err, (q, n)) ↦ rw (q, n) (inl refl)
        | inr (csv, (q, n)) ↦ rw q (result_of_phase-IsWithoutError csv n)
      ])
    ]
  ])

  of_subscription-IsWithoutError :
      (c : C) (o : Option Subscription)
      → IsSound c o
      → IsWithoutError (of_subscription (csv_of_subscription not_found cluster c namespace) (ok o))
  of_subscription-IsWithoutError c none h = inl refl
  of_subscription-IsWithoutError c (some sub) h = csv_of_subscription-IsWithoutError c sub h

  try_csv-IsWithoutError :
      (c : C)
      → HasSoundSubscription c
      → IsWithoutError (try_csv_from_subscription not_found cluster c namespace sub_name)
  unfolding try_csv_from_subscription
  try_csv-IsWithoutError c (o, (e, h)) =
      subst
        (λ r.
          IsWithoutError (of_subscription (csv_of_subscription not_found cluster c namespace) r))
        (sym e) (of_subscription-IsWithoutError c o h)

  of_found-IsWithoutError : (o : Option Csv) → IsWithoutError (of_found o)
  of_found-IsWithoutError none = inl refl
  of_found-IsWithoutError (some csv) = inr (csv.version, refl)

  list-IsWithoutError :
      (c : C) (csvs : List Csv)
      → cluster.list_csvs c namespace ≡ ok csvs
      → IsWithoutError (find_succeeded_csv_in_namespace not_found cluster c namespace sub_name)
  unfolding find_succeeded_csv_in_namespace
  list-IsWithoutError c csvs e = rw e (of_found-IsWithoutError (first_succeeded sub_name csvs))

  first_succeeded-IsReady :
      (csvs : List Csv)
      → Some
          (λ csv. (csv.phase == "Succeeded" && matches_subscription csv.name sub_name) ≡ true)
          csvs
      → IsReady (of_found (first_succeeded sub_name csvs))
  first_succeeded-IsReady [] h = absurd h
  first_succeeded-IsReady (csv ∷ csvs) h =
      elim (Bool-cases (csv.phase == "Succeeded" && matches_subscription csv.name sub_name)) [
        | inl e ↦ rw e (csv.version, refl)
        | inr e ↦
            rw e (elim h [ inl f ↦ absurd (cc (e, f)) | inr k ↦ first_succeeded-IsReady csvs k ])
      ]

  list-IsReady :
      (c : C)
      → IsVisible c
      → IsReady (find_succeeded_csv_in_namespace not_found cluster c namespace sub_name)
  unfolding find_succeeded_csv_in_namespace
  list-IsReady c (h, (csvs, (e, k))) = rw e (first_succeeded-IsReady csvs k)

  poll_csv_cases :
      (n : ℕ) (c : C)
      → IsCalm c
      → IsWithoutError (poll_csv not_found cluster n c namespace sub_name)
  unfolding poll_csv
  poll_csv_cases n c (h, (csvs, e)) =
      either_csv_cases _ (nat_eq (n % 3) 0) _ (try_csv-IsWithoutError c h)
        (list-IsWithoutError c csvs e)

  poll_csv-IsVisible :
      (n : ℕ) (c : C)
      → nat_eq (n % 3) 0 ≡ true
      → IsVisible c
      → IsReady (poll_csv not_found cluster n c namespace sub_name)
  unfolding poll_csv
  poll_csv-IsVisible n c k v =
      either_csv-IsReady _ (nat_eq (n % 3) 0) _ k (try_csv-IsWithoutError c v.0) (list-IsReady c v)

  -- A poll that does not fail leaves the wait to the rest, or ends it.
  wait_step :
      (expiry : Expiry) (n : ℕ) (c : C) (states : List C)
      → IsWithoutError (poll_csv not_found cluster (suc n) c namespace sub_name)
      → Arrives (wait_for_csv not_found cluster expiry namespace sub_name (suc n) states)
      → Arrives (wait_for_csv not_found cluster expiry namespace sub_name n (c ∷ states))
  unfolding wait_for_csv
  wait_step expiry n c states h k = return_or-Arrives _ _ h k

  wait_ends :
      (expiry : Expiry) (n : ℕ) (c : C) (states : List C)
      → IsReady (poll_csv not_found cluster (suc n) c namespace sub_name)
      → Arrives (wait_for_csv not_found cluster expiry namespace sub_name n (c ∷ states))
  unfolding wait_for_csv
  wait_ends expiry n c states (v, e) = return_or_ends _ _ v e

  IsCalm-of_IsVisible : (c : C) → IsVisible c → IsCalm c
  IsCalm-of_IsVisible c (a, (csvs, (e, k))) = (a, (csvs, e))

  wait_three :
      (expiry : Expiry) (n : ℕ) (c d e : C) (rest : List C)
      → IsVisible c
      → IsVisible d
      → IsVisible e
      → Arrives (wait_for_csv not_found cluster expiry namespace sub_name n (c ∷ d ∷ e ∷ rest))
  wait_three expiry n c d e rest hc hd he = elim (third n) [
    | inl k ↦ wait_ends expiry n c _ (poll_csv-IsVisible _ c k hc)
    | inr (inl k) ↦
        wait_step expiry n c _ (poll_csv_cases _ c (IsCalm-of_IsVisible c hc))
          (wait_ends expiry _ d _ (poll_csv-IsVisible _ d k hd))
    | inr (inr k) ↦ wait_step expiry n c _ (poll_csv_cases _ c (IsCalm-of_IsVisible c hc)) (
        wait_step expiry _ d _ (poll_csv_cases _ d (IsCalm-of_IsVisible d hd))
          (wait_ends expiry _ e _ (poll_csv-IsVisible _ e k he)))
  ]

  -- Suppose that in every poll the subscription can be read, with no failed resolution and no failed
  -- installed CSV, and the CSVs of the namespace can be listed. If in three polls in a row a succeeded
  -- CSV that matches the subscription is among those, waitForCSV returns a version by the third of
  -- them, however many polls came before, and even if the subscription never names an installed CSV.
  pub wait_for_csv-Arrives :
      (expiry : Expiry) (n : ℕ) (before : List C) (c d e : C) (rest : List C)
      → All IsCalm before
      → IsVisible c
      → IsVisible d
      → IsVisible e
      → Arrives
          (wait_for_csv not_found cluster expiry namespace sub_name n (before ++ c ∷ d ∷ e ∷ rest))
  wait_for_csv-Arrives expiry n [] c d e rest h hc hd he = wait_three expiry n c d e rest hc hd he
  wait_for_csv-Arrives expiry n (b ∷ before) c d e rest (h, hs) hc hd he =
      wait_step expiry n b _ (poll_csv_cases _ b h)
        (wait_for_csv-Arrives expiry (suc n) before c d e rest hs hc hd he)
