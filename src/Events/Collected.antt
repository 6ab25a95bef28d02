-- ===== src/Events/Collected.antt =====
-- The two loops of pkg/events/filter.go that collect the objects of events and the results of their
-- lookups.
use odh_cli.Base.{
  ◌≡◌, refl, sym, ◌∙◌, ap, subst, ◌⊎◌, inl, inr, String, Bool, true, false, ◌&&◌, ◌==◌, some, List,
  [], ◌∷◌, ◌++◌, map, keep, All, All-append, Some, In, Some-append_left, Some-append_right,
  Bool-cases, eq_iff, arith, lookup, insert, lookup-insert, if◌then◌else◌,
}
use odh_cli.Errors.{Error}
use odh_cli.Errors.Returns.{Returns, ok, fail}
use odh_cli.Events.{EventInfo}
use odh_cli.Events.Labels.{LabelLookup}
use odh_cli.Events.Listing.{lookup_of, is_seen, collect_lookups, LabelResult, collect_results}

abbrev pub IsOk : {B : Type 0} → Returns B → Type 0
IsOk {B} r = (b : B) × (r ≡ ok b)

abbrev pub IsFailure : {B : Type 0} → Returns B → Type 0
IsFailure r = (err : Error) × (r ≡ fail err)

abbrev pub ok_true : Returns Bool → Bool
ok_true (ok b) = b
ok_true (fail err) = false

pub keep_eq :
    {A : Type 0} (p q : A → Bool) (xs : List A) → All (λ x. p x ≡ q x) xs → keep p xs ≡ keep q xs
keep_eq p q [] h = refl
keep_eq p q (x ∷ xs) (e, h) = rw (e, keep_eq p q xs h) refl

pub All-map :
    {A B : Type 0} (P : B → Type 0) (f : A → B) (xs : List A)
    → All (λ x. P (f x)) xs
    → All P (map f xs)
All-map P f [] h = tt
All-map P f (x ∷ xs) (p, h) = (p, All-map P f xs h)

pub Some-map :
    {A B : Type 0} (P : B → Type 0) (f : A → B) (a : A) (xs : List A)
    → P (f a)
    → In a xs
    → Some P (map f xs)
Some-map P f a [] p i = absurd i
Some-map P f a (x ∷ xs) p (inl e) = inl (subst (λ y. P (f y)) (sym e) p)
Some-map P f a (x ∷ xs) p (inr i) = inr (Some-map P f a xs p i)

is_seen-In : (ls : List LabelLookup) (l : LabelLookup) → is_seen ls l ≡ true → In l ls
is_seen-In [] l h = absurd (cc h)
is_seen-In (m ∷ ms) l h =
    elim (Bool-cases (m.namespace == l.namespace && (m.kind == l.kind && m.name == l.name))) [
      | inl e ↦
          let e₁ : m.namespace ≡ l.namespace = ground (arith, eq_iff m.namespace l.namespace) in
          let e₂ : m.kind ≡ l.kind = ground (arith, eq_iff m.kind l.kind) in
          let e₃ : m.name ≡ l.name = ground (arith, eq_iff m.name l.name) in
          inl (λ i. record { namespace = e₁ i; kind = e₂ i; name = e₃ i })
      | inr e ↦ inr (is_seen-In ms l (ground arith))
    ]

-- The collected objects are those that were there, and those of the events.
pub In-collect_lookups :
    (es : List EventInfo) (ls : List LabelLookup) (l : LabelLookup)
    → (In l ls → In l (collect_lookups es ls))
      × (Some (λ e. lookup_of e ≡ l) es → In l (collect_lookups es ls))
unfolding collect_lookups
In-collect_lookups [] ls l = (λ i. i, λ b. absurd b)
In-collect_lookups (e ∷ es) ls l = elim (Bool-cases (is_seen ls (lookup_of e))) [
  | inl s ↦ rw s (
      let (old, new) = In-collect_lookups es ls l in
      (
        old,
        λ i. elim i [
          | inl q ↦ old (subst (λ m. In m ls) q (is_seen-In ls (lookup_of e) s))
          | inr j ↦ new j
        ],
      ))
  | inr s ↦ rw s (
      let (old, new) = In-collect_lookups es (ls ++ lookup_of e ∷ []) l in
      (
        λ i. old (Some-append_left _ ls _ i),
        λ i. elim i [ inl q ↦ old (Some-append_right _ ls _ (inl q)) | inr j ↦ new j ],
      ))
]

pub collected :
    (P : LabelLookup → Type 0) (es : List EventInfo) (ls : List LabelLookup)
    → All P ls
    → All (λ e. P (lookup_of e)) es
    → All P (collect_lookups es ls)
unfolding collect_lookups
collected P [] ls h k = h
collected P (e ∷ es) ls h (p, k) = elim (Bool-cases (is_seen ls (lookup_of e))) [
  | inl s ↦ rw s (collected P es ls h k)
  | inr s ↦ rw s (collected P es (ls ++ lookup_of e ∷ []) (All-append P ls _ h (p, tt)) k)
]

-- What the loop over the results knows of a key: its value, which is in the cache or still to come.
abbrev pub Settles : List LabelResult → List (String × Bool) → String → Bool → Type 0
Settles rs cache k b =
    All (λ r. r.0 ≡ k → r.1 ≡ ok b) rs × ((lookup cache k ≡ some b) ⊎ Some (λ r. r.0 ≡ k) rs)

Settles-next :
    (k' k : String) (b' b : Bool) (rs : List LabelResult) (cache : List (String × Bool))
    → Settles ((k', ok b') ∷ rs) cache k b
    → Settles rs (insert cache k' b') k b
Settles-next k' k b' b rs cache ((h, hs), found) =
    let e = lookup-insert cache k' k b' in
    elim (Bool-cases (k' == k)) [
      | inl q ↦
          let v = ap (λ o. elim o [ ok x ↦ x | fail err ↦ b ]) (h ((eq_iff k' k).0 q)) in
          (hs, inl (e ∙ ap (λ t. if t then some b' else lookup cache k) q ∙ ap some v))
      | inr q ↦ (
        hs,
        elim found [
          | inl l ↦ inl (e ∙ ap (λ t. if t then some b' else lookup cache k) q ∙ l)
          | inr (inl f) ↦ absurd (cc ((eq_iff k' k).1 f, q))
          | inr (inr s) ↦ inr s
        ],
      )
    ]

pub collect_results-ok :
    (rs : List LabelResult) (cache : List (String × Bool))
    → All (λ r. IsOk r.1) rs
    → (m : List (String × Bool)) × ((collect_results rs cache ≡ ok m)
        × ((k : String) (b : Bool) → Settles rs cache k b → lookup m k ≡ some b))
unfolding collect_results
collect_results-ok [] cache h =
    (cache, (refl, λ k b (h', f). elim f [ inl e ↦ e | inr s ↦ absurd s ]))
collect_results-ok ((k', fail err) ∷ rs) cache ((b', e), hs) = absurd (cc e)
collect_results-ok ((k', ok b') ∷ rs) cache (o, hs) =
    let (m, (e, f)) = collect_results-ok rs (insert cache k' b') hs in
    (m, (e, λ k b s. f k b (Settles-next k' k b' b rs cache s)))

pub collect_results-fail :
    (rs : List LabelResult) (cache : List (String × Bool))
    → Some (λ r. IsFailure r.1) rs
    → IsFailure (collect_results rs cache)
unfolding collect_results
collect_results-fail [] cache h = absurd h
collect_results-fail ((k, fail err) ∷ rs) cache h = (_, refl)
collect_results-fail ((k, ok b) ∷ rs) cache (inl (err, e)) = absurd (cc e)
collect_results-fail ((k, ok b) ∷ rs) cache (inr h) = collect_results-fail rs (insert cache k b) h
