-- ===== src/Olm/Highest.antt =====
-- The channel that selectChannel of pkg/util/kube/olm/channel.go selects.
use odh_cli.Base.{
  ◌≡◌, refl, sym, ◌∙◌, ap, subst, ◌⊎◌, inl, inr, String, Bool, true, false, ◌==◌, Option, none,
  some, List, [], ◌∷◌, All, Some, In, In-All, has, has→In, In→has, ◌↔◌, not, Bool-cases,
  if◌then◌else◌,
}
use odh_cli.Base.Strings.{trim_space}
use odh_cli.Errors.Returns.{ok, fail, ok-injective}
use odh_cli.Olm.Channel.{
  version_of, better, best_channel, channel_or_default, select_channel, CatalogEntry, read_catalog,
  missing, offered, resolve_catalog_channel,
}

module _ {V : Type 0} (parse : String → Option V) (gt : V → V → Bool)
    (gt_irrefl : (v : V) → gt v v ≡ false)
    (gt_trans : (u v w : V) → gt u v ≡ true → gt v w ≡ true → gt u w ≡ true) where
  -- The channel has no version above v.
  abbrev pub IsAtMost : V → String → Type 0
  IsAtMost v name = (w : V) → version_of parse gt name ≡ some w → gt w v ≡ false

  -- The best channel so far: none while no channel has a version, or one that no channel is above.
  abbrev IsBest : Option (String × V) → List String → Type 0
  IsBest none names = All (λ n. version_of parse gt n ≡ none) names
  IsBest (some (c, v)) names =
      In c names × ((version_of parse gt c ≡ some v) × All (IsAtMost v) names)

  IsAtMost-gt :
      (v w : V) (names : List String)
      → gt v w ≡ true
      → All (IsAtMost w) names
      → All (IsAtMost v) names
  IsAtMost-gt v w [] g h = tt
  IsAtMost-gt v w (n ∷ names) g (a, h) = (
    λ u e. elim (Bool-cases (gt u v)) [
      | inr f ↦ f
      | inl t ↦ absurd (cc (gt_trans u v w t g, a u e))
    ],
    IsAtMost-gt v w names g h,
  )

  -- A list of channels without a version is at most everything.
  IsAtMost-none :
      (v : V) (names : List String)
      → All (λ n. version_of parse gt n ≡ none) names
      → All (IsAtMost v) names
  IsAtMost-none v [] h = tt
  IsAtMost-none v (n ∷ names) (e, h) = (λ w f. absurd (cc (e, f)), IsAtMost-none v names h)

  same_version :
      (n : String) (v w : V)
      → version_of parse gt n ≡ some v
      → version_of parse gt n ≡ some w
      → gt w v ≡ false
  same_version n v w e f =
      let q : v ≡ w = ap (λ o. elim o [ none ↦ v | some x ↦ x ]) (sym e ∙ f) in
      subst (λ x. gt x v ≡ false) q (gt_irrefl v)

  better-IsBest :
      (best : Option (String × V)) (n : String) (o : Option V) (names : List String)
      → version_of parse gt n ≡ o
      → IsBest best names
      → IsBest (better parse gt best n o) (n ∷ names)
  better-IsBest none n none names e h = (e, h)
  better-IsBest (some (c, w)) n none names e (i, (q, h)) =
      (inr i, (q, (λ u f. absurd (cc (e, f)), h)))
  better-IsBest none n (some v) names e h =
      (inl refl, (e, (λ u f. same_version n v u e f, IsAtMost-none v names h)))
  better-IsBest (some (c, w)) n (some v) names e (i, (q, h)) = elim (Bool-cases (gt v w)) [
    | inl t ↦ rw t (inl refl, (e, (λ u f. same_version n v u e f, IsAtMost-gt v w names t h)))
    | inr f ↦ rw f (
      inr i,
      (
        q,
        (
          λ u g.
              let x : v ≡ u = ap (λ o. elim o [ none ↦ v | some y ↦ y ]) (sym e ∙ g) in
              subst (λ y. gt y w ≡ false) x f,
          h,
        ),
      ),
    )
  ]

  abbrev reverse_onto : List String → List String → List String
  reverse_onto [] seen = seen
  reverse_onto (n ∷ names) seen = reverse_onto names (n ∷ seen)

  All-reverse_onto :
      (P : String → Type 0) (names seen : List String)
      → All P (reverse_onto names seen)
      → All P names × All P seen
  All-reverse_onto P [] seen h = (tt, h)
  All-reverse_onto P (n ∷ names) seen h =
      let (k, (p, l)) = All-reverse_onto P names (n ∷ seen) h in ((p, k), l)

  In-reverse_onto :
      (a : String) (names seen : List String)
      → In a (reverse_onto names seen)
      → In a names ⊎ In a seen
  In-reverse_onto a [] seen i = inr i
  In-reverse_onto a (n ∷ names) seen i = elim (In-reverse_onto a names (n ∷ seen) i) [
    | inl j ↦ inl (inr j)
    | inr (inl e) ↦ inl (inl e)
    | inr (inr j) ↦ inr j
  ]

  best_channel-reverse_onto :
      (names : List String) (best : Option (String × V)) (seen : List String)
      → IsBest best seen
      → IsBest (best_channel parse gt best names) (reverse_onto names seen)
  unfolding best_channel
  best_channel-reverse_onto [] best seen h = h
  best_channel-reverse_onto (n ∷ names) best seen h =
      best_channel-reverse_onto names (better parse gt best n (version_of parse gt n)) (n ∷ seen)
        (better-IsBest best n (version_of parse gt n) seen refl h)

  best_lem :
      (best : Option (String × V)) (names : List String)
      → IsBest best (reverse_onto names [])
      → IsBest best names
  best_lem none names h = (All-reverse_onto _ names [] h).0
  best_lem (some (c, v)) names (i, (q, h)) = (
    elim (In-reverse_onto c names [] i) [ inl j ↦ j | inr b ↦ absurd b ],
    (q, (All-reverse_onto _ names [] h).0),
  )

  -- The channel has a version, and no channel of the list has one above it.
  abbrev pub IsHighest : String → List String → Type 0
  IsHighest c names =
      (v : V) × (In c names × ((version_of parse gt c ≡ some v) × All (IsAtMost v) names))

  abbrev pub HasVersion : List String → Type 0
  HasVersion names = Some (λ n. (v : V) × (version_of parse gt n ≡ some v)) names

  no_version :
      (names : List String) → HasVersion names → All (λ n. version_of parse gt n ≡ none) names → ⊥
  no_version [] s h = s
  no_version (n ∷ names) (inl (v, e)) (f, h) = cc (e, f)
  no_version (n ∷ names) (inr i) (f, h) = no_version names i h

  chosen-IsHighest :
      (best : Option (String × V)) (names : List String) (default_channel : String)
      → IsBest best names
      → HasVersion names
      → (c : String) × ((channel_or_default parse gt best default_channel ≡ ok c)
          × IsHighest c names)
  chosen-IsHighest none names d h s = absurd (no_version names s h)
  chosen-IsHighest (some (c, v)) names d (i, (q, h)) s = (c, (refl, (v, (i, (q, h)))))

  chosen_default :
      (best : Option (String × V)) (names : List String)
      → IsBest best names
      → All (λ n. version_of parse gt n ≡ none) names
      → best ≡ none
  chosen_default none names h k = refl
  chosen_default (some (c, v)) names (i, (q, h)) k = absurd (cc (In-All _ c names i k, q))

  resolve_lem :
      (entries : List CatalogEntry) (package_name : String)
      → let k = read_catalog package_name entries in
        k.package_found ≡ true
        → resolve_catalog_channel parse gt entries none package_name
          ≡ offered package_name k.channels (
              channel_or_default parse gt (best_channel parse gt none k.channels) k.default_channel)
  unfolding resolve_catalog_channel select_channel
  resolve_lem entries package_name found =
      let k = read_catalog package_name entries in
      ap
        (λ b.
          if not b
          then fail (missing package_name)
          else offered package_name k.channels
              (select_channel parse gt k.channels k.default_channel))
        found

  offered_lem : (p c : String) (names : List String) → In c names → offered p names (ok c) ≡ ok c
  offered_lem p c names i = rw (In→has names c i) refl

  offered_default :
      (p d : String) (names : List String) (c : String)
      → offered p names (channel_or_default parse gt none d) ≡ ok c
        ↔ (c ≡ d) × (((trim_space d == "") ≡ false) × In c names)
  offered_default p d names c = elim (Bool-cases (trim_space d == "")) [
    | inl e ↦ rw e ((λ q. absurd (cc q)), λ (x, (y, z)). absurd (cc y))
    | inr e ↦ rw e (elim (Bool-cases (has names d)) [
      | inl f ↦ rw f (
        (λ q.
            let same = ok-injective q in
            (sym same, (refl, subst (λ x. In x names) same (has→In names d f)))),
        λ (x, (y, z)). ap ok (sym x),
      )
      | inr f ↦ rw f (
        (λ q. absurd (cc q)),
        λ (x, (y, z)). absurd (cc (f, In→has names d (subst (λ u. In u names) x z))),
      )
    ])
  ]

  -- Where the order of versions is irreflexive and transitive, and a catalog that is read to its end
  -- has an entry of the package: if some channel of the package has a version, the result of
  -- ResolveCatalogChannel is a channel of the package with a version such that no channel of the
  -- package has one above it; otherwise the result is the default channel, if it is not blank and is
  -- a channel of the package, and an error in all other cases.
  pub resolve_catalog_channel_lem :
      (entries : List CatalogEntry) (package_name : String)
      → let k = read_catalog package_name entries in
        k.package_found ≡ true
        → (HasVersion k.channels
            → (c : String) × ((resolve_catalog_channel parse gt entries none package_name ≡ ok c)
                × IsHighest c k.channels))
          × (All (λ n. version_of parse gt n ≡ none) k.channels
              → (c : String)
              → resolve_catalog_channel parse gt entries none package_name ≡ ok c
                ↔ (c ≡ k.default_channel)
                  × (((trim_space k.default_channel == "") ≡ false) × In c k.channels))
  resolve_catalog_channel_lem entries package_name found =
      let k = read_catalog package_name entries in
      let best = best_channel parse gt none k.channels in
      let h = best_lem best k.channels (best_channel-reverse_onto k.channels none [] tt) in
      let r = resolve_lem entries package_name found in
      (
        λ s.
            let (c, (q, highest)) = chosen-IsHighest best k.channels k.default_channel h s in
            (
              c,
              (
                r
                    ∙ ap (offered package_name k.channels) q
                    ∙ offered_lem package_name c k.channels highest.1.0,
                highest,
              ),
            ),
        λ n c.
            let q =
              ap
                (λ b.
                  offered package_name k.channels (channel_or_default parse gt b k.default_channel))
                (chosen_default best k.channels h n) in
            let (f, g) = offered_default package_name k.default_channel k.channels c in
            ((λ e. f (sym q ∙ sym r ∙ e)), λ x. r ∙ q ∙ g x),
      )
