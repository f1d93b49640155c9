-- ===== src/Dial/Cached.antt =====
-- lib/attack.go, `DNSCaching`: the dial function over the cache. The cache, the shuffle, the dial function
-- behind it and the order in which its results arrive are parameters.
use vegeta.Prelude.{
  ◌≡◌, refl, sym, ap, ◌∙◌, ◌⊎◌, inl, inr, Bool, false, Option, none, some, List, [], ◌∷◌, map, All,
  Any, if◌then◌else◌,
}
use vegeta.Prelude.Text.{Text, is_empty}
use vegeta.Outcome.{Fallible, ok, err}
use vegeta.Dial.{first_of_each_ip_family}
use vegeta.Dial.Families.{one_of_each, one_of_each-nil, first_of_each_ip_family_lem}

pub data DialError (E : Type 0) : Type 0 where
  bad_address : DialError E
  lookup_failed : Text → DialError E
  no_such_host : Text → DialError E
  dial_failed : E → DialError E

map-map :
    {A B D : Type 0} (f : B → D) (g : A → B) (xs : List A)
    → map f (map g xs) ≡ map (λ x. f (g x)) xs
map-map f g [] = refl
map-map f g (x ∷ xs) = ap (λ ys. f (g x) ∷ ys) (map-map f g xs)

map-nil : {A B : Type 0} (f : A → B) (xs : List A) → map f xs ≡ [] → xs ≡ []
map-nil f [] e = refl
map-nil f (x ∷ xs) e = absurd (cc)

module _ {C E : Type 0} where
  -- The loop over the results as they arrive, with the connection and the error so far.
  unfoldable pub collect :
      Option C → Option (DialError E) → List (Fallible E C) → Option C × Option (DialError E)
  collect conn e [] = (conn, e)
  collect (some c) e (r ∷ rs) = collect (some c) e rs
  collect none e (ok c ∷ rs) = collect (some c) none rs
  collect none e (err x ∷ rs) = collect none (some (dial_failed x)) rs

  module _ (split_host_port : Text → Option (Text × Text)) (join_host_port : Text → Text → Text)
      (lookup_host : Text → Fallible Text (List Text)) (shuffle : List Text → List Text)
      (parse_ip : Text → Option Bool) (dial : Text → Fallible E C)
      (arrive : List (Fallible E C) → List (Fallible E C)) where
    -- The addresses that are dialled: an IP of each family, with the port.
    abbrev pub dialled : Text → List Text → List Text
    dialled port ips =
        map (λ ip. join_host_port ip port) (first_of_each_ip_family parse_ip (shuffle ips))

    -- The dial function, from the address to a connection and an error.
    unfoldable pub dial_cached : Text → Option C × Option (DialError E)
    unfolding collect first_of_each_ip_family
    dial_cached addr = elim (split_host_port addr) [
      | none ↦ (none, some bad_address)
      | some (host, port) ↦ elim (lookup_host host) [
        | err e ↦ (none, some (lookup_failed e))
        | ok ips ↦
            if is_empty ips
            then (none, some (no_such_host addr))
            else collect none none (arrive (map dial (dialled port ips)))
      ]
    ]

  abbrev pub IsConnected : Fallible E C → Type 0
  IsConnected (ok c) = Unit
  IsConnected (err e) = ⊥

  abbrev pub HasFailed : Fallible E C → Type 0
  HasFailed (ok c) = ⊥
  HasFailed (err e) = Unit

  -- How the results are summed up: a connection of one of them and no error; no connection, and an error of
  -- one of them, as all have failed; or, of no results, neither.
  abbrev pub SummedUp : List (Fallible E C) → Option C × Option (DialError E) → Type 0
  SummedUp rs out =
      ((c : C) × (out ≡ (some c, none)) × Any (λ r. r ≡ ok c) rs)
      ⊎ ((e : E) × (out ≡ (none, some (dial_failed e)))
          × Any (λ r. r ≡ err e) rs
          × All HasFailed rs)
      ⊎ ((out ≡ (none, none)) × (rs ≡ []))

  collect-kept :
      (c : C) (e : Option (DialError E)) (rs : List (Fallible E C))
      → collect (some c) e rs ≡ (some c, e)
  unfolding collect
  collect-kept c e [] = refl
  collect-kept c e (r ∷ rs) = collect-kept c e rs

  -- Behind a failure.
  collect-failed :
      (x : E) (rs : List (Fallible E C))
      → ((c : C) × (collect none (some (dial_failed x)) rs ≡ (some c, none))
          × Any (λ r. r ≡ ok c) rs)
        ⊎ ((e : E) × (collect none (some (dial_failed x)) rs ≡ (none, some (dial_failed e)))
            × ((e ≡ x) ⊎ Any (λ r. r ≡ err e) rs)
            × All HasFailed rs)
  unfolding collect
  collect-failed x [] = inr (x, refl, inl refl, tt)
  collect-failed x (ok c ∷ rs) = inl (c, collect-kept c none rs, inl refl)
  collect-failed x (err y ∷ rs) = elim (collect-failed y rs) [
    | inl (c, e, h) ↦ inl (c, e, inr h)
    | inr (z, e, inl same, all) ↦ inr (z, e, inr (inl (ap err (sym same))), (tt, all))
    | inr (z, e, inr h, all) ↦ inr (z, e, inr (inr h), (tt, all))
  ]

  collect-SummedUp : (rs : List (Fallible E C)) → SummedUp rs (collect none none rs)
  unfolding collect
  collect-SummedUp [] = inr (inr (refl, refl))
  collect-SummedUp (ok c ∷ rs) = inl (c, collect-kept c none rs, inl refl)
  collect-SummedUp (err x ∷ rs) = elim (collect-failed x rs) [
    | inl (c, e, h) ↦ inl (c, e, inr h)
    | inr (z, e, inl same, all) ↦ inr (inl (z, e, inl (ap err (sym same)), (tt, all)))
    | inr (z, e, inr h, all) ↦ inr (inl (z, e, inr h, (tt, all)))
  ]

  -- The results arrive in some order, and no other arrives.
  pub record IsArrival (arrive : List (Fallible E C) → List (Fallible E C)) : Type 1 where
    pub any : (P : Fallible E C → Type 0) (rs : List (Fallible E C)) → Any P (arrive rs) → Any P rs
    pub all : (P : Fallible E C → Type 0) (rs : List (Fallible E C)) → All P (arrive rs) → All P rs
    pub nothing : (rs : List (Fallible E C)) → arrive rs ≡ [] → rs ≡ []

  -- How the results of the dials are answered, for the candidates that they were chosen from: as they are
  -- summed up, and neither a connection nor an error only if no candidate is an IP.
  abbrev pub Answers :
      (Text → Option Bool)
      → List Text
      → List (Fallible E C)
      → Option C × Option (DialError E)
      → Type 0
  Answers parse_ip candidates rs out =
      ((c : C) × (out ≡ (some c, none)) × Any (λ r. r ≡ ok c) rs)
      ⊎ ((e : E) × (out ≡ (none, some (dial_failed e)))
          × Any (λ r. r ≡ err e) rs
          × All HasFailed rs)
      ⊎ ((out ≡ (none, none)) × All (λ ip. parse_ip ip ≡ none) candidates)

  -- Of a host that the cache knows addresses of, the dial function dials, of these addresses in the order
  -- of the shuffle, the first that is an IP and the first behind it that is an IP of the other family. It
  -- gives a connection of theirs and no error if one of them is dialled, whichever arrives first; the
  -- error of one if all fail; and neither a connection nor an error only if none of the addresses is an
  -- IP.
  pub dial_cached-Answers :
      (split_host_port : Text → Option (Text × Text)) (join_host_port : Text → Text → Text)
      (lookup_host : Text → Fallible Text (List Text)) (shuffle : List Text → List Text)
      (parse_ip : Text → Option Bool) (dial : Text → Fallible E C)
      (arrive : List (Fallible E C) → List (Fallible E C))
      → IsArrival arrive
      → (addr host port : Text) (ips : List Text) → split_host_port addr ≡ some (host, port)
      → lookup_host host ≡ ok ips
      → is_empty ips ≡ false
      → Answers parse_ip
          (shuffle ips)
          (map (λ ip. dial (join_host_port ip port)) (one_of_each parse_ip (shuffle ips)))
          (dial_cached split_host_port join_host_port lookup_host shuffle parse_ip dial arrive addr)
  unfolding dial_cached
  dial_cached-Answers split join look shuffle parse_ip dial arrive order addr host port ips e f g =
      let chosen = one_of_each parse_ip (shuffle ips) in
      let rs = map (λ ip. dial (join ip port)) chosen in
      let same : map dial (dialled split join look shuffle parse_ip dial arrive port ips) ≡ rs =
        map-map dial (λ ip. join ip port) (first_of_each_ip_family parse_ip (shuffle ips))
        ∙ ap (map (λ ip. dial (join ip port)))
            (first_of_each_ip_family_lem parse_ip (shuffle ips)) in
      rw (dial_cached, e, f, g, same)
        (elim (collect-SummedUp (arrive rs)) [
          | inl (c, h, some_c) ↦ inl (c, h, order.any (λ r. r ≡ ok c) rs some_c)
          | inr (inl (x, h, some_x, failed)) ↦
              inr (inl (x, h, order.any (λ r. r ≡ err x) rs some_x, order.all HasFailed rs failed))
          | inr (inr (h, nothing)) ↦ inr (
              inr (
                h,
                one_of_each-nil parse_ip (shuffle ips)
                    (map-nil (λ ip. dial (join ip port)) chosen (order.nothing rs nothing)),
              ))
        ])
