-- ===== src/Policy/Scopes.antt =====
-- Which policies are collected for a user.
use claude_code_proxy.Prelude.{
  String, Bool, true, false, Option, none, some, List, [], ◌∷◌, ◌++◌, ◌≡◌, ◌↔◌, inl, inr, refl, map,
  In, here, there, In-filter, In_of_filter, In-append_left, In-append_right, In_of_append, str_eq,
  str_eq_iff, Bool-cases, str_eq_refl, arith, filter, sym, ap, filter-none, ◌∙◌, if◌then◌else◌,
}
use mathlib.Core.Path.{fun_ext}
use mathlib.Core.Bool.{false≢true}
use claude_code_proxy.Domain.{UserRecord, PolicyRecord}
use claude_code_proxy.Policy.{
  scopes_of, collect, Scope, collect_policies_by_scope, is_global, in_scope,
}

-- A policy speaks of a user: it is active and global, or names his id, one of his groups or his
-- department.
pub data Concerns (user : UserRecord) (p : PolicyRecord) : Type 0 where
  everyone : p.scope_type ≡ "global" → Concerns user p
  by_id : p.scope_type ≡ "user" → p.scope_id ≡ user.id → Concerns user p
  by_group : p.scope_type ≡ "group" → In p.scope_id user.groups → Concerns user p
  by_department : p.scope_type ≡ "department" → user.department ≡ some p.scope_id → Concerns user p

-- The policies that the loop takes at one scope.
abbrev pick : Scope → PolicyRecord → Bool
pick (type_, none) p =
    if str_eq type_ "department"
    then false
    else if str_eq type_ "global"
    then is_global p
    else in_scope type_ none p
pick (type_, some d) p = if str_eq type_ "global" then is_global p else in_scope type_ (some d) p

filter_nothing {ℓ} :
    {A : Type ℓ} (f : A → Bool) (xs : List A) → ((x : A) → f x ≡ false) → filter f xs ≡ []
filter_nothing f xs h = filter-none f xs (λ x m. h x)

filter_same {ℓ} :
    {A : Type ℓ} (f g : A → Bool) (xs : List A) → ((x : A) → f x ≡ g x) → filter f xs ≡ filter g xs
filter_same f g xs h = ap (λ k. filter k xs) (fun_ext h)

collect_step :
    (s : Scope) (ss : List Scope) (ps : List PolicyRecord)
    → (collect (s ∷ ss) ps).1 ≡ filter (pick s) ps ++ (collect ss ps).1
unfolding collect
collect_step (type_, none) ss ps = elim (Bool-cases (str_eq type_ "department")) [
  | inl e ↦ rw (filter_nothing (pick (type_, none)) ps (λ p. rw e)) (rw e)
  | inr e ↦ elim (Bool-cases (str_eq type_ "global")) [
    | inl g ↦ rw (filter_same (pick (type_, none)) is_global ps (λ p. rw e (rw g))) (rw e (rw g))
    | inr g ↦
        rw (filter_same (pick (type_, none)) (in_scope type_ none) ps (λ p. rw e (rw g)))
          (rw e (rw g))
  ]
]
collect_step (type_, some d) ss ps = elim (Bool-cases (str_eq type_ "global")) [
  | inl g ↦ rw (filter_same (pick (type_, some d)) is_global ps (λ p. rw g)) (ground (arith, g))
  | inr g ↦
      rw (filter_same (pick (type_, some d)) (in_scope type_ (some d)) ps (λ p. rw g))
        (ground (arith, g))
]

In_collect :
    (p : PolicyRecord) (s : Scope) (ps : List PolicyRecord) {ss : List Scope}
    → In s ss
    → In p ps
    → pick s p ≡ true
    → In p (collect ss ps).1
In_collect p s ps (here {x = x} {xs = xs} e) i t = rw (collect_step x xs ps) (
    In-append_left p (collect xs ps).1
      (In-filter (pick x) p i (ap (λ (r : Scope). pick r p) (sym e) ∙ t)))
In_collect p s ps (there {x = x} {xs = xs} m) i t =
    rw (collect_step x xs ps) (In-append_right p (filter (pick x) ps) (In_collect p s ps m i t))

In_of_collect :
    (p : PolicyRecord) (ss : List Scope) (ps : List PolicyRecord)
    → In p (collect ss ps).1
    → (s : Scope) × In s ss × In p ps × (pick s p ≡ true)
unfolding collect
In_of_collect p [] ps i = elim i [ ]
In_of_collect p (s ∷ ss) ps i =
    elim (In_of_append p (filter (pick s) ps) (collect ss ps).1 (rw (collect_step s ss ps) at i)) [
      | inl l ↦ let (m, t) = In_of_filter (pick s) p ps l in (s, here refl, m, t)
      | inr r ↦ let (s', h, m, t) = In_of_collect p ss ps r in (s', there h, m, t)
    ]

In-map {ℓ κ} :
    {A : Type ℓ} {B : Type κ} (f : A → B) (a : A) {xs : List A} → In a xs → In (f a) (map f xs)
In-map f a (here e) = here (ap f e)
In-map f a (there i) = there (In-map f a i)

In_of_map {ℓ κ} :
    {A : Type ℓ} {B : Type κ} (f : A → B) (b : B) (xs : List A)
    → In b (map f xs)
    → (a : A) × In a xs × (b ≡ f a)
In_of_map f b [] i = elim i [ ]
In_of_map f b (x ∷ xs) (here e) = (x, here refl, e)
In_of_map f b (x ∷ xs) (there i) = let (a, m, e) = In_of_map f b xs i in (a, there m, e)

-- A scope with a name takes the active policies of that type and id.
pick_named :
    (type_ d : String) (p : PolicyRecord)
    → str_eq type_ "global" ≡ false
    → (pick (type_, some d) p ≡ true)
      ↔ ((p.is_active ≡ true) × (p.scope_type ≡ type_) × (p.scope_id ≡ d))
pick_named type_ d p e = ground (
  arith,
  str_eq_iff p.scope_type type_,
  str_eq_iff p.scope_id d,
  str_eq_refl type_,
  str_eq_refl d,
)

pick_global :
    (p : PolicyRecord)
    → (pick ("global", none) p ≡ true) ↔ ((p.is_active ≡ true) × (p.scope_type ≡ "global"))
pick_global p = ground (arith, str_eq_iff p.scope_type "global")

Concerns-of_pick_department :
    (user : UserRecord) (p : PolicyRecord) (o : Option String)
    → user.department ≡ o
    → pick ("department", o) p ≡ true
    → (p.is_active ≡ true) × Concerns user p
Concerns-of_pick_department user p none e t = absurd (false≢true t)
Concerns-of_pick_department user p (some d) e t =
    let (a, k, i) = (pick_named "department" d p refl).0 t in
    (a, by_department k (e ∙ ap some (sym i)))

-- The scopes that every user has.
Concerns-of_pick_shared :
    (user : UserRecord) (p : PolicyRecord) (s : Scope)
    → In s (("department", user.department) ∷ ("global", none) ∷ [])
    → pick s p ≡ true
    → (p.is_active ≡ true) × Concerns user p
Concerns-of_pick_shared user p s (here e) t =
    Concerns-of_pick_department user p user.department refl
      (ap (λ (r : Scope). pick r p) (sym e) ∙ t)
Concerns-of_pick_shared user p s (there (here e)) t =
    let (a, k) = (pick_global p).0 (ap (λ (r : Scope). pick r p) (sym e) ∙ t) in (a, everyone k)
Concerns-of_pick_shared user p s (there (there i)) t = elim i [ ]

Concerns-of_pick :
    (user : UserRecord) (p : PolicyRecord) (s : Scope)
    → In s (scopes_of user)
    → pick s p ≡ true
    → (p.is_active ≡ true) × Concerns user p
unfolding scopes_of
Concerns-of_pick user p s (here e) t =
    let (a, k, i) =
      (pick_named "user" user.id p refl).0 (ap (λ (r : Scope). pick r p) (sym e) ∙ t) in
    (a, by_id k i)
Concerns-of_pick user p s (there m) t = elim (In_of_append s (map _ user.groups) _ m) [
  | inl g ↦
      let (d, h, e) = In_of_map _ s user.groups g in
      let (a, k, i) = (pick_named "group" d p refl).0 (ap (λ (r : Scope). pick r p) (sym e) ∙ t) in
      (a, by_group k (rw i h))
  | inr r ↦ Concerns-of_pick_shared user p s r t
]

pick_of_Concerns :
    (user : UserRecord) (p : PolicyRecord)
    → p.is_active ≡ true
    → Concerns user p
    → (s : Scope) × In s (scopes_of user) × (pick s p ≡ true)
unfolding scopes_of
pick_of_Concerns user p a (everyone k) = (
  ("global", none),
  there (In-append_right _ (map _ user.groups) (there (here refl))),
  (pick_global p).1 (a, k),
)
pick_of_Concerns user p a (by_id k i) =
    (("user", some user.id), here refl, (pick_named "user" user.id p refl).1 (a, k, i))
pick_of_Concerns user p a (by_group k i) = (
  ("group", some p.scope_id),
  there (In-append_left _ _ (In-map (λ g. ("group", some g)) p.scope_id i)),
  (pick_named "group" p.scope_id p refl).1 (a, k, refl),
)
pick_of_Concerns user p a (by_department k d) = (
  ("department", some p.scope_id),
  there (
      In-append_right _ (map _ user.groups)
        (here (ap (λ (o : Option String). (let q : Scope = ("department", o) in q)) (sym d)))),
  (pick_named "department" p.scope_id p refl).1 (a, k, refl),
)

-- The policies that are collected for a user are those of the list that are active and concern him.
pub In-collect_policies_by_scope :
    (user : UserRecord) (ps : List PolicyRecord) (p : PolicyRecord)
    → In p (collect_policies_by_scope user ps).1
      ↔ (In p ps × (p.is_active ≡ true) × Concerns user p)
unfolding collect_policies_by_scope
In-collect_policies_by_scope user ps p = (into, back)
  where
    into : In p (collect (scopes_of user) ps).1 → In p ps × (p.is_active ≡ true) × Concerns user p
    into i =
        let (s, m, h, t) = In_of_collect p (scopes_of user) ps i in
        let (a, c) = Concerns-of_pick user p s m t in (h, a, c)

    back : In p ps × (p.is_active ≡ true) × Concerns user p → In p (collect (scopes_of user) ps).1
    back h = let (s, m, t) = pick_of_Concerns user p h.1 h.2 in In_collect p s ps m h.0 t
