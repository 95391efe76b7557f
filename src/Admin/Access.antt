-- ===== src/Admin/Access.antt =====
-- Who is let in by the administration API.
use claude_code_proxy.Prelude.{
  String, Bool, true, false, not, Option, none, some, List, ◌≡◌, refl, sym, ap, ◌∙◌, ◌↔◌, inl, inr,
  arith, str_eq, Bool-cases, some_inj, if◌then◌else◌,
}
use claude_code_proxy.Exec.{ok, bind_ok, lift_bind_ok, returned, ok_inj}
use claude_code_proxy.Domain.{AdminIdentityRecord}
use claude_code_proxy.Text.{strip}
use claude_code_proxy.Admin.{
  AdminActor, AdminIdentityStore, is_allowed, role_of, get_admin_role, actor_with, principal_of,
  require_admin_role,
}

abbrev actor : String → String → AdminActor
actor p r = record { principal_id = p; role = r }

actor_at : {p q r s : String} → p ≡ q → r ≡ s → actor p r ≡ actor q s
actor_at h k = rw (h, k) refl

-- An actor is the principal of the header, with an active identity and one of the roles.
pub record IsActor {W : Type 0} (repository : Option (AdminIdentityStore W)) (roles : List String)
    (header : Option String) (w w' : W) (actor : AdminActor) : Type 0 where
  pub store : AdminIdentityStore W
  pub principal : String
  pub identity : AdminIdentityRecord
  pub stored : repository ≡ some store
  pub carried : header ≡ some principal
  pub not_blank : str_eq (strip principal) "" ≡ false
  pub known : store (strip principal) w ≡ (ok (some identity), w')
  pub active : identity.is_active ≡ true
  pub role_allowed : is_allowed roles identity.role ≡ true
  pub is_actor : actor ≡ record { principal_id = strip principal; role = identity.role }

role_of_ok :
    (o : Option AdminIdentityRecord) (role : String)
    → role_of o ≡ some role
    → (identity : AdminIdentityRecord) × (o ≡ some identity)
      × (identity.is_active ≡ true)
      × (identity.role ≡ role)
unfolding role_of
role_of_ok none role h = cc h
role_of_ok (some identity) role h =
    let (a, r) = of_test identity.is_active identity.role h in (identity, refl, a, r)
  where
    of_test :
        (b : Bool) (r : String)
        → (if not b then none else some r) ≡ some role
        → (b ≡ true) × (r ≡ role)
    of_test true r h = (refl, some_inj h)
    of_test false r h = cc h

actor_with_ok :
    (roles : List String) (principal : String) (o : Option String) (actor : AdminActor)
    → actor_with roles principal o ≡ ok actor
    → (role : String) × (o ≡ some role)
      × (is_allowed roles role ≡ true)
      × (actor ≡ record { principal_id = principal; role = role })
unfolding actor_with
actor_with_ok roles principal none actor h = cc h
actor_with_ok roles principal (some role) actor h = elim (Bool-cases (is_allowed roles role)) [
  | inl b ↦ (role, refl, b, sym (ok_inj (rw b at h)))
  | inr b ↦ cc (rw b at h)
]

pub principal_of_ok :
    {W : Type 0} (o : Option (AdminIdentityStore W)) (header : Option String)
    (store : AdminIdentityStore W) (name : String)
    → principal_of o header ≡ ok (store, name)
    → (o ≡ some store)
      × ((principal : String) × (header ≡ some principal)
          × (str_eq (strip principal) "" ≡ false)
          × (name ≡ strip principal))
unfolding principal_of
principal_of_ok none header store name h = cc h
principal_of_ok (some s) none store name h = cc h
principal_of_ok (some s) (some principal) store name h =
    elim (Bool-cases (str_eq (strip principal) "")) [
      | inl b ↦ cc (rw b at h)
      | inr b ↦
          let q = ok_inj (rw b at h) in
          (ap (λ x. some x.0) q, (principal, refl, b, sym (ap (λ x. x.1) q)))
    ]

module _ {W : Type 0} (repository : Option (AdminIdentityStore W)) (roles : List String)
    (header : Option String) where
  assemble :
      (store : AdminIdentityStore W) (name : String) (o : Option AdminIdentityRecord)
      (role : Option String) (w w1 w2 w' : W) (actor : AdminActor)
      → principal_of repository header ≡ ok (store, name)
      → store name w ≡ (ok o, w2)
      → (role_of o ≡ role) × (w2 ≡ w1)
      → (actor_with roles name role ≡ ok actor) × (w1 ≡ w')
      → IsActor repository roles header w w' actor
  assemble store name o role w w1 w2 w' actor q g (r, v) (a, u) =
      let (e, (principal, c, b, n)) = principal_of_ok repository header store name q in
      let (chosen, p, allowed, is) = actor_with_ok roles name role actor a in
      let (identity, i, active, t) = role_of_ok o chosen (r ∙ p) in
      record {
        store = store;
        principal = principal;
        identity = identity;
        stored = e;
        carried = c;
        not_blank = b;
        known =
            ap (λ x. store x w) (sym n)
            ∙ g
            ∙ ap (λ x. (ok x, w2)) i
            ∙ ap (λ x. (ok (some identity), x)) (v ∙ u);
        active = active;
        role_allowed = ap (is_allowed roles) t ∙ allowed;
        is_actor = is ∙ actor_at n (sym t);
      }

  role_of_active :
      (identity : AdminIdentityRecord)
      → identity.is_active ≡ true
      → role_of (some identity) ≡ some identity.role
  unfolding role_of
  role_of_active identity h = ground (arith, h)

  let_in :
      (store : AdminIdentityStore W) (principal : String) (identity : AdminIdentityRecord)
      (w w' : W)
      → str_eq (strip principal) "" ≡ false
      → store (strip principal) w ≡ (ok (some identity), w')
      → identity.is_active ≡ true
      → is_allowed roles identity.role ≡ true
      → require_admin_role (some store) roles (some principal) w
        ≡ (ok (record { principal_id = strip principal; role = identity.role }), w')
  unfolding require_admin_role get_admin_role principal_of actor_with
  let_in store principal identity w w' b k a r = rw (b, k, role_of_active identity a, r) refl

  -- The administration API lets in exactly the principals of its header that are not blank and have an
  -- active identity with one of the roles that the endpoint allows.
  pub require_admin_role-IsActor :
      (w w' : W) (actor : AdminActor)
      → (require_admin_role repository roles header w ≡ (ok actor, w'))
        ↔ IsActor repository roles header w w' actor
  unfolding require_admin_role get_admin_role
  require_admin_role-IsActor w w' actor = (
    λ h.
        let ((store, name), q, h1) = lift_bind_ok (principal_of repository header) _ w w' actor h in
        let (role, w1, k, h2) = bind_ok (get_admin_role store name) _ w w' actor h1 in
        let (o, w2, g, h3) = bind_ok (store name) _ w w1 role k in
        assemble store name o role w w1 w2 w' actor q g (returned _ role w2 w1 h3)
          (ap (λ x. x.0) h2, ap (λ x. x.1) h2),
    λ x.
        rw (x.stored, x.carried, x.is_actor)
          (let_in x.store x.principal x.identity w w' x.not_blank x.known x.active x.role_allowed),
  )
