-- ===== src/Context/Scope.antt =====
-- What an approval request is scoped to.
use infisical_ksp.Base.{
  Unicode, Bool, true, false, ◌||◌, none, List, [], ◌∷◌, ◌≡◌, refl, ap, fun_ext, ◌↔◌, inl, inr,
  Bool-cases, arith, if◌then◌else◌, ◌==◌, bytes_eq, bytes_beq, bytes_beq_iff, Bytes, text, contains,
}
use infisical_ksp.Context.{
  SigningContext, SigningScope, absent, skipped, json_string, exclude_field, exclude_fields,
  request_scope, scope_field_command, scope_field_signing_application,
  scope_field_signing_application_hash, scope_field_hostname, scope_field_os_username,
  scope_field_ip_address, scope_field_data_hash, scope_field_names, validate_scope_exclusions,
}

-- The scope with the fields of a list of names left out, each field by itself.
pub pruned : (Bytes → Bool) → SigningScope → SigningScope
pruned out s = record {
  command = if out scope_field_command then [] else s.command;
  signing_application = if out scope_field_signing_application then [] else s.signing_application;
  signing_application_hash =
      if out scope_field_signing_application_hash then [] else s.signing_application_hash;
  hostname = if out scope_field_hostname then [] else s.hostname;
  os_username = if out scope_field_os_username then [] else s.os_username;
  ip_address = if out scope_field_ip_address then skipped else s.ip_address;
  data_hash = if out scope_field_data_hash then [] else s.data_hash;
}

-- At each of the names themselves, by evaluation.
exclude_field_known :
    (s : SigningScope)
    → (exclude_field scope_field_command s ≡ pruned (bytes_beq scope_field_command) s)
      × (exclude_field scope_field_signing_application s
          ≡ pruned (bytes_beq scope_field_signing_application) s)
      × (exclude_field scope_field_signing_application_hash s
          ≡ pruned (bytes_beq scope_field_signing_application_hash) s)
      × (exclude_field scope_field_hostname s ≡ pruned (bytes_beq scope_field_hostname) s)
      × (exclude_field scope_field_os_username s ≡ pruned (bytes_beq scope_field_os_username) s)
      × (exclude_field scope_field_ip_address s ≡ pruned (bytes_beq scope_field_ip_address) s)
      × (exclude_field scope_field_data_hash s ≡ pruned (bytes_beq scope_field_data_hash) s)
unfolding exclude_field pruned text bytes_beq
exclude_field_known s = (refl, refl, refl, refl, refl, refl, refl)

exclude_field_at :
    (name f : Bytes) (s : SigningScope)
    → bytes_beq name f ≡ true
    → exclude_field f s ≡ pruned (bytes_beq f) s
    → exclude_field name s ≡ pruned (bytes_beq name) s
exclude_field_at name f s e h = rw ((bytes_beq_iff name f).0 e) h

exclude_field-pruned :
    (name : Bytes) (s : SigningScope) → exclude_field name s ≡ pruned (bytes_beq name) s
exclude_field-pruned name s = elim (Bool-cases (bytes_beq name scope_field_command)) [
  | inl e ↦ exclude_field_at name _ s e (exclude_field_known s).0
  | inr n0 ↦ elim (Bool-cases (bytes_beq name scope_field_signing_application)) [
    | inl e ↦ exclude_field_at name _ s e (exclude_field_known s).1
    | inr n1 ↦ elim (Bool-cases (bytes_beq name scope_field_signing_application_hash)) [
      | inl e ↦ exclude_field_at name _ s e (exclude_field_known s).2
      | inr n2 ↦ elim (Bool-cases (bytes_beq name scope_field_hostname)) [
        | inl e ↦ exclude_field_at name _ s e (exclude_field_known s).3
        | inr n3 ↦ elim (Bool-cases (bytes_beq name scope_field_os_username)) [
          | inl e ↦ exclude_field_at name _ s e (exclude_field_known s).4
          | inr n4 ↦ elim (Bool-cases (bytes_beq name scope_field_ip_address)) [
            | inl e ↦ exclude_field_at name _ s e (exclude_field_known s).5
            | inr n5 ↦ elim (Bool-cases (bytes_beq name scope_field_data_hash)) [
              | inl e ↦ exclude_field_at name _ s e (exclude_field_known s).6
              | inr n6 ↦ unfold exclude_field pruned in rw (n0, n1, n2, n3, n4, n5, n6) refl
            ]
          ]
        ]
      ]
    ]
  ]
]

if_twice {ℓ} :
    {A : Type ℓ} (a b : Bool) (x y : A)
    → (if b then x else (if a then x else y)) ≡ (if a || b then x else y)
if_twice true true x y = refl
if_twice true false x y = refl
if_twice false true x y = refl
if_twice false false x y = refl

-- Leaving out twice is leaving out what either names.
pruned-pruned :
    (p q : Bytes → Bool) (s : SigningScope) → pruned q (pruned p s) ≡ pruned (λ f. p f || q f) s
unfolding pruned
pruned-pruned p q s = simp if_twice

beq_comm : (a b : Bytes) → bytes_beq a b ≡ bytes_beq b a
beq_comm a b = ground (arith, bytes_beq_iff a b, bytes_beq_iff b a)

exclude_fields-pruned :
    (excluded : List Bytes) (s : SigningScope)
    → exclude_fields excluded s ≡ pruned (contains excluded) s
unfolding exclude_fields contains
exclude_fields-pruned [] s = unfold pruned in refl
exclude_fields-pruned (name ∷ excluded) s =
    rw (exclude_field-pruned name s, exclude_fields-pruned excluded, pruned-pruned)
      (ap (λ p. pruned p s) (fun_ext (λ f. ap (λ b. b || contains excluded f) (beq_comm name f))))

-- Each field of the scope of an approval request is left out if its name is among the excluded
-- ones, wherever it stands among them, and holds the observed value if not. For the address,
-- left out means the literal null, and the value is the pinned address if there is one.
pub request_scope-pruned :
    (c : SigningContext) (data_hash : Bytes) (excluded : List Bytes) (pinned : Bytes)
    → request_scope c data_hash excluded pinned
      ≡ pruned (contains excluded) (record {
        command = c.command;
        signing_application = c.application;
        signing_application_hash = c.application_hash;
        hostname = c.hostname;
        os_username = c.os_username;
        ip_address = if pinned == [] then absent else json_string pinned;
        data_hash = data_hash;
      })
unfolding request_scope
request_scope-pruned c data_hash excluded pinned = exclude_fields-pruned excluded _

abbrev pub AllKnown : List Bytes → Type 0
AllKnown [] = Unit
AllKnown (name ∷ names) = (contains scope_field_names name ≡ true) × AllKnown names

-- A list of exclusions is accepted exactly if each of its names is a scope field's.
pub validate_scope_exclusions_iff :
    (u : Unicode) (excluded : List Bytes)
    → (validate_scope_exclusions u excluded ≡ none) ↔ AllKnown excluded
unfolding validate_scope_exclusions
validate_scope_exclusions_iff u [] = (λ _. tt, λ _. refl)
validate_scope_exclusions_iff u (name ∷ excluded) =
    ground (arith, validate_scope_exclusions_iff u excluded)
