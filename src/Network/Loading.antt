-- ===== src/Network/Loading.antt =====
-- erlfdb_load of c_src/main.c with erlfdb_init_resources of c_src/resources.c.
use erlfdb.Base.{
  String, Bool, true, false, ◌≡◌, refl, ap, ◌∙◌, ◌&&◌, inl, inr, List, [], ◌∷◌, is_zero, Bool-cases,
  ◌==◌, if◌then◌else◌,
}
use erlfdb.Extern.{Call, Extern, open_resource_type, alloc_state, set_option_on_halt}
use erlfdb.World.{World, LibState}
use erlfdb.Nif.{ok, ◌>>=◌, ask, tell, modify}
use erlfdb.Resource.{log}
use erlfdb.Network.{open_types, init_resources, erlfdb_load}

-- Every type of the list was opened, from the history `h` on.
abbrev pub opened : Extern → List String → List Call → Bool
opened ext [] h = true
opened ext (name ∷ names) h =
    let k = open_resource_type name ∷ h in if ext.handle k == 0 then false else opened ext names k

module _ (ext : Extern) where
  -- The calls of a loop that opens every type.
  abbrev opening : List String → List Call → List Call
  opening [] h = h
  opening (name ∷ names) h = opening names (open_resource_type name ∷ h)

  open_types-opened :
      (names : List String) (w : World)
      → let r = open_types ext names w in
        (r.0 ≡ ok (opened ext names w.trace))
        × (r.1.lib_state ≡ w.lib_state)
        × (opened ext names w.trace ≡ true → r.1.trace ≡ opening names w.trace)
  unfolding open_types ◌>>=◌ ask
  open_types-opened [] w = (refl, refl, λ _. refl)
  open_types-opened (name ∷ names) w =
      let k = open_resource_type name ∷ w.trace in
      let rest = open_types-opened names (log (open_resource_type name) w) in
      elim (Bool-cases (ext.handle k == 0)) [
        | inl e ↦ rw (e, ◌>>=◌) (refl, refl, λ q. cc q)
        | inr e ↦ rw (e, ◌>>=◌) rest
      ]

  abbrev pub names : List String
  names = "erlfdb_future" ∷ "erlfdb_database" ∷ "erlfdb_tenant" ∷ "erlfdb_transaction" ∷ []

  -- The calls of erlfdb_load up to the last resource type.
  abbrev pub types_opened : List Call → List Call
  types_opened h =
      open_resource_type "erlfdb_transaction"
      ∷ open_resource_type "erlfdb_tenant"
      ∷ open_resource_type "erlfdb_database"
      ∷ open_resource_type "erlfdb_future"
      ∷ alloc_state
      ∷ h

  -- Where the four resource types are opened in turn, and the option on_halt is set if the NIF
  -- version has it, erlfdb_load returns 0 with the library loaded; where one of these fails it
  -- returns 1 and leaves the state of the library as it was.
  pub erlfdb_load_lem :
      (on_halt : Bool) (w : World)
      → let halting : Bool = is_zero (ext.error (set_option_on_halt ∷ types_opened w.trace)) in
        let succeeds : Bool =
          opened ext names (alloc_state ∷ w.trace) && (if on_halt then halting else true) in
        let r = erlfdb_load ext on_halt w in
        (r.0 ≡ ok (if succeeds then 0 else 1))
        × (r.1.lib_state ≡ (if succeeds then LibState.loaded else w.lib_state))
  unfolding erlfdb_load init_resources ◌>>=◌ ask tell modify
  erlfdb_load_lem on_halt w = elim (Bool-cases (opened ext names (alloc_state ∷ w.trace))) [
    | inl e ↦
        let q : (open_types ext names v).0 ≡ ok true = o.0 ∙ ap (λ b. ok b) e in
        let h : u.trace ≡ types_opened w.trace = o.2 e in
        elim (Bool-cases on_halt) [
          | inl t ↦
              let same : ext.error (set_option_on_halt ∷ u.trace)
                  ≡ ext.error (set_option_on_halt ∷ types_opened w.trace) =
                ap (λ t. ext.error (set_option_on_halt ∷ t)) h in
              elim (Bool-cases (is_zero (ext.error (set_option_on_halt ∷ types_opened w.trace)))) [
                | inl z ↦ rw (q, t, same, z, e, ◌>>=◌) (refl, refl)
                | inr n ↦ rw (q, t, same, n, e, ◌>>=◌) (refl, o.1)
              ]
          | inr t ↦ rw (q, t, e, ◌>>=◌) (refl, refl)
        ]
    | inr e ↦
        let q : (open_types ext names v).0 ≡ ok false = o.0 ∙ ap (λ b. ok b) e in
        rw (q, e, ◌>>=◌) (refl, o.1)
  ]
    where
      v : World
      v = log alloc_state w

      u : World
      u = (open_types ext names v).1

      o :
          ((open_types ext names v).0 ≡ ok (opened ext names v.trace))
          × ((open_types ext names v).1.lib_state ≡ v.lib_state)
          × (opened ext names v.trace ≡ true
              → (open_types ext names v).1.trace ≡ opening names v.trace)
      o = open_types-opened names v
