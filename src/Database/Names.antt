-- ===== src/Database/Names.antt =====
-- The names that erlfdb_create_database and erlfdb_database_open_tenant take: binaries that end in a
-- 0 byte, read up to the first 0 by the one and up to the last byte by the other.
use erlfdb.Base.{
  ℕ, ℤ, ◌≡◌, ◌≢◌, refl, sym, ap, true, false, some, is_zero, if◌then◌else◌, List, [], ◌∷◌, ◌++◌,
  All, arith, ◌==◌, ==_iff, Bool-cases, inl, inr,
}
use erlfdb.Term.{binary, resource, inspect_binary}
use erlfdb.Extern.{Extern, create_database, database_open_tenant, database_destroy, tenant_destroy}
use erlfdb.World.{World, connected, Object, Env}
use erlfdb.Nif.{badarg, raise, ◌>>=◌, entry, in_state, has_arity, check, decode, ask}
use erlfdb.Resource.{log, get_resource}
use erlfdb.Util.{error_term, erlang_error}
use erlfdb.Database.{
  is_terminated, c_string, without_last, database_of, give_resource, erlfdb_create_database,
  erlfdb_database_open_tenant,
}

is_terminated-append : (name : List ℕ) → is_terminated (name ++ 0 ∷ []) ≡ true
unfolding is_terminated
is_terminated-append [] = refl
is_terminated-append (b ∷ []) = refl
is_terminated-append (b ∷ c ∷ bs) = is_terminated-append (c ∷ bs)

-- A binary that passes the test is its bytes without the last, followed by a 0 byte.
without_last-append : (bin : List ℕ) → is_terminated bin ≡ true → without_last bin ++ 0 ∷ [] ≡ bin
unfolding is_terminated without_last
without_last-append [] e = cc
without_last-append (b ∷ []) e = ap (λ x. x ∷ []) (ground (arith, e))
without_last-append (b ∷ c ∷ bs) e = ap (λ xs. b ∷ xs) (without_last-append (c ∷ bs) e)

c_string-append : (name : List ℕ) → All (λ b. b ≢ 0) name → c_string (name ++ 0 ∷ []) ≡ name
unfolding c_string
c_string-append [] h = refl
c_string-append (b ∷ bs) (n, h) = elim (Bool-cases (b == 0)) [
  | inl e ↦ absurd (n ((==_iff b 0).0 e))
  | inr e ↦ rw e (ap (λ xs. b ∷ xs) (c_string-append bs h))
]

without_last-of : (name : List ℕ) → without_last (name ++ 0 ∷ []) ≡ name
unfolding without_last
without_last-of [] = refl
without_last-of (b ∷ []) = refl
without_last-of (b ∷ c ∷ bs) = ap (λ xs. b ∷ xs) (without_last-of (c ∷ bs))

module _ (ext : Extern) (env : Env) where
  -- Once the library is connected, erlfdb_create_database with a name that has no 0 byte, and a 0
  -- byte after it, calls fdb_create_database with the name; where the call succeeds it goes on to
  -- give the new database to Erlang, and otherwise it raises the error.
  pub create_database-append :
      (name : List ℕ) (w : World)
      → w.lib_state ≡ connected
      → All (λ b. b ≢ 0) name
      → let called : World = log (create_database name) w in
        let err : ℤ = ext.error called.trace in
        let d : ℕ = ext.handle called.trace in
        erlfdb_create_database ext env (binary (name ++ 0 ∷ []) ∷ []) w ≡ (
          if is_zero err
          then give_resource ext env "erlfdb_database"
              (Object.database d)
              (database_destroy d)
              called
          else (raise (error_term err), called))
  unfolding erlfdb_create_database entry in_state has_arity check decode inspect_binary ask ◌>>=◌
      erlang_error
  create_database-append name w c h =
      let called : World = log (create_database name) w in
      elim (Bool-cases (is_zero (ext.error called.trace))) [
        | inl z ↦ rw (c, is_terminated-append name, c_string-append name h, z, ◌>>=◌) refl
        | inr n ↦ rw (c, is_terminated-append name, c_string-append name h, n, ◌>>=◌) refl
      ]

  -- Once the library is connected, erlfdb_database_open_tenant with a resource term of a database
  -- and a name with a 0 byte after it calls fdb_database_open_tenant of that database with the
  -- name; where the call succeeds it goes on to give the new tenant to Erlang, and otherwise it
  -- raises the error.
  pub open_tenant-append :
      (name : List ℕ) (i n d : ℕ) (w : World)
      → w.lib_state ≡ connected
      → w.cell i ≡ some (record { object = Object.database d; count = n })
      → let called : World = log (database_open_tenant d name) w in
        let err : ℤ = ext.error called.trace in
        let ten : ℕ = ext.handle called.trace in
        erlfdb_database_open_tenant ext env (resource i ∷ binary (name ++ 0 ∷ []) ∷ []) w ≡ (
          if is_zero err
          then give_resource ext env "erlfdb_tenant" (Object.tenant ten) (tenant_destroy ten) called
          else (raise (error_term err), called))
  unfolding erlfdb_database_open_tenant database_of entry in_state has_arity check decode
      inspect_binary get_resource ask ◌>>=◌ erlang_error
  open_tenant-append name i n d w c e =
      let called : World = log (database_open_tenant d name) w in
      elim (Bool-cases (is_zero (ext.error called.trace))) [
        | inl z ↦ rw (c, e, is_terminated-append name, without_last-of name, z, ◌>>=◌) refl
        | inr z ↦ rw (c, e, is_terminated-append name, without_last-of name, z, ◌>>=◌) refl
      ]

  unterminated :
      (bin : List ℕ) → ((name : List ℕ) → bin ≢ name ++ 0 ∷ []) → is_terminated bin ≡ false
  unterminated bin other = elim (Bool-cases (is_terminated bin)) [
    | inl e ↦ absurd (other (without_last bin) (sym (without_last-append bin e)))
    | inr e ↦ e
  ]

  -- Once the library is connected, erlfdb_create_database and erlfdb_database_open_tenant of a
  -- database answer badarg, make no call and change nothing for a binary that does not end in a 0
  -- byte.
  pub names-unterminated :
      (bin : List ℕ) (i n d : ℕ) (w : World)
      → w.lib_state ≡ connected
      → w.cell i ≡ some (record { object = Object.database d; count = n })
      → ((name : List ℕ) → bin ≢ name ++ 0 ∷ [])
      → (erlfdb_create_database ext env (binary bin ∷ []) w ≡ (badarg, w))
        × (erlfdb_database_open_tenant ext env (resource i ∷ binary bin ∷ []) w ≡ (badarg, w))
  unfolding erlfdb_create_database erlfdb_database_open_tenant database_of entry in_state has_arity
      check decode inspect_binary get_resource ask ◌>>=◌
  names-unterminated bin i n d w c e other =
      let f = unterminated bin other in (rw (c, f, ◌>>=◌) refl, rw (c, e, f, ◌>>=◌) refl)
