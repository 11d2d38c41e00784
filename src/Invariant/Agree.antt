-- ===== src/Invariant/Agree.antt =====
-- States that agree on the cells, the library's state and which numbers are taken, and what in
-- c_src/resources.c and erlfdb_future_cb of c_src/main.c leaves a state that agrees.
use erlfdb.Base.{ℕ, ◌≡◌, refl, inl, inr, true, false, if◌then◌else◌, arith, Option-cases}
use erlfdb.Extern.{free_env}
use erlfdb.World.{World, Field, Future, Object}
use erlfdb.Resource.{log, dtor, destroy_field, destroy_handle, hand_over, destroy_env}
use erlfdb.Future.{Thread, send_ready, with_message}

-- States that agree on what such an invariant looks at.
pub record Agree (v w : World) : Type 0 where
  pub cell : v.cell ≡ w.cell
  pub lib_state : v.lib_state ≡ w.lib_state
  pub next : v.next ≡ w.next

pub Agree-trans : {u v w : World} → Agree u v → Agree v w → Agree u w
Agree-trans a b = ground arith

destroy_field-Agree : (free : _) (f : _) (w : World) → Agree (destroy_field free f w) w
unfolding destroy_field
destroy_field-Agree free f w = ground arith

destroy_handle-Agree : (c : _) (h : ℕ) (w : World) → Agree (destroy_handle c h w) w
unfolding destroy_handle
destroy_handle-Agree c h w = ground arith

hand_over-Agree : (i : ℕ) (w : World) → Agree (hand_over i w) w
unfolding hand_over
hand_over-Agree i w = elim (Option-cases (w.copies i)) [
  | inl e ↦ rw (e, hand_over) (record { cell = refl; lib_state = refl; next = refl })
  | inr (j, e) ↦ rw (e, hand_over) (record { cell = refl; lib_state = refl; next = refl })
]

destroy_env-Agree : (i : ℕ) (f : Field) (w : World) → Agree (destroy_env i f w) w
unfolding destroy_env
destroy_env-Agree i Field.garbage w = record { cell = refl; lib_state = refl; next = refl }
destroy_env-Agree i Field.null w = record { cell = refl; lib_state = refl; next = refl }
destroy_env-Agree i (Field.object h) w =
    Agree-trans (hand_over-Agree i (log (free_env h) w))
      (record { cell = refl; lib_state = refl; next = refl })

pub dtor-Agree : (i : ℕ) (o : Object) (w : World) → Agree (dtor i o w) w
unfolding dtor
dtor-Agree i (Object.future f) w =
    Agree-trans (destroy_field-Agree _ f.lock _)
      (Agree-trans (destroy_env-Agree i f.msg_env _) (destroy_handle-Agree _ f.future w))
dtor-Agree i (Object.database d) w = destroy_handle-Agree _ d w
dtor-Agree i (Object.tenant ten) w = destroy_handle-Agree _ ten w
dtor-Agree i (Object.transaction t) w = destroy_handle-Agree _ t.transaction w

pub send_ready-Agree :
    (thread : Thread) (i : ℕ) (f : Future) (w : World) → Agree (send_ready thread i f w) w
unfolding send_ready
send_ready-Agree thread i f w =
    elim f.cancelled as (λ b. Agree (if b then w else hand_over i (with_message thread f w)) w) [
      | true ↦ record { cell = refl; lib_state = refl; next = refl }
      | false ↦
          Agree-trans (hand_over-Agree i (with_message thread f w))
            (record { cell = refl; lib_state = refl; next = refl })
    ]
