-- ===== src/Network/Startup.antt =====
-- The start of the network thread by erlfdb_setup_network of c_src/main.c.
use erlfdb.Base.{ℤ, ◌≡◌, refl, [], ◌∷◌, is_zero, if◌then◌else◌, Bool-cases, inl, inr}
use erlfdb.Extern.{Extern, setup_network, thread_create}
use erlfdb.World.{World, api_selected, connected}
use erlfdb.Nif.{ok, badarg, raise, ◌>>=◌, in_state, has_arity, check, ask, modify, atom_ok}
use erlfdb.Resource.{log}
use erlfdb.Util.{erlang_error, error_term}
use erlfdb.Network.{erlfdb_setup_network}
use erlfdb.Network.Threads.{
  set_lib_state, network_thread, wait_for_network, take_turns, step_waiter, step_starter,
}

-- The state after a start.
abbrev pub running : World → World
running w = set_lib_state connected (network_thread (log thread_create (log setup_network w)))

-- With the API version selected, erlfdb_setup_network without arguments runs the network thread,
-- connects the library and answers ok where fdb_setup_network and the creation of the thread
-- succeed; where the one fails it raises the error, where the other fails it answers badarg, and
-- the state of the library stays as it was.
pub setup_network-outcome :
    (ext : Extern) (w : World)
    → w.lib_state ≡ api_selected
    → let called : World = log setup_network w in
      let err : ℤ = ext.error called.trace in
      let made : World = log thread_create called in
      erlfdb_setup_network ext [] w ≡ (
        if is_zero err
        then (if is_zero (ext.error made.trace) then (ok atom_ok, running w) else (badarg, made))
        else (raise (error_term err), called))
unfolding erlfdb_setup_network ◌>>=◌ in_state has_arity check ask modify erlang_error
    wait_for_network take_turns step_waiter step_starter network_thread
setup_network-outcome ext w e =
    let setup = is_zero (ext.error (setup_network ∷ w.trace)) in
    let create = is_zero (ext.error (thread_create ∷ setup_network ∷ w.trace)) in
    elim (Bool-cases setup) [
      | inl z ↦ elim (Bool-cases create) [ inl y ↦ rw (e, z, y) refl | inr n ↦ rw (e, z, n) refl ]
      | inr n ↦ rw (e, n) refl
    ]
