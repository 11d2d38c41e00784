-- ===== src/Lib.antt =====
-- The NIF library of erlfdb: the C code in c_src that gives Erlang processes access to libfdb_c,
-- the client of FoundationDB.
--
-- The parts and how they interact. A NIF is called by a process with a list of terms. It tests the
-- state of the library, the number of arguments and the resource terms among them, decodes the
-- other arguments, calls libfdb_c, and returns a term, badarg or an exception. Futures, databases,
-- tenants and transactions are reference-counted resources that Erlang holds by terms. libfdb_c
-- calls back when a future is ready, on its network thread or inside the call that set the
-- callback; the callback sends a message to the process that waits and releases its reference to
-- the future.
--
-- Which file models which part:
--   World, Resource      ErlFDBSt of c_src/main.c, c_src/resources.h and c_src/resources.c: the state of
--                        the library, the resources, their counts and destructors
--   Nif                  the shape of a NIF: guards with early returns, calls, outcomes
--   Term, Util           the NIF interface to terms; c_src/util.c and the macros of c_src/util.h
--   Extern               the calls that leave the repository, with their answers as a parameter
--   Future, Future/Get   erlfdb_create_future, erlfdb_future_cb, erlfdb_future_* of c_src/main.c
--   Options              the chains that turn an atom into an enumerator
--   Network              erlfdb_load, erlfdb_join, the API version and the network options
--   Network/Threads      erlfdb_network_thread and the wait of erlfdb_setup_network for it: the steps
--                        of the two threads between the operations on the mutex and the condition
--                        variable
--   Database             databases and tenants
--   Owned, Transaction, Transaction/Read   the guards and the NIFs of a transaction
--   Dispatch             the table funcs: `invoke` calls the function of an entry
--   System               histories: NIF calls of any processes, callbacks on the network thread and
--                        terms that the garbage collector drops, in any order
--
-- References. A resource term that a NIF returns has a reference (`held`). So has the copy of a
-- transaction's term that erlfdb_create_future makes in the msg_env of a future (`copies`). When
-- the callback sends the message, or erlfdb_future_dtor frees the msg_env, the copy leaves the
-- msg_env, and its reference is dropped at any later moment (`stray`, the event `collects`). The
-- field msg_ref keeps its value, as it does in C, and is not read again.
--
-- The names of the C functions are kept; a NIF erlfdb_x is the definition erlfdb_x, a term of the
-- monad `Nif` over `World`, and its statements come in the order of the source.
--
-- How the proofs are built. Ends follows a NIF from a state by one rule for each way to begin.
-- Invariant passes once over all 46 NIFs with the kinds of change that they make as laws;
-- Invariant/Objects and Invariant/Cells give the laws for two kinds of invariant. Counts has the
-- laws of the reference counts, Refusal the calls that the guards turn away. Future/At follows one
-- resource through a computation. The other modules are about single components: Future/Delivery,
-- Future/Failing, Future/Outcomes, Future/Lists, Future/Copy, Util/Selectors, Database/Names,
-- Database/Creation, Network/Startup, Network/Waiting, Network/Loading, Owned/Grants,
-- Transaction/Writes, Transaction/Switches and Transaction/Ids. Tests has the theorems at concrete
-- inputs.
--
-- Bounds and fuel. A C int is an integer with the range test of enif_get_int; txid is kept modulo
-- 2^32; the sum in erlfdb_get_key_selector is an integer without a bound, since the C sum is
-- undefined beyond int. The wait for the network thread has fuel: 8 turns of both threads are
-- enough, and Network/Waiting says that every fair schedule of the two ends in the same state.
-- FDB_API_VERSION is the parameter `api`; where it drops a function or a branch from the build the
-- model follows it, except that `invoke` has erlfdb_transaction_get_estimated_range_size for every
-- version.
--
-- What is not modelled. libfdb_c and the NIF interface are not part of the repository: `Extern`
-- answers a call from the history of all calls, so a theorem depends on what they compute only by
-- its own hypotheses. enif_keep_resource and its kind are modelled by the counts that the comments
-- of erlfdb_create_future give. A NIF runs as one step, but for the wait in erlfdb_setup_network:
-- the locks around the flag of a future are left out, and a callback runs between two NIFs or
-- inside the call that the source says may run it. enif_cond_wait is taken to return only after a
-- signal. enif_alloc in erlfdb_load and erlfdb_network_thread is taken to succeed, as the source
-- does not test it. Sizes of binaries are taken to fit an int, as the calls of libfdb_c convert
-- them. The Erlang modules in src are not modelled.
pub mod Base
pub mod Term
pub mod Extern
pub mod World
pub mod Nif
pub mod Resource
pub mod Util
pub mod Future
pub mod Options
pub mod Network
pub mod Database
pub mod Owned
pub mod Transaction
pub mod Dispatch
pub mod Ends
pub mod Invariant
pub mod System
pub mod Refusal
pub mod Counts
pub mod Tests
