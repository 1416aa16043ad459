-- ===== src/GenericResolver/Tests.antt =====
-- A pool that names another one twice and a name that is not known, and a pool in a loop.
use rules_analyzer.Base.{ℕ, ◌≡◌, refl, List, [], ◌∷◌, ◌++◌, Option, some, String, Outcome, ok, err}
use rules_analyzer.Cache.{Cache, get}
use rules_analyzer.GenericResolver.{
  Pool, PoolMember, object, pool, Walk, ResolverFault, loop_in, resolve,
}
use rules_analyzer.GenericResolver.Members.{Expands}
use rules_analyzer.GenericResolver.Expansion.{resolve-Expands}
use rules_analyzer.GenericResolver.Loops.{Loops, resolve_loop}
use rules_analyzer.GenericResolver.Fuel.{resolve_ends}

abbrev hosts : Cache ℕ
hosts = ("web", 1) ∷ ("mail", 2) ∷ []

abbrev host : String → Option ℕ
host n = get n hosts

abbrev dmz : Pool
dmz = record { name = "dmz"; members = "web" ∷ "mail" ∷ [] }

abbrev all_hosts : Pool
all_hosts = record { name = "all"; members = "dmz" ∷ "printer" ∷ "dmz" ∷ [] }

abbrev ring : Pool
ring = record { name = "ring"; members = "web" ∷ "round" ∷ [] }

abbrev ring_back : Pool
ring_back = record { name = "round"; members = "ring" ∷ [] }

abbrev known_pools : Cache Pool
known_pools = ("dmz", dmz) ∷ ("all", all_hosts) ∷ ("ring", ring) ∷ ("round", ring_back) ∷ []

abbrev resolved : Walk ℕ
resolved = record {
  expanded_list =
      object 1 ∷ object 2 ∷ pool dmz ∷ object 1 ∷ object 2 ∷ pool dmz ∷ pool all_hosts ∷ [];
  unresolved = "printer" ∷ [];
  chain = [];
  visited = [];
}

resolve_runs : resolve host known_pools all_hosts [] ≡ some (ok resolved)
unfolding resolve get
resolve_runs = refl

-- The first pool is not visited when the walk starts, so it is found at its second visit.
resolve_loops : resolve host known_pools ring [] ≡ some (err (loop_in "round"))
unfolding resolve get
resolve_loops = refl

resolve_ends_example :
    (o : Outcome ResolverFault (Walk ℕ)) × (resolve host known_pools ring [] ≡ some o)
resolve_ends_example = resolve_ends host known_pools ring []

resolve-Expands_example :
    (es : List (PoolMember ℕ)) × (us : List String) × Expands host known_pools all_hosts.members es
      us
    × (resolved.expanded_list ≡ es ++ pool all_hosts ∷ [])
    × (resolved.unresolved ≡ [] ++ us)
resolve-Expands_example = resolve-Expands host known_pools all_hosts [] resolved resolve_runs

resolve_loop_example : Loops host known_pools "round"
resolve_loop_example = resolve_loop host known_pools ring [] "round" resolve_loops
