-- ===== src/Tests/Caching.antt =====
-- The LRU and the default cache key on small caches.
use mcp_multiplexer.Base.{
  ℕ, ◌≤◌, ◌≡◌, refl, text_eq, text_beq, bytes, true, none, some, List, [], ◌∷◌, pos, arith, lookup,
  insert, remove,
}
use mcp_multiplexer.Context.{Context, with_cache_scope, cache_scope}
use mcp_multiplexer.Tool.{CallResult, ToolInfo, zero_info, empty_result, clone}
use mcp_multiplexer.Cache.Lru.{new_lru_cache, get, set, evict, back, move_to_front}
use mcp_multiplexer.Cache.Lru.Elements.{view}
use mcp_multiplexer.Cache.Lru.Methods.{new_lru_cache-IsValid}
use mcp_multiplexer.Cache.Lru.Refinement
use mcp_multiplexer.Cache.Lru.Refinement.{spec_get, spec_set}
use mcp_multiplexer.Cache.Lru.History
use mcp_multiplexer.Cache.Lru.History.{Call, get_call, set_call, run, step, last_set}
use mcp_multiplexer.Cache.Keys
use mcp_multiplexer.Cache.Keys.{is_cacheable, default_cache_key, canonical_json}
use mcp_multiplexer.Tests.Outside.{outside}

caches : Unit {0}
unfolding text_beq lookup insert remove new_lru_cache get set evict back move_to_front clone run
    step last_set cache_scope with_cache_scope default_cache_key canonical_json
caches = tt

abbrev one : CallResult
one = record empty_result { text = bytes "1" }

abbrev two : CallResult
two = record empty_result { text = bytes "2" }

abbrev three : CallResult
three = record empty_result { text = bytes "3" }

-- Two stored values and a look at the first, most recent call first.
abbrev warm : List Call
warm =
    get_call (bytes "a") 5
    ∷ set_call (bytes "b") (some two) (pos 10) 2
    ∷ set_call (bytes "a") (some one) (pos 10) 1
    ∷ []

-- The value that was looked at stays, and the other one is evicted.
evict_run :
    (get (set (run (new_lru_cache 2) warm) (bytes "c") (some three) (pos 10) 6) (bytes "a") 7).1
    ≡ some one
unfolding caches
evict_run = refl

evicted_run :
    (get (set (run (new_lru_cache 2) warm) (bytes "c") (some three) (pos 10) 6) (bytes "b") 7).1
    ≡ none
unfolding caches
evicted_run = refl

-- A value is live at the instant of its expiry, and gone after it.
expiry_run :
    ((get (run (new_lru_cache 2) warm) (bytes "b") 12).1 ≡ some two)
    × ((get (run (new_lru_cache 2) warm) (bytes "b") 13).1 ≡ none)
unfolding caches
expiry_run = (refl, refl)

set-refines_example :
    view (set (new_lru_cache 2) (bytes "a") (some one) (pos 10) 1).list
    ≡ spec_set 2 (bytes "a") (some one) (pos 10) 1 []
unfolding new_lru_cache
set-refines_example =
    Refinement.set-refines (new_lru_cache 2) (bytes "a") (some one) (pos 10) 1
      (new_lru_cache-IsValid 2 (omega arith))

get-refines_example :
    (view (get (run (new_lru_cache 2) warm) (bytes "b") 13).0.list
      ≡ (spec_get (bytes "b") 13 (view (run (new_lru_cache 2) warm).list)).0)
    × ((get (run (new_lru_cache 2) warm) (bytes "b") 13).1
        ≡ (spec_get (bytes "b") 13 (view (run (new_lru_cache 2) warm).list)).1)
get-refines_example =
    Refinement.get-refines (run (new_lru_cache 2) warm) (bytes "b") 13
      (History.run-IsValid (new_lru_cache 2) warm (new_lru_cache-IsValid 2 (omega arith)))

get_fresh_example :
    (expires : ℕ) × (last_set (bytes "b") warm ≡ some (some two, expires)) × (12 ≤ expires)
unfolding caches
get_fresh_example = History.get_fresh 2 warm (bytes "b") 12 two (omega arith) refl

abbrev reader : ToolInfo
reader = record zero_info { read_only = true; idempotent = true }

abbrev tenant : Context
tenant = with_cache_scope [] (bytes "t")

default_cache_key_collision_example :
    default_cache_key outside (with_cache_scope [] (bytes "t")) (bytes "u|k8s") (bytes "get") []
    ≡ default_cache_key outside (with_cache_scope [] (bytes "t|u")) (bytes "k8s") (bytes "get") []
unfolding caches
default_cache_key_collision_example =
    Keys.default_cache_key_collision outside (with_cache_scope [] (bytes "t"))
      (with_cache_scope [] (bytes "t|u")) (bytes "t") (bytes "u") (bytes "k8s") (bytes "get") []
      refl refl
