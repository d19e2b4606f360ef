-- ===== src/Mux/Order.antt =====
-- ServerNames, and the order in which the range visits the map.
use mcp_multiplexer.Base.{
  ◌≡◌, Bool-cases, inl, inr, Reordered, same, under, swap, chain, sort-Reordered,
}
use mcp_multiplexer.Mux.Queries.{Servers, live_names, server_names, is_live}

live_names-Reordered : {m n : Servers} → Reordered m n → Reordered (live_names m) (live_names n)
unfolding live_names
live_names-Reordered same = same
live_names-Reordered (under (name, e) r) = elim (Bool-cases (is_live e.state)) [
  | inl q ↦ rw q (under name (live_names-Reordered r))
  | inr q ↦ rw q (live_names-Reordered r)
]
live_names-Reordered (swap (a, e) (b, f) m) = elim (Bool-cases (is_live e.state)) [
  | inl q ↦ elim (Bool-cases (is_live f.state)) [
    | inl r ↦ rw (q, r) (swap a b (live_names m))
    | inr r ↦ rw (q, r) same
  ]
  | inr q ↦ rw q same
]
live_names-Reordered (chain r q) = chain (live_names-Reordered r) (live_names-Reordered q)

-- Maps with the same entries give the same names, whatever order the range visits them in.
pub server_names-Reordered : {m n : Servers} → Reordered m n → server_names m ≡ server_names n
unfolding server_names
server_names-Reordered r = sort-Reordered (live_names-Reordered r)
