-- ===== src/Store/Nodes.antt =====
-- sqlite.go: the statements on the table of nodes. The constraints are a primary key `id` and a
-- unique `name`; a statement that breaks one fails and changes nothing. A node is taken to have less
-- than 2^63 bytes of memory: database/sql refuses a uint64 with the high bit set.
use psychic_funicular.Base.{
  ℕ, Bool, not, ◌&&◌, String, Option, none, some, List, [], ◌∷◌, ◌++◌, map, any, find, keep, length,
  if◌then◌else◌, str_eq, str_lt, sort,
}
use psychic_funicular.Base.Int.{ltb_ℤ}
use psychic_funicular.Time.{Time, unix}
use psychic_funicular.Model.{Node, up, down, is_down}
use psychic_funicular.Store.Api.{Result, ok, err}
use psychic_funicular.Store.Rows.{NodeRow, node_row, scan_node, Db}

abbrev pub named : String → NodeRow → Bool
named name r = str_eq r.name name

abbrev pub has_node_id : String → NodeRow → Bool
has_node_id id r = str_eq r.id id

-- ON CONFLICT(name) DO UPDATE: every column but the id and the name.
unfoldable pub upsert_row : NodeRow → NodeRow → NodeRow
upsert_row new r = record new { id = r.id; name = r.name }

-- The first row that a predicate accepts is changed.
unfoldable pub upsert_rows : NodeRow → List NodeRow → List NodeRow
unfolding upsert_row
upsert_rows new [] = []
upsert_rows new (r ∷ rs) =
    let rest = upsert_rows new rs in if named new.name r then upsert_row new r ∷ rs else r ∷ rest

unfoldable pub register_node : Node → Db → Result String × Db
register_node n db =
    let new = node_row n in
    elim (find (named n.name) db.nodes) [
      | some r ↦ (ok r.id, record db { nodes = upsert_rows new db.nodes })
      | none ↦
          if any (has_node_id n.id) db.nodes
          then (err "register node: UNIQUE constraint failed", db)
          else (ok n.id, record db { nodes = db.nodes ++ new ∷ [] })
    ]

unfoldable pub beat_row : Node → Time → NodeRow → NodeRow
beat_row n t r = record r {
  state = up;
  cpus = n.cpus;
  mem_total_bytes = n.mem_total_bytes;
  devices = n.devices;
  last_heartbeat = unix t;
}

unfoldable pub heartbeat : Node → Time → Db → Result Bool × Db
unfolding beat_row
heartbeat n t db = (
  ok (any (has_node_id n.id) db.nodes),
  record db { nodes = map (λ r. if has_node_id n.id r then beat_row n t r else r) db.nodes },
)

unfoldable pub list_nodes : Db → Result (List Node)
list_nodes db = ok (map scan_node (sort (λ a b. str_lt a.name b.name) db.nodes))

unfoldable pub get_node : String → Db → Result (Option Node)
get_node id db = elim (find (has_node_id id) db.nodes) [
  | some r ↦ ok (some (scan_node r))
  | none ↦ ok none
]

abbrev pub is_stale : Time → NodeRow → Bool
is_stale older_than r = ltb_ℤ r.last_heartbeat (unix older_than) && not (is_down r.state)

unfoldable pub mark_stale_down : Time → Db → Result ℕ × Db
mark_stale_down older_than db = (
  ok (length (keep (is_stale older_than) db.nodes)),
  record db {
    nodes =
        map (λ (r : NodeRow). if is_stale older_than r then record r { state = down } else r)
          db.nodes;
  },
)
