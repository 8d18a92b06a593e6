-- ===== src/Store/Registry.antt =====
-- The table of nodes: its keys, and what a registration and a heartbeat do to the other rows.
use mathlib.Core.Path.{subst⁻¹}
use mathlib.Core.List.{append-nil, append_assoc}
use psychic_funicular.Base.{
  sym, ap, ◌∙◌, ℕ, ◌+◌, ◌≤◌, ◌≡◌, refl, Bool, true, false, String, none, List, [], ◌∷◌, ◌++◌, inl,
  inr, ◌⊎◌, arith, if◌then◌else◌, Bool-cases, Option-cases, map, any, find, sum_of, sum_of-append,
  str_eq, str_eq_iff,
}
use psychic_funicular.Time.{Time}
use psychic_funicular.Model.{Node}
use psychic_funicular.Store.Rows.{NodeRow, node_row, Db}
use psychic_funicular.Store.Nodes.{
  named, has_node_id, upsert_rows, register_node, beat_row, heartbeat, is_stale, mark_stale_down,
}

abbrev pub count_node_id : String → List NodeRow → ℕ
count_node_id id rows = sum_of (λ (r : NodeRow). if str_eq r.id id then 1 else 0) rows

abbrev pub count_name : String → List NodeRow → ℕ
count_name name rows = sum_of (λ (r : NodeRow). if str_eq r.name name then 1 else 0) rows

-- The keys of the table: an id and a name stand in it once at most.
abbrev pub UniqueNodes : List NodeRow → Type 0
UniqueNodes rows = (k : String) → (count_node_id k rows ≤ 1) × (count_name k rows ≤ 1)

-- The statements that write the table of nodes.
pub data NodeOp : Type 0 where
  register : Node → NodeOp
  beat : Node → Time → NodeOp
  sweep : Time → NodeOp

unfoldable pub apply_node : NodeOp → Db → Db
apply_node (register n) db = (register_node n db).1
apply_node (beat n t) db = (heartbeat n t db).1
apply_node (sweep t) db = (mark_stale_down t db).1

unfoldable pub apply_nodes : List NodeOp → Db → Db
apply_nodes [] db = db
apply_nodes (op ∷ ops) db = apply_nodes ops (apply_node op db)

-- The ids and the names, in the order of the table.
abbrev pub keys : List NodeRow → List (String × String)
keys rows = map {B = String × String} (λ (r : NodeRow). (r.id, r.name)) rows

keys-map :
    (f : NodeRow → NodeRow) (rows : List NodeRow)
    → ((r : NodeRow) → ((f r).id ≡ r.id) × ((f r).name ≡ r.name))
    → keys (map f rows) ≡ keys rows
keys-map f [] h = refl
keys-map f (r ∷ rs) h = cc ((h r).0, (h r).1, keys-map f rs h)

keys-upsert_rows : (new : NodeRow) (rows : List NodeRow) → keys (upsert_rows new rows) ≡ keys rows
unfolding upsert_rows
keys-upsert_rows new [] = refl
keys-upsert_rows new (r ∷ rs) = elim (Bool-cases (named new.name r)) [
  | inl e ↦ rw e refl
  | inr e ↦ rw e (ap (λ ks. (r.id, r.name) ∷ ks) (keys-upsert_rows new rs))
]

if_keys :
    (b : Bool) (r r' : NodeRow)
    → (r'.id ≡ r.id) × (r'.name ≡ r.name)
    → ((if b then r' else r).id ≡ r.id) × ((if b then r' else r).name ≡ r.name)
if_keys true r r' h = h
if_keys false r r' h = (refl, refl)

-- A registration of a name that is there, a heartbeat and a sweep keep the keys; a new name is added
-- at the end, with the id that is handed in.
abbrev pub Registered : NodeOp → List NodeRow → List NodeRow → Type 0
Registered (register n) before after =
    (keys after ≡ keys before)
    ⊎ (any (named n.name) before ≡ false)
      × (any (has_node_id n.id) before ≡ false)
      × (keys after ≡ keys before ++ (n.id, n.name) ∷ [])
Registered (beat n t) before after = keys after ≡ keys before
Registered (sweep t) before after = keys after ≡ keys before

find-none : (p : NodeRow → Bool) (rows : List NodeRow) → find p rows ≡ none → any p rows ≡ false
find-none p [] h = refl
find-none p (r ∷ rs) h = ground (arith, find-none p rs)

keys-append :
    (rows : List NodeRow) (r : NodeRow) → keys (rows ++ r ∷ []) ≡ keys rows ++ (r.id, r.name) ∷ []
keys-append [] r = refl
keys-append (x ∷ xs) r = ap (λ ks. (x.id, x.name) ∷ ks) (keys-append xs r)

register_node-Registered :
    (n : Node) (db : Db) → Registered (register n) db.nodes (register_node n db).1.nodes
unfolding register_node node_row
register_node-Registered n db = elim (Option-cases (find (named n.name) db.nodes)) [
  | inl e ↦ elim (Bool-cases (any (has_node_id n.id) db.nodes)) [
    | inl f ↦ inl (rw (e, register_node) (rw f refl))
    | inr f ↦ inr (
      find-none (named n.name) db.nodes e,
      f,
      rw (e, register_node) (rw f (keys-append db.nodes (node_row n))),
    )
  ]
  | inr (r, e) ↦ inl (rw (e, register_node) (keys-upsert_rows (node_row n) db.nodes))
]

apply_node-Registered : (op : NodeOp) (db : Db) → Registered op db.nodes (apply_node op db).nodes
unfolding apply_node heartbeat mark_stale_down
apply_node-Registered (register n) db = register_node-Registered n db
apply_node-Registered (beat n t) db =
    keys-map (λ r. if has_node_id n.id r then beat_row n t r else r) db.nodes
      (λ r. if_keys (has_node_id n.id r) r (beat_row n t r) (refl, refl))
apply_node-Registered (sweep t) db =
    keys-map _ db.nodes (λ r. if_keys (is_stale t r) r _ (refl, refl))

-- Over the keys alone: an id or a name stands among them once at most.
abbrev key_count : (String × String → Bool) → List (String × String) → ℕ
key_count p ks = sum_of (λ k. if p k then 1 else 0) ks

count_node_id-keys :
    (k : String) (rows : List NodeRow)
    → count_node_id k rows ≡ key_count (λ p. str_eq p.0 k) (keys rows)
count_node_id-keys k [] = refl
count_node_id-keys k (r ∷ rs) =
    ap (λ n. (if str_eq r.id k then 1 else 0) + n) (count_node_id-keys k rs)

count_name-keys :
    (k : String) (rows : List NodeRow)
    → count_name k rows ≡ key_count (λ p. str_eq p.1 k) (keys rows)
count_name-keys k [] = refl
count_name-keys k (r ∷ rs) = ap (λ n. (if str_eq r.name k then 1 else 0) + n) (count_name-keys k rs)

no_such_id :
    (k : String) (rows : List NodeRow) → any (has_node_id k) rows ≡ false → count_node_id k rows ≡ 0
no_such_id k [] h = refl
no_such_id k (r ∷ rs) h = ground (arith, no_such_id k rs)

no_such_name :
    (k : String) (rows : List NodeRow) → any (named k) rows ≡ false → count_name k rows ≡ 0
no_such_name k [] h = refl
no_such_name k (r ∷ rs) h = ground (arith, no_such_name k rs)

same_keys-UniqueNodes :
    (rows rows' : List NodeRow) → keys rows' ≡ keys rows → UniqueNodes rows → UniqueNodes rows'
same_keys-UniqueNodes rows rows' e u k = (
  subst⁻¹ (λ n. n ≤ 1)
      (count_node_id-keys k rows'
        ∙ ap (key_count (λ p. str_eq p.0 k)) e
        ∙ sym (count_node_id-keys k rows))
      (u k).0,
  subst⁻¹ (λ n. n ≤ 1)
      (count_name-keys k rows'
        ∙ ap (key_count (λ p. str_eq p.1 k)) e
        ∙ sym (count_name-keys k rows))
      (u k).1,
)

pub new_key-UniqueNodes :
    (id name : String) (rows rows' : List NodeRow)
    → any (named name) rows ≡ false
    → any (has_node_id id) rows ≡ false
    → keys rows' ≡ keys rows ++ (id, name) ∷ []
    → UniqueNodes rows
    → UniqueNodes rows'
new_key-UniqueNodes id name rows rows' hn hi e u k = (
  ground (
    arith,
    u k,
    count_node_id-keys k rows',
    count_node_id-keys k rows,
    ap (key_count (λ p. str_eq p.0 k)) e,
    sum_of-append (λ (p : String × String). if str_eq p.0 k then 1 else 0) (keys rows)
        ((id, name) ∷ []),
    str_eq_iff id k,
    no_such_id id rows hi,
  ),
  ground (
    arith,
    u k,
    count_name-keys k rows',
    count_name-keys k rows,
    ap (key_count (λ p. str_eq p.1 k)) e,
    sum_of-append (λ (p : String × String). if str_eq p.1 k then 1 else 0) (keys rows)
        ((id, name) ∷ []),
    str_eq_iff name k,
    no_such_name name rows hn,
  ),
)

Registered-UniqueNodes :
    (op : NodeOp) (rows rows' : List NodeRow)
    → Registered op rows rows'
    → UniqueNodes rows
    → UniqueNodes rows'
Registered-UniqueNodes (register n) rows rows' (inl e) u = same_keys-UniqueNodes rows rows' e u
Registered-UniqueNodes (register n) rows rows' (inr h) u =
    new_key-UniqueNodes n.id n.name rows rows' h.0 h.1 h.2 u
Registered-UniqueNodes (beat n t) rows rows' e u = same_keys-UniqueNodes rows rows' e u
Registered-UniqueNodes (sweep t) rows rows' e u = same_keys-UniqueNodes rows rows' e u

Registered-prefix :
    (op : NodeOp) (rows rows' : List NodeRow)
    → Registered op rows rows'
    → (more : List (String × String)) × (keys rows' ≡ keys rows ++ more)
Registered-prefix (register n) rows rows' (inl e) = ([], e ∙ sym (append-nil (keys rows)))
Registered-prefix (register n) rows rows' (inr h) = ((n.id, n.name) ∷ [], h.2)
Registered-prefix (beat n t) rows rows' e = ([], e ∙ sym (append-nil (keys rows)))
Registered-prefix (sweep t) rows rows' e = ([], e ∙ sym (append-nil (keys rows)))

-- From a table in which an id and a name stand once at most, every sequence of registrations, heartbeats
-- and sweeps leaves such a table, and each node that was there keeps its place, its id and its name: new
-- nodes are added behind.
pub nodes_keep_identity :
    (ops : List NodeOp) (db : Db)
    → UniqueNodes db.nodes
    → UniqueNodes (apply_nodes ops db).nodes
      × ((more : List (String × String)) × (keys (apply_nodes ops db).nodes
            ≡ keys db.nodes ++ more))
unfolding apply_nodes
nodes_keep_identity [] db u = (u, ([], sym (append-nil (keys db.nodes))))
nodes_keep_identity (op ∷ ops) db u =
    let h = apply_node-Registered op db in
    let (m, e) = Registered-prefix op db.nodes (apply_node op db).nodes h in
    let (u', (m', e')) =
      nodes_keep_identity ops (apply_node op db)
        (Registered-UniqueNodes op db.nodes (apply_node op db).nodes h u) in
    (u', (m ++ m', e' ∙ ap (λ ks. ks ++ m') e ∙ append_assoc (keys db.nodes) m m'))
