-- ===== src/ResponseLog/Trees.antt =====
-- The size of the trees that lists of messages start, and the code's counts of them.
use kratos_core.Prelude.{ℕ, suc, ◌+◌, ◌≤◌, ◌≡◌, refl, arith}
use kratos_core.ResponseLog.{
  Message, message, Fields, no_fields, field, Value, messages, scalars, mapping, single, no_message,
  Messages, no_messages, more, Entries, no_entries, entry, scalar_entry, CollectionStats, larger,
  at_depth, joined, node_stats, descendant_stats, fields_stats, value_stats, list_stats, map_stats,
  message_list_stats, count,
}

-- The messages that stand in lists below a message, at any depth. Single messages and the values
-- of maps are no nodes of their own, but the lists below them count.
abbrev mutual
  pub nodes : Message → ℕ
  nodes (message fs) = fields_nodes fs

  pub fields_nodes : Fields → ℕ
  fields_nodes no_fields = 0
  fields_nodes (field name v rest) = value_nodes v + fields_nodes rest

  pub value_nodes : Value → ℕ
  value_nodes (messages l) = list_nodes l
  value_nodes (scalars n) = 0
  value_nodes (mapping es) = map_nodes es
  value_nodes (single m) = nodes m
  value_nodes no_message = 0

  pub list_nodes : Messages → ℕ
  list_nodes no_messages = 0
  list_nodes (more m rest) = suc (nodes m) + list_nodes rest

  pub map_nodes : Entries → ℕ
  map_nodes no_entries = 0
  map_nodes (entry key m rest) = nodes m + map_nodes rest
  map_nodes (scalar_entry key rest) = map_nodes rest

-- The levels of lists of messages below a message; a list that is not empty is one, with the most
-- that stand below one of its messages.
abbrev mutual
  pub levels : Message → ℕ
  levels (message fs) = fields_levels fs

  pub fields_levels : Fields → ℕ
  fields_levels no_fields = 0
  fields_levels (field name v rest) = larger (value_levels v) (fields_levels rest)

  pub value_levels : Value → ℕ
  value_levels (messages no_messages) = 0
  value_levels (messages (more m rest)) = suc (larger (levels m) (list_levels rest))
  value_levels (scalars n) = 0
  value_levels (mapping es) = map_levels es
  value_levels (single m) = levels m
  value_levels no_message = 0

  pub list_levels : Messages → ℕ
  list_levels no_messages = 0
  list_levels (more m rest) = larger (levels m) (list_levels rest)

  pub map_levels : Entries → ℕ
  map_levels no_entries = 0
  map_levels (entry key m rest) = larger (levels m) (map_levels rest)
  map_levels (scalar_entry key rest) = map_levels rest

-- The later statistics count these nodes over the earlier ones, and are at least as deep as both.
record Grows (s t : CollectionStats) (n depth : ℕ) : Type 0 where
  counts : s.total_node_count + n ≤ t.total_node_count
  keeps : s.max_depth ≤ t.max_depth
  reaches : depth ≤ t.max_depth

-- A child with this many nodes and levels.
record Holds (t : CollectionStats) (n depth : ℕ) : Type 0 where
  counts : n ≤ t.total_node_count
  reaches : depth ≤ t.max_depth

larger_right : (a b : ℕ) → b ≤ larger a b
larger_right a b = ground arith

larger_left : (a b : ℕ) → a ≤ larger a b
larger_left a b = ground arith

larger_least : (a b c d : ℕ) → d + a ≤ c → d + b ≤ c → d + larger a b ≤ c
larger_least a b c d p q = ground (arith, p, q)

Grows-none : (s : CollectionStats) (depth : ℕ) → depth ≤ s.max_depth → Grows s s 0 (depth + 0)
Grows-none s depth h = record { counts = omega arith; keeps = omega arith; reaches = omega arith }

Grows-joined :
    (s c : CollectionStats) (n depth : ℕ) → Holds c n depth → Grows s (joined s c) n depth
Grows-joined s c n depth h =
    let a = h.counts in
    let b = h.reaches in
    let l = larger_left s.max_depth c.max_depth in
    let r = larger_right s.max_depth c.max_depth in
    record { counts = omega (arith, a); keeps = l; reaches = omega (arith, b, r) }

Grows-trans :
    (s t u : CollectionStats) (n k a b depth : ℕ)
    → Grows s t n (depth + a)
    → Grows t u k (depth + b)
    → Grows s u (n + k) (depth + larger a b)
Grows-trans s t u n k a b depth f g =
    let c = f.counts in
    let c' = g.counts in
    let k = f.keeps in
    let k' = g.keeps in
    let r = f.reaches in
    let r' = g.reaches in
    record {
      counts = omega (arith, c, c');
      keeps = omega (arith, k, k');
      reaches = larger_least a b u.max_depth depth (omega (arith, r, k')) r';
    }

Holds-node_stats :
    (c : CollectionStats) (n a depth : ℕ)
    → Holds c n (depth + a)
    → Holds (node_stats depth c) (suc n) (depth + a)
Holds-node_stats c n a depth h =
    let k = h.counts in
    let r = h.reaches in
    let d = larger_right depth c.max_depth in
    record { counts = omega (arith, k); reaches = omega (arith, r, d) }

Grows-Holds : (s t : CollectionStats) (n depth d : ℕ) → Grows s t n depth → depth ≡ d → Holds t n d
Grows-Holds s t n depth d g e =
    let k = g.counts in
    let r = g.reaches in record { counts = omega (arith, k); reaches = omega (arith, r, e) }

mutual
  unfolding descendant_stats fields_stats value_stats list_stats map_stats

  descendant_stats-Holds :
      (m : Message) (depth : ℕ) → Holds (descendant_stats m depth) (nodes m) (depth + levels m)
  descendant_stats-Holds (message fs) depth =
      Grows-Holds (at_depth depth) _ (fields_nodes fs) _ (depth + fields_levels fs)
        (fields_stats-Grows fs depth (at_depth depth) (omega arith)) refl

  fields_stats-Grows :
      (fs : Fields) (depth : ℕ) (s : CollectionStats)
      → depth ≤ s.max_depth
      → Grows s (fields_stats fs depth s) (fields_nodes fs) (depth + fields_levels fs)
  fields_stats-Grows no_fields depth s h = Grows-none s depth h
  fields_stats-Grows (field name v rest) depth s h =
      let here = value_stats-Grows v depth s h in
      let k = here.keeps in
      Grows-trans s (value_stats v depth s) _ (value_nodes v) (fields_nodes rest) (value_levels v)
        (fields_levels rest) depth here
        (fields_stats-Grows rest depth (value_stats v depth s) (omega (arith, h, k)))

  value_stats-Grows :
      (v : Value) (depth : ℕ) (s : CollectionStats)
      → depth ≤ s.max_depth
      → Grows s (value_stats v depth s) (value_nodes v) (depth + value_levels v)
  value_stats-Grows (messages no_messages) depth s h = Grows-none s depth h
  value_stats-Grows (messages (more m rest)) depth s h =
      let base = record (at_depth (suc depth)) { top_level_count = count (more m rest) } in
      let below = descendant_stats m (suc depth) in
      let node =
        Holds-node_stats below (nodes m) (levels m) (suc depth)
          (descendant_stats-Holds m (suc depth)) in
      let start = joined base (node_stats (suc depth) below) in
      let first = Grows-joined base (node_stats (suc depth) below) _ _ node in
      let k = first.keeps in
      let all =
        Grows-trans base start (list_stats rest (suc depth) start) (suc (nodes m)) (list_nodes rest)
          (levels m) (list_levels rest) (suc depth) first
          (list_stats-Grows rest (suc depth) start k) in
      Grows-joined s (list_stats rest (suc depth) start) (list_nodes (more m rest))
        (depth + suc (larger (levels m) (list_levels rest)))
        (Grows-Holds base _ _ _ _ all (omega arith))
  value_stats-Grows (scalars n) depth s h = Grows-none s depth h
  value_stats-Grows (mapping es) depth s h =
      Grows-joined s _ (map_nodes es) (depth + map_levels es) (
        Grows-Holds (at_depth depth) _ (map_nodes es) _ (depth + map_levels es)
          (map_stats-Grows es depth (at_depth depth) (omega arith)) refl)
  value_stats-Grows (single m) depth s h =
      Grows-joined s _ (nodes m) (depth + levels m) (descendant_stats-Holds m depth)
  value_stats-Grows no_message depth s h = Grows-none s depth h

  list_stats-Grows :
      (l : Messages) (depth : ℕ) (s : CollectionStats)
      → depth ≤ s.max_depth
      → Grows s (list_stats l depth s) (list_nodes l) (depth + list_levels l)
  list_stats-Grows no_messages depth s h = Grows-none s depth h
  list_stats-Grows (more m rest) depth s h =
      let node =
        Holds-node_stats (descendant_stats m depth) (nodes m) (levels m) depth
          (descendant_stats-Holds m depth) in
      let first = Grows-joined s (node_stats depth (descendant_stats m depth)) _ _ node in
      let k = first.keeps in
      Grows-trans s (joined s (node_stats depth (descendant_stats m depth))) _ (suc (nodes m))
        (list_nodes rest) (levels m) (list_levels rest) depth first
        (list_stats-Grows rest depth _ (omega (arith, h, k)))

  map_stats-Grows :
      (es : Entries) (depth : ℕ) (s : CollectionStats)
      → depth ≤ s.max_depth
      → Grows s (map_stats es depth s) (map_nodes es) (depth + map_levels es)
  map_stats-Grows no_entries depth s h = Grows-none s depth h
  map_stats-Grows (entry key m rest) depth s h =
      let first =
        Grows-joined s (descendant_stats m depth) (nodes m) (depth + levels m)
          (descendant_stats-Holds m depth) in
      let k = first.keeps in
      Grows-trans s (joined s (descendant_stats m depth)) _ (nodes m) (map_nodes rest) (levels m)
        (map_levels rest) depth first (map_stats-Grows rest depth _ (omega (arith, h, k)))
  map_stats-Grows (scalar_entry key rest) depth s h = map_stats-Grows rest depth s h

-- A list is counted with all its nodes and levels.
pub message_list_stats-counts :
    (l : Messages)
    → (list_nodes l ≤ (message_list_stats l 1).total_node_count)
      × (suc (list_levels l) ≤ (message_list_stats l 1).max_depth)
unfolding message_list_stats
message_list_stats-counts l =
    let start = record (at_depth 1) { top_level_count = count l } in
    let g = list_stats-Grows l 1 start (omega arith) in
    let k = g.counts in let r = g.reaches in (omega (arith, k), omega (arith, r))
