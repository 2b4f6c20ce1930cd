-- ===== src/ResponseLog/Small.antt =====
-- What a response that is logged in full does not hold.
use kratos_core.Prelude.{
  ℕ, ◌≤◌, String, ◌≡◌, refl, Bool, true, false, Option, none, some, arith, Bool-cases, Option-cases,
  inl, inr, ltb, ◌⊎◌,
}
use kratos_core.Prelude.Error.{ok}
use kratos_core.ResponseLog.Trees.{list_nodes, value_levels, message_list_stats-counts}
use kratos_core.ResponseLog.{
  Message, message, Fields, no_fields, field, Value, messages, scalars, mapping, single, no_message,
  Messages, no_messages, more, Entries, no_entries, entry, scalar_entry, CollectionHit,
  CollectionStats, count, too_large, or_else, when, join_path, message_list_stats, find_in_message,
  find_in_fields, find_in_value, find_in_list, find_in_map, Codec, Reply, extract_response,
  ResponseLogSummary,
}

-- No list in the message, however deep, has more than 20 items, and no list of messages starts a
-- tree of lists of more than 100 messages or more than 5 levels.
abbrev mutual
  pub IsSmall : Message → Type 0
  IsSmall (message fs) = AllSmall fs

  pub AllSmall : Fields → Type 0
  AllSmall no_fields = Unit
  AllSmall (field name v rest) = SmallValue v × AllSmall rest

  pub SmallValue : Value → Type 0
  SmallValue (messages no_messages) = Unit
  SmallValue (messages (more m rest)) =
      (count (more m rest) ≤ 20)
      × (list_nodes (more m rest) ≤ 100)
      × (value_levels (messages (more m rest)) ≤ 5)
      × IsSmall m
      × SmallList rest
  SmallValue (scalars n) = n ≤ 20
  SmallValue (mapping es) = SmallMap es
  SmallValue (single m) = IsSmall m
  SmallValue no_message = Unit

  pub SmallList : Messages → Type 0
  SmallList no_messages = Unit
  SmallList (more m rest) = IsSmall m × SmallList rest

  pub SmallMap : Entries → Type 0
  SmallMap no_entries = Unit
  SmallMap (entry key m rest) = IsSmall m × SmallMap rest
  SmallMap (scalar_entry key rest) = SmallMap rest

or_else-none : (a b : Option CollectionHit) → or_else a b ≡ none → (a ≡ none) × (b ≡ none)
or_else-none none b h = (refl, h)
or_else-none (some x) b h = ground (arith, h)

when-none : (b : Bool) (hit : CollectionHit) → when b hit ≡ none → b ≡ false
when-none true hit h = ground (arith, h)
when-none false hit h = refl

not_larger : (n k : ℕ) → ltb k n ≡ false → n ≤ k
not_larger n k h = ground (arith, h)

not_too_large :
    (stats : CollectionStats)
    → too_large stats ≡ false
    → (stats.total_node_count ≤ 100) × (stats.max_depth ≤ 5)
not_too_large stats h = ground (arith, h)

mutual
  unfolding find_in_message find_in_fields find_in_value find_in_list find_in_map

  find_in_message-IsSmall :
      (m : Message) (path : String) → find_in_message m path ≡ none → IsSmall m
  find_in_message-IsSmall (message fs) path h = find_in_fields-AllSmall fs path h

  find_in_fields-AllSmall :
      (fs : Fields) (path : String) → find_in_fields fs path ≡ none → AllSmall fs
  find_in_fields-AllSmall no_fields path h = tt
  find_in_fields-AllSmall (field name v rest) path h =
      let (a, b) = or_else-none (find_in_value v (join_path path name)) _ h in
      (find_in_value-SmallValue v (join_path path name) a, find_in_fields-AllSmall rest path b)

  find_in_value-SmallValue :
      (v : Value) (path : String) → find_in_value v path ≡ none → SmallValue v
  find_in_value-SmallValue (messages no_messages) path h = tt
  find_in_value-SmallValue (messages (more m rest)) path h =
      let (a, b) = or_else-none _ _ h in
      let (c, d) = or_else-none _ _ b in
      let (e, f) = or_else-none (find_in_message m path) (find_in_list rest path) d in
      let (n, k) = not_too_large (message_list_stats (more m rest) 1) (when-none _ _ c) in
      let (nodes_counted, levels_counted) = message_list_stats-counts (more m rest) in
      (
        not_larger (count (more m rest)) 20 (when-none _ _ a),
        omega (arith, n, nodes_counted),
        omega (arith, k, levels_counted),
        find_in_message-IsSmall m path e,
        find_in_list-SmallList rest path f,
      )
  find_in_value-SmallValue (scalars n) path h = not_larger n 20 (when-none _ _ h)
  find_in_value-SmallValue (mapping es) path h = find_in_map-SmallMap es path h
  find_in_value-SmallValue (single m) path h = find_in_message-IsSmall m path h
  find_in_value-SmallValue no_message path h = tt

  find_in_list-SmallList : (l : Messages) (path : String) → find_in_list l path ≡ none → SmallList l
  find_in_list-SmallList no_messages path h = tt
  find_in_list-SmallList (more m rest) path h =
      let (a, b) = or_else-none (find_in_message m path) _ h in
      (find_in_message-IsSmall m path a, find_in_list-SmallList rest path b)

  find_in_map-SmallMap : (es : Entries) (path : String) → find_in_map es path ≡ none → SmallMap es
  find_in_map-SmallMap no_entries path h = tt
  find_in_map-SmallMap (entry key m rest) path h =
      let (a, b) = or_else-none (find_in_message m (join_path path key)) _ h in
      (find_in_message-IsSmall m (join_path path key) a, find_in_map-SmallMap rest path b)
  find_in_map-SmallMap (scalar_entry key rest) path h = find_in_map-SmallMap rest path h

module _ (c : Codec) where
  -- The log of a message response that could be encoded is a summary, or the redacted body of at
  -- most 32 KiB of a message in which no list has more than 20 items, and no list of messages starts
  -- a tree of lists of more than 100 messages or more than 5 levels. Lists below single messages and
  -- in maps belong to the tree; a single message is neither one of its messages nor a level.
  pub extract_response-IsSmall :
      (reply : Reply) (m : Message) (body : String)
      → reply.proto ≡ some m
      → c.marshal reply ≡ ok body
      → ((s : ResponseLogSummary) × (extract_response c reply ≡ c.summary s))
        ⊎ ((extract_response c reply ≡ c.redact body) × IsSmall m × (c.byte_length body ≤ 32768))
  unfolding extract_response
  extract_response-IsSmall reply m body q h = elim (Option-cases (find_in_message m "")) [
    | inr (hit, p) ↦ inl (
      record {
        reason = "large_collection_response";
        hit = some hit;
        byte_size = c.byte_length body;
      },
      rw (h, q, p) refl,
    )
    | inl p ↦ elim (Bool-cases (ltb 32768 (c.byte_length body))) [
      | inl t ↦ inl (
        record { reason = "large_payload_response"; hit = none; byte_size = c.byte_length body },
        rw (h, q, p, t) refl,
      )
      | inr f ↦ inr (
        rw (h, q, p, f) refl,
        find_in_message-IsSmall m "" p,
        not_larger (c.byte_length body) 32768 f,
      )
    ]
  ]
