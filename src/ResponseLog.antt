-- ===== src/ResponseLog.antt =====
-- server/middleware/logging/response_log.go: which responses are logged as a summary only. A
-- message is the tree of its fields; reflection is the reading of that tree.
pub mod Trees
pub mod Small
mod Tests
use kratos_core.Prelude.{
  ℕ, suc, ◌+◌, ◌*◌, String, Bool, true, false, ◌||◌, Option, none, some, List, length, ltb, leb,
  ◌∷◌, [], if◌then◌else◌,
}
use Prim.Native.String.{◌++◌ as str_append}
use kratos_core.Prelude.Eq.{◌==◌, string_eq}
use kratos_core.Prelude.Error.{Error, Result, ok, err}

-- A field holds a list of messages, a list of that many scalars, a map, one message, or what is
-- neither. A map's value may be no message.
mutual
  pub data Message : Type 0 where
    message : Fields → Message

  pub data Fields : Type 0 where
    no_fields : Fields
    field : String → Value → Fields → Fields

  pub data Value : Type 0 where
    messages : Messages → Value
    scalars : ℕ → Value
    mapping : Entries → Value
    single : Message → Value
    no_message : Value

  pub data Messages : Type 0 where
    no_messages : Messages
    more : Message → Messages → Messages

  pub data Entries : Type 0 where
    no_entries : Entries
    entry : String → Message → Entries → Entries
    scalar_entry : String → Entries → Entries

abbrev pub response_log_byte_limit : ℕ
response_log_byte_limit = 32 * 1024

abbrev pub response_list_item_limit : ℕ
response_list_item_limit = 20

abbrev pub response_node_count_limit : ℕ
response_node_count_limit = 100

abbrev pub response_tree_depth_limit : ℕ
response_tree_depth_limit = 5

pub record CollectionHit : Type 0 where
  pub path : String
  pub kind : String
  pub top_level_count : ℕ
  pub total_node_count : ℕ
  pub max_depth : ℕ

pub record CollectionStats : Type 0 where
  pub top_level_count : ℕ
  pub total_node_count : ℕ
  pub max_depth : ℕ

abbrev pub count : Messages → ℕ
count no_messages = 0
count (more m rest) = suc (count rest)

abbrev pub larger : ℕ → ℕ → ℕ
larger a b = if ltb a b then b else a

-- What a loop adds to the statistics for a child.
abbrev pub joined : CollectionStats → CollectionStats → CollectionStats
joined stats child = record stats {
  total_node_count = stats.total_node_count + child.total_node_count;
  max_depth = larger stats.max_depth child.max_depth;
}

abbrev pub at_depth : ℕ → CollectionStats
at_depth depth = record { top_level_count = 0; total_node_count = 0; max_depth = depth }

abbrev pub node_stats : ℕ → CollectionStats → CollectionStats
node_stats depth below =
    joined (record { top_level_count = 0; total_node_count = 1; max_depth = depth }) below

-- The statistics, each loop with those so far.
unfoldable mutual
  -- `collectMessageDescendantStats`
  pub descendant_stats : Message → ℕ → CollectionStats
  descendant_stats (message fs) depth = fields_stats fs depth (at_depth depth)

  pub fields_stats : Fields → ℕ → CollectionStats → CollectionStats
  fields_stats no_fields depth stats = stats
  fields_stats (field name v rest) depth stats = fields_stats rest depth (value_stats v depth stats)

  pub value_stats : Value → ℕ → CollectionStats → CollectionStats
  value_stats (messages no_messages) depth stats = stats
  value_stats (messages (more m rest)) depth stats = joined stats (
      list_stats rest (suc depth) (
        joined (record (at_depth (suc depth)) { top_level_count = count (more m rest) })
          (node_stats (suc depth) (descendant_stats m (suc depth)))))
  value_stats (scalars n) depth stats = stats
  value_stats (mapping es) depth stats = joined stats (map_stats es depth (at_depth depth))
  value_stats (single m) depth stats = joined stats (descendant_stats m depth)
  value_stats no_message depth stats = stats

  -- The loop of `collectMessageListStats`, with `collectMessageNodeStats` of each message.
  pub list_stats : Messages → ℕ → CollectionStats → CollectionStats
  list_stats no_messages depth stats = stats
  list_stats (more m rest) depth stats =
      list_stats rest depth (joined stats (node_stats depth (descendant_stats m depth)))

  -- `collectMessageMapStats`
  pub map_stats : Entries → ℕ → CollectionStats → CollectionStats
  map_stats no_entries depth stats = stats
  map_stats (entry key m rest) depth stats =
      map_stats rest depth (joined stats (descendant_stats m depth))
  map_stats (scalar_entry key rest) depth stats = map_stats rest depth stats

-- `collectMessageListStats`
unfoldable pub message_list_stats : Messages → ℕ → CollectionStats
message_list_stats l depth =
    list_stats l depth (record (at_depth depth) { top_level_count = count l })

-- `joinCollectionFieldPath`
abbrev pub join_path : String → String → String
join_path parent name = if parent == "" then name else str_append parent (str_append "." name)

abbrev pub list_hit : String → ℕ → CollectionHit
list_hit path n = record {
  path = path;
  kind = "list";
  top_level_count = n;
  total_node_count = n;
  max_depth = 1;
}

abbrev pub tree_hit : String → CollectionStats → CollectionHit
tree_hit path stats = record {
  path = path;
  kind = "tree";
  top_level_count = stats.top_level_count;
  total_node_count = stats.total_node_count;
  max_depth = stats.max_depth;
}

abbrev pub too_large : CollectionStats → Bool
too_large stats =
    ltb response_node_count_limit stats.total_node_count
    || ltb response_tree_depth_limit stats.max_depth

-- The first hit ends the search.
abbrev pub or_else : Option CollectionHit → Option CollectionHit → Option CollectionHit
or_else none later = later
or_else (some hit) later = some hit

abbrev pub when : Bool → CollectionHit → Option CollectionHit
when true hit = some hit
when false hit = none

unfoldable mutual
  -- `findLargeCollectionInMessage`
  pub find_in_message : Message → String → Option CollectionHit
  find_in_message (message fs) parent = find_in_fields fs parent

  pub find_in_fields : Fields → String → Option CollectionHit
  find_in_fields no_fields parent = none
  find_in_fields (field name v rest) parent =
      or_else (find_in_value v (join_path parent name)) (find_in_fields rest parent)

  pub find_in_value : Value → String → Option CollectionHit
  find_in_value (messages no_messages) path = none
  find_in_value (messages (more m rest)) path =
      or_else
        (when (ltb response_list_item_limit (count (more m rest)))
          (list_hit path (count (more m rest))))
        (or_else
          (when (too_large (message_list_stats (more m rest) 1))
            (tree_hit path (message_list_stats (more m rest) 1)))
          (or_else (find_in_message m path) (find_in_list rest path)))
  find_in_value (scalars n) path = when (ltb response_list_item_limit n) (list_hit path n)
  find_in_value (mapping es) path = find_in_map es path
  find_in_value (single m) path = find_in_message m path
  find_in_value no_message path = none

  pub find_in_list : Messages → String → Option CollectionHit
  find_in_list no_messages path = none
  find_in_list (more m rest) path = or_else (find_in_message m path) (find_in_list rest path)

  -- `findLargeCollectionInMap`
  pub find_in_map : Entries → String → Option CollectionHit
  find_in_map no_entries parent = none
  find_in_map (entry key m rest) parent =
      or_else (find_in_message m (join_path parent key)) (find_in_map rest parent)
  find_in_map (scalar_entry key rest) parent = find_in_map rest parent

pub record ResponseLogSummary : Type 0 where
  pub reason : String
  pub hit : Option CollectionHit
  pub byte_size : ℕ

-- A response, by the interfaces it implements: a message, a `Redacter`, a `Stringer`; and its
-- text by `%+v`.
pub record Reply : Type 0 where
  pub proto : Option Message
  pub redacted : Option String
  pub string : Option String
  pub formatted : String

-- `marshalResponseBody` and `len`, `marshalResponseSummary`, `redactLogJSON` and
-- `marshalFallbackText`, all on the standard library's JSON.
pub record Codec : Type 0 where
  pub marshal : Reply → Result String
  pub byte_length : String → ℕ
  pub summary : ResponseLogSummary → String
  pub redact : String → String
  pub fallback_text : String → String

module _ (c : Codec) where
  -- The texts of the response in the order the code tries them.
  abbrev reply_text : Option String → Option String → String → String
  reply_text (some text) _ _ = text
  reply_text none (some text) _ = text
  reply_text none none text = text

  abbrev pub large_hit : Option Message → Option CollectionHit
  large_hit none = none
  large_hit (some m) = find_in_message m ""

  abbrev pub summarized : String → Option CollectionHit → String
  summarized body (some hit) = c.summary (record {
    reason = "large_collection_response";
    hit = some hit;
    byte_size = c.byte_length body;
  })
  summarized body none =
      if ltb response_log_byte_limit (c.byte_length body)
      then c.summary
          (record { reason = "large_payload_response"; hit = none; byte_size = c.byte_length body })
      else c.redact body

  abbrev pub extracted : Reply → Result String → String
  extracted reply (ok body) = summarized body (large_hit reply.proto)
  extracted reply (err e) = c.fallback_text (reply_text reply.redacted reply.string reply.formatted)

  -- `extractResponse`
  unfoldable pub extract_response : Reply → String
  unfolding find_in_message
  extract_response reply = extracted reply (c.marshal reply)
