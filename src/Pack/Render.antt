-- ===== src/Pack/Render.antt =====
-- src/grag/core/serialize.py: the lines that a packed context is made of.
use Prim.Native.String
use Prim.Native.Nat.{ℕ}
use grag.Base.{
  String, ◌<>◌, List, [], ◌∷◌, ◌+◌, ◌/◌, none, some, str_eq, Bool, false, not, ◌&&◌, ◌||◌,
  if◌then◌else◌, is_empty,
}
use grag.Base.Dict.{contains}
use grag.Base.Values.{Value, Props, get, is_null, truthy, Python}
use grag.Graph.{vector_props, NodeRecord, EdgeRecord, partition_colon}

abbrev pub provenance_source : String
provenance_source = "_source"

abbrev pub safety_props : List String
safety_props =
    "_evidence_state" ∷ "_review_state" ∷ "_expires_at" ∷ "_superseded_by" ∷ "_evidence_seq"
    ∷ "_document_state" ∷ "_source_state" ∷ "_history_revision" ∷ "_evidence_visibility"
    ∷ "_source_changed" ∷ "status" ∷ []

abbrev pub hidden_props : List String
hidden_props = "_source_files" ∷ []

abbrev pub citation_props : List String
citation_props =
    provenance_source ∷ "line_start" ∷ "line_end" ∷ "status" ∷ "_revision" ∷ safety_props

-- `estimate_tokens`: a quarter of the bytes of the UTF-8, rounded up
unfoldable pub estimate_tokens : String → ℕ
estimate_tokens s = (String.len s + 3) / 4

-- `sep.join(parts)`
unfoldable pub join : String → List String → String
join sep [] = ""
join sep (p ∷ []) = p
join sep (p ∷ q ∷ ps) = p <> sep <> join sep (q ∷ ps)

-- `any(c in source for c in chars)`
unfoldable pub any_char : List String → String → Bool
any_char chars String.[] = false
any_char chars (String.◌∷◌ c s) = contains chars (String.◌∷◌ c "") || any_char chars s

module _ (py : Python) where
  -- `_render_value`; where `json.dumps` fails, the JSON of `str(value)`
  unfoldable pub render_value : Value → String
  render_value v =
      let dated : Value = elim (py.isoformat v) [ none ↦ v | some s ↦ Value.str s ] in
      elim (py.dumps dated) [ none ↦ py.dumps_text (py.format dated) | some s ↦ s ]

  prop_parts : Props → List String → List String
  prop_parts [] skip = []
  prop_parts ((k, v) ∷ props) skip =
      let rest = prop_parts props skip in
      if contains skip k || contains vector_props k || contains hidden_props k || is_null v
      then rest
      else (k <> ": " <> render_value v) ∷ rest

  unfoldable pub render_props : Props → List String → String
  unfolding prop_parts
  render_props props skip =
      let parts = prop_parts props skip in
      if is_empty parts then "" else "{" <> join ", " parts <> "}"

  -- The key repeats no `id` property, and the source stands in the suffix.
  node_skip : NodeRecord → List String
  node_skip node =
      let (_, key) = partition_colon node.id in
      if not (str_eq key "") && str_eq (py.format (get node.properties "id")) key
      then provenance_source ∷ "id" ∷ []
      else provenance_source ∷ []

  source_text : Value → String
  source_text (Value.str s) =
      if any_char ("\n" ∷ "\r" ∷ "\t" ∷ "[" ∷ "]" ∷ []) s then render_value (Value.str s) else s
  source_text v = py.format v

  source_suffix : Props → String
  source_suffix props =
      let source = get props provenance_source in
      if truthy source then " [source: " <> source_text source <> "]" else ""

  unfoldable pub node_line : NodeRecord → String
  unfolding node_skip source_text source_suffix
  node_line node =
      let rendered = render_props node.properties (node_skip node) in
      node.id
      <> (if str_eq rendered "" then "" else " " <> rendered)
      <> source_suffix node.properties

  unfoldable pub edge_line : EdgeRecord → String
  edge_line edge =
      let rendered = render_props edge.properties [] in
      edge.source
      <> " -["
      <> edge.kind
      <> (if str_eq rendered "" then "" else " " <> rendered)
      <> "]-> "
      <> edge.target
