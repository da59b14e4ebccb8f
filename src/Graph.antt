-- ===== src/Graph.antt =====
-- src/grag/core/types.py: node ids, graph records, and the union of subgraphs.
pub mod Ids
use grag.Base.{
  String, ◌<>◌, List, [], ◌∷◌, Option, none, some, str_eq, Bool, true, false, if◌then◌else◌,
}
use grag.Base.Dict.{Dict, insert, has}
use grag.Base.Values.{Props}
use Prim.Native.String
use Prim.Native.Char.{Char, code}

-- `make_node_id`; the key is given as the text that an f-string makes of it.
unfoldable pub make_node_id : String → String → String
make_node_id label key = label <> ":" <> key

-- `s.partition(":")`, without the separator
unfoldable pub partition_colon : String → String × String
partition_colon String.[] = ("", "")
partition_colon (String.◌∷◌ c s) =
    let (before, after) = partition_colon s in
    if str_eq (String.◌∷◌ c "") ":" then ("", s) else (String.◌∷◌ c before, after)

unfoldable pub split_node_id : String → String × String
unfolding partition_colon
split_node_id node_id = partition_colon node_id

-- `VECTOR_PROPS`
abbrev pub vector_props : List String
vector_props = "embedding" ∷ "_emb_r" ∷ "_emb_code" ∷ "_emb_model" ∷ "_emb_fingerprint" ∷ []

pub record NodeRecord : Type 0 where
  pub id : String
  pub label : String
  pub properties : Props

pub record EdgeRecord : Type 0 where
  pub id : String
  pub kind : String
  pub source : String
  pub target : String
  pub properties : Props

pub record Subgraph : Type 0 where
  pub nodes : List NodeRecord
  pub edges : List EdgeRecord
