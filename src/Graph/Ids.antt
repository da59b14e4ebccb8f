-- ===== src/Graph/Ids.antt =====
-- `make_node_id` and `split_node_id` are inverse where the label holds no colon.
use Prim.Native.String.append
use grag.Base.{String, ◌<>◌, ◌≡◌, str_eq, Bool, true, not, ◌&&◌, arith}
use grag.Graph.{make_node_id, partition_colon, split_node_id}

abbrev pub colon_free : String → Bool
colon_free String.[] = true
colon_free (String.◌∷◌ c s) = not (str_eq (String.◌∷◌ c "") ":") && colon_free s

partition_colon-append :
    (label key : String)
    → colon_free label ≡ true
    → partition_colon (label <> (":" <> key)) ≡ (label, key)
unfolding partition_colon
partition_colon-append String.[] key h = rw (append.nil, append.cons, append.nil)
partition_colon-append (String.◌∷◌ c s) key h =
    rw append.cons (ground (arith, partition_colon-append s key))

-- Splitting the id of a node gives its label and its key back, whatever the key holds, if the label
-- holds no colon.
pub split_node_id-make_node_id :
    (label key : String)
    → colon_free label ≡ true
    → split_node_id (make_node_id label key) ≡ (label, key)
unfolding split_node_id make_node_id
split_node_id-make_node_id label key h = partition_colon-append label key h
