-- ===== src/Topology/Graph.antt =====
-- topology/graph.go: the nodes and lines that the DOT reader builds, with their attributes. The graph
-- around them is gonum's, which is not part of the repository.
use runtopo.Prelude.{ℕ, ◌≡◌, Bytes, none, some, List, [], ◌∷◌}
use runtopo.Prelude.Dict.{Dict, lookup, insert, lookup-insert_own}
use runtopo.Topology.Link.{Link}

pub record DotPortLabels : Type 0 where
  pub port : Bytes
  pub compass : Bytes

-- `id` is the embedded `graph.Node`.
pub record DotNode : Type 0 where
  pub id : ℕ
  pub dot_id : Bytes
  pub attrs : Dict Bytes

-- `from` and `to` are the ends of the embedded `multi.Line`.
pub record DotLine : Type 0 where
  pub from : DotNode
  pub to : DotNode
  pub from_port_labels : DotPortLabels
  pub to_port_labels : DotPortLabels
  pub attrs : Dict Bytes

no_labels : DotPortLabels
no_labels = record { port = []; compass = [] }

unfoldable pub new_node : ℕ → DotNode
new_node id = record { id = id; dot_id = []; attrs = [] }

unfoldable pub new_line : DotNode → DotNode → DotLine
unfolding no_labels
new_line from to = record {
  from = from;
  to = to;
  from_port_labels = no_labels;
  to_port_labels = no_labels;
  attrs = [];
}

unfoldable pub set_dot_id : Bytes → DotNode → DotNode
set_dot_id id n = record n { dot_id = id }

unfoldable pub set_node_attribute : Bytes → Bytes → DotNode → DotNode
set_node_attribute key value n = record n { attrs = insert key value n.attrs }

unfoldable pub set_line_attribute : Bytes → Bytes → DotLine → DotLine
set_line_attribute key value e = record e { attrs = insert key value e.attrs }

unfoldable pub set_from_port : Bytes → Bytes → DotLine → DotLine
set_from_port port compass e = record e {
  from_port_labels = record { port = port; compass = compass };
}

unfoldable pub set_to_port : Bytes → Bytes → DotLine → DotLine
set_to_port port compass e = record e { to_port_labels = record { port = port; compass = compass } }

-- The body of the loop of `Links`.
unfoldable pub link_of_line : DotLine → Link
link_of_line e = record {
  from = e.from.dot_id;
  from_port = e.from_port_labels.port;
  to = e.to.dot_id;
  to_port = e.to_port_labels.port;
  attrs = e.attrs;
}

-- `Attributes` of a node or a line, with their keys and values; `order` is the sequence of keys that the range
-- over the map visits.
unfoldable pub to_attribute_slice : List Bytes → Dict Bytes → List (Bytes × Bytes)
to_attribute_slice [] m = []
to_attribute_slice (k ∷ order) m = elim (lookup k m) [
  | none ↦ to_attribute_slice order m
  | some v ↦ (k, v) ∷ to_attribute_slice order m
]

unfoldable pub node_attributes : List Bytes → DotNode → List (Bytes × Bytes)
node_attributes order n = to_attribute_slice order n.attrs

unfoldable pub line_attributes : List Bytes → DotLine → List (Bytes × Bytes)
line_attributes order e = to_attribute_slice order e.attrs

unfoldable pub node_string : DotNode → Bytes
node_string n = n.dot_id

unfoldable pub from_port : DotLine → Bytes × Bytes
from_port e = (e.from_port_labels.port, e.from_port_labels.compass)

unfoldable pub to_port : DotLine → Bytes × Bytes
to_port e = (e.to_port_labels.port, e.to_port_labels.compass)

-- An attribute that has been set is listed with its value, once the range visits its key first.
node_attributes-set :
    (key value : Bytes) (order : List Bytes) (n : DotNode)
    → node_attributes (key ∷ order) (set_node_attribute key value n)
      ≡ (key, value) ∷ node_attributes order (set_node_attribute key value n)
unfolding node_attributes to_attribute_slice set_node_attribute
node_attributes-set key value order n = rw (lookup-insert_own key value n.attrs, to_attribute_slice)
