-- ===== src/Tests/Accessors.antt =====
-- The accessors of packages topology and libvirt, and the helpers, on small values.
use runtopo.Prelude.{
  ℕ, ◌≡◌, refl, codes, Option, some, none, [], ◌∷◌, true, Bytes, length, All, ok, panic, str_eq,
}
use runtopo.Prelude.Dict.{lookup, insert, attr}
use runtopo.Topology.Device.{device_links}
use runtopo.Topology.Graph.{
  DotNode, new_node, new_line, set_dot_id, set_node_attribute, set_line_attribute, set_to_port,
  set_from_port, node_attributes, line_attributes, node_string, from_port, to_port,
  to_attribute_slice,
}
use runtopo.Topology.Link.{link_string, link_attr}
use runtopo.Topology.Topo.{dot_of}
use runtopo.Libvirt.Mac.{must_parse_mac}
use runtopo.Libvirt.Random.{random_string, IsUrlSafe, encode_to_string, random_string-IsUrlSafe}
use runtopo.Libvirt.TempFiles.{
  write_temp_file, validate_domain_xml, temp_file, write, close, remove, validate,
}
use runtopo.Tests.Graphs.{web, cable}
use runtopo.Tests.Network.{net}
use runtopo.Tests.Lifecycle.{empty_topo}

abbrev node : DotNode
node = set_node_attribute (codes "os") (codes "none") (set_dot_id (codes "db") (new_node 1))

node_read : node_attributes (codes "os" ∷ []) node ≡ (codes "os", codes "none") ∷ []
unfolding node_attributes to_attribute_slice set_node_attribute set_dot_id new_node insert lookup
    str_eq
node_read = refl

node_named : node_string node ≡ codes "db"
unfolding node_string set_node_attribute set_dot_id
node_named = refl

line_read :
    line_attributes
      (codes "left_mac" ∷ [])
      (set_line_attribute (codes "left_mac") (codes "02::1") (new_line node node))
    ≡ (codes "left_mac", codes "02::1") ∷ []
unfolding line_attributes to_attribute_slice set_line_attribute new_line insert lookup str_eq
line_read = refl

left_port : from_port (set_from_port (codes "eth1") [] (new_line node node)) ≡ (codes "eth1", [])
unfolding from_port set_from_port
left_port = refl

right_port :
    to_port (set_to_port (codes "eth2") (codes "n") (new_line node node))
    ≡ (codes "eth2", codes "n")
unfolding to_port set_to_port
right_port = refl

cable_string : link_string cable ≡ codes "web-1:eth1 -- db:eth1"
unfolding link_string
cable_string = refl

cable_attr : link_attr cable (codes "left_mac") ≡ []
unfolding link_attr attr lookup
cable_attr = refl

web_links : device_links web ≡ []
unfolding device_links
web_links = refl

empty_dot : dot_of net empty_topo ≡ []
unfolding dot_of
empty_dot = refl

bad_mac : must_parse_mac none ≡ panic
unfolding must_parse_mac
bad_mac = refl

-- Zero bytes, as many as are asked for.
abbrev zeros : ℕ → Option Bytes
zeros n = some (0 ∷ 0 ∷ 255 ∷ 0 ∷ 0 ∷ 0 ∷ [])

random_run : random_string zeros 5 ≡ ok (codes "AAD_A")
unfolding random_string encode_to_string
random_run = refl

random_string-IsUrlSafe_example :
    (s : Bytes) × (random_string zeros 5 ≡ ok s) × (length s ≡ 5) × All IsUrlSafe s
random_string-IsUrlSafe_example =
    random_string-IsUrlSafe zeros 5 (0 ∷ 0 ∷ 255 ∷ 0 ∷ 0 ∷ 0 ∷ []) refl refl

temp_run :
    write_temp_file (λ log c. true) (λ log. codes "/tmp/x1") (codes "x") (codes "text") []
    ≡ (ok (codes "/tmp/x1"), temp_file (codes "x") ∷ write (codes "text") ∷ close ∷ [])
unfolding write_temp_file
temp_run = refl

validated : validate_domain_xml (λ log c. true) (λ log. []) (codes "<domain/>") [] ≡ (
  ok tt,
  temp_file (codes "runtopo-domxml.")
      ∷ write (codes "<domain/>")
      ∷ close
      ∷ validate (codes "<domain/>")
      ∷ remove
      ∷ [],
)
unfolding validate_domain_xml
validated = refl
