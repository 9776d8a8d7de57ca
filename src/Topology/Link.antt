-- ===== src/Topology/Link.antt =====
-- topology/link.go
use runtopo.Prelude.{Bytes, codes, Option, none, [], ◌∷◌, ◌++◌}
use runtopo.Prelude.Dict.{Dict, attr}

pub record Link : Type 0 where
  pub from : Bytes
  pub from_port : Bytes
  pub to : Bytes
  pub to_port : Bytes
  pub attrs : Dict Bytes

-- The two results of `FromMAC` and `ToMAC`: `none` where the second one is false. What `net.ParseMAC`
-- returns on a text is the argument `parse_mac`.
module _ {Mac : Type 0} (parse_mac : Bytes → Option Mac) where
  mac_attr : Bytes → Option Mac
  mac_attr [] = none
  mac_attr (c ∷ s) = parse_mac (c ∷ s)

  unfoldable pub from_mac : Link → Option Mac
  unfolding mac_attr
  from_mac l = mac_attr (attr l.attrs (codes "left_mac"))

  unfoldable pub to_mac : Link → Option Mac
  unfolding mac_attr
  to_mac l = mac_attr (attr l.attrs (codes "right_mac"))

unfoldable pub link_attr : Link → Bytes → Bytes
link_attr l key = attr l.attrs key

-- `String`: the two ends as "%s:%s -- %s:%s" prints them.
unfoldable pub link_string : Link → Bytes
link_string l = l.from ++ codes ":" ++ l.from_port ++ codes " -- " ++ l.to ++ codes ":" ++ l.to_port
