-- ===== src/Errors.antt =====
-- The errors that the functions under topology/ and runner/libvirt/ return, by what they report.
-- The text that `fmt.Errorf` puts around them is not modelled.
use runtopo.Prelude.{ℕ, Bytes}

pub data Error : Type 0 where
  -- ParseFile: the file.
  unreadable : Bytes → Error
  -- Parse: the DOT reader's error, a bad device name, an edge between unknown nodes.
  unmarshal : Error
  invalid_hostname : Bytes → Error
  unknown_nodes : Bytes → Bytes → Error
  -- setupAutoMgmtNetwork: the server's prefix, a device's address, an address that is taken or not
  -- in the prefix, no address left.
  bad_prefix : Bytes → Error
  bad_mgmt_ip : Bytes → Bytes → Error
  cannot_reserve : Bytes → Error
  range_exhausted : Bytes → Error
  -- buildInventory: a tunnel address, a config file, a second BMC for a device.
  bad_tunnel_ip : Bytes → Bytes → Error
  bad_config : Bytes → Error
  bmc_exists : Bytes → Error
  -- Run and Destroy: the length of the base address, the connection, the storage pool.
  bad_mac_base : ℕ → Error
  no_connection : Bytes → Error
  no_pool : Bytes → Error
  -- Images and volumes: a URL, a fetch, a volume's capacity or path, its XML, its creation, a stream.
  bad_url : Bytes → Error
  bad_status : Bytes → Error
  bad_length : Bytes → Error
  fetch_failed : Bytes → Error
  no_info : Bytes → Error
  no_path : Bytes → Error
  bad_volume : Bytes → Error
  create_failed : Bytes → Error
  stream_failed : Bytes → Error
  upload_failed : Bytes → Error
  -- Domains: the template, the definition, the customization, the start; and the virtual BMCs.
  bad_template : Bytes → Error
  define_failed : Bytes → Error
  temp_file_failed : Bytes → Error
  customize_failed : Bytes → Error
  start_failed : Bytes → Error
  bmc_start_failed : Error
  bmc_stop_failed : Error
  -- The address of the jump host, and the files that are written.
  no_lease : Error
  cancelled : Error
  write_failed : Error
  -- validateDomainXML: what virt-xml-validate says.
  invalid_xml : Error
