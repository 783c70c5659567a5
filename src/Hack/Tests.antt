-- ===== src/Hack/Tests.antt =====
-- Runs of the /metadata handler.
use hegel.Base.{◌≡◌, refl, some, [], ◌∷◌, text_eq, bytes, if◌then◌else◌}
use hegel.Errors.{GoError, text, ok, err}
use hegel.Net.{
  Request, join_host_port, remote_addr_ip, last_index_byte, index_byte, split_host_port,
}
use hegel.Net.Samples.{host, port, host-HasNoBracket, port-HasNoBracket, port-IsFree}
use hegel.Gin.{json, abort_with_error}
use hegel.Hack.{Instance, Client, metadata_handler}
use hegel.Hack.Answers.{IsAnswer, metadata_handler-peer, metadata_handler-bad_address}

abbrev instance_of_host : Instance
instance_of_host = record {
  metadata = record { inst = record { storage = record { disks = []; filesystems = [] } } };
}

abbrev client : Client
client = record {
  get_hack_instance =
      λ ip. if text_eq ip host then ok instance_of_host else err (text (bytes "no hardware found"));
}

abbrev encode : Instance → Instance
encode i = i

abbrev no_port : Request
no_port = record { remote_addr = bytes "10.0.0.1" }

abbrev missing_port : GoError
missing_port = text (bytes "address 10.0.0.1: missing port in address")

no_port-bad : remote_addr_ip no_port ≡ ([], some missing_port)
unfolding remote_addr_ip split_host_port last_index_byte
no_port-bad = refl

answers :
    metadata_handler encode client (record { remote_addr = join_host_port host port })
    ≡ json 200 instance_of_host ∷ []
unfolding metadata_handler remote_addr_ip split_host_port join_host_port last_index_byte index_byte
    text_eq
answers = refl

metadata_handler-peer_example :
    IsAnswer Instance encode client
      (client.get_hack_instance host)
      (metadata_handler encode client (record { remote_addr = join_host_port host port }))
metadata_handler-peer_example =
    metadata_handler-peer Instance encode client host port host-HasNoBracket port-HasNoBracket
      port-IsFree

metadata_handler-bad_address_example :
    metadata_handler encode client no_port
    ≡ abort_with_error 400 (text (bytes "invalid remote address"))
      ∷ metadata_handler encode client (record { remote_addr = join_host_port [] port })
metadata_handler-bad_address_example =
    metadata_handler-bad_address Instance encode client no_port missing_port port no_port-bad
      port-HasNoBracket port-IsFree
