-- ===== src/ServiceActivation/Examples.antt =====
-- A service that systemd starts with two sockets.
use bloom_service_runtime.Prelude.{
  codes, none, some, [], ◌∷◌, All, all, list_beq, lookup, insert, remove, leb, ok, err, ◌≡◌, refl,
}
use bloom_service_runtime.RpcWire.Decimal.{parse_unsigned, parse_digits}
use bloom_service_runtime.ServiceActivation.{
  Process, rejected, load, split_names, adopt_descriptors, named_activation, collect_named,
  get_or_init, take_named, take, take_fd,
}
use bloom_service_runtime.ServiceActivation.Adopted.{Distinct, IsInherited}
use bloom_service_runtime.ServiceActivation.Exclusive.{takes, takes_exclusive}

abbrev process : Process
process = record {
  id = 7;
  listen_pid = some (codes "7");
  listen_fds = some (codes "2");
  listen_fdnames = some (codes "rpc:control");
  is_open = λ d. leb d 4;
}

test_load : load process ≡ ok ((codes "rpc", 3) ∷ (codes "control", 4) ∷ [])
unfolding load parse_unsigned parse_digits split_names adopt_descriptors named_activation
    collect_named lookup insert list_beq all
test_load = refl

test_duplicate : load (record process { listen_fdnames = some (codes "rpc:rpc") }) ≡ err rejected
unfolding load parse_unsigned parse_digits split_names adopt_descriptors named_activation
    collect_named lookup insert list_beq all
test_duplicate = refl

test_takes : takes process (codes "control" ∷ codes "rpc" ∷ codes "rpc" ∷ []) none ≡ 4 ∷ 3 ∷ []
unfolding takes take_fd take get_or_init take_named load parse_unsigned parse_digits split_names
    adopt_descriptors named_activation collect_named lookup insert remove list_beq all
test_takes = refl

takes_exclusive_example :
    Distinct (takes process (codes "control" ∷ codes "rpc" ∷ codes "rpc" ∷ []) none)
    × All
        (IsInherited process)
        (takes process (codes "control" ∷ codes "rpc" ∷ codes "rpc" ∷ []) none)
takes_exclusive_example = takes_exclusive process (codes "control" ∷ codes "rpc" ∷ codes "rpc" ∷ [])
