-- ===== src/Upnp.antt =====
-- vc-core/src/upnp.rs: a port mapping that lives as long as its owner. The gateway is the igd_next
-- crate's.
use voicechat.Base.{ℕ, ◌≡◌, refl, Result, ok, err, some, none, Option, arith}
use voicechat.Base.Bytes.{discovery_failed, no_external_ip, add_port_failed}
use voicechat.Net.Addr.{SocketAddr, IpAddr, ipv4, ipv6, port, with_port}

abbrev pub lease_duration_secs : ℕ
lease_duration_secs = 3600

-- A router of the crate: its state, and its answers. `add_port` is given the external port, the local
-- address and the lease; a refused call leaves the state as it is.
pub record Igd : Type 1 where
  pub Router : Type 0
  pub external_ip : Router → Option IpAddr
  pub add_port : ℕ → SocketAddr → ℕ → Router → Option Router
  pub remove_port : ℕ → Router → Option Router

pub record UpnpMapping : Type 0 where
  pub external_port : ℕ

module _ (igd : Igd) where
  -- `UpnpMapping::setup`, where the search has found a gateway or not.
  unfoldable pub setup :
      SocketAddr → Option igd.Router → Result (SocketAddr × UpnpMapping) × Option igd.Router
  setup local_addr none = (err discovery_failed, none)
  setup local_addr (some router) = elim (igd.external_ip router) [
    | none ↦ (err no_external_ip, some router)
    | some external_ip ↦
        elim (igd.add_port (port local_addr) local_addr lease_duration_secs router) [
          | none ↦ (err add_port_failed, some router)
          | some mapped ↦ (
            ok (
              with_port external_ip (port local_addr),
              record { external_port = port local_addr },
            ),
            some mapped,
          )
        ]
  ]

  -- `drop`; a failure is logged.
  unfoldable pub drop_mapping : UpnpMapping → igd.Router → igd.Router
  drop_mapping mapping router = elim (igd.remove_port mapping.external_port router) [
    | none ↦ router
    | some unmapped ↦ unmapped
  ]

  port-with_port : (found : IpAddr) (p : ℕ) → port (with_port found p) ≡ p
  unfolding port with_port
  port-with_port (ipv4 a b c d) p = refl
  port-with_port (ipv6 octets) p = refl

  -- On a router whose mappings can be removed again, the address that a successful setup returns has
  -- the local port, and the drop of its mapping leaves the router as it was before.
  pub drop-setup :
      (local_addr external : SocketAddr) (mapping : UpnpMapping) (router mapped : igd.Router)
      → ((p : ℕ) (a : SocketAddr) (lease : ℕ) (r r' : igd.Router)
          → igd.add_port p a lease r ≡ some r'
          → igd.remove_port p r' ≡ some r)
      → setup local_addr (some router) ≡ (ok (external, mapping), some mapped)
      → (drop_mapping mapping mapped ≡ router) × (port external ≡ port local_addr)
  unfolding setup drop_mapping
  drop-setup local_addr external mapping router mapped undone done =
      grind (
        arith,
        undone (port local_addr) local_addr lease_duration_secs router mapped,
        port-with_port,
      )
