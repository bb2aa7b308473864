-- ===== src/Balancer/FreeSocket.antt =====
-- A socket that `nextFreeSocket` hands out is free.
use mathlib.Core.List.{Memᴰ}
use postgreslet.Prelude.{
  ℕ, ◌+◌, ◌^◌, ◌≤◌, ◌<◌, ◌≡◌, refl, ap, ◌∙◌, sym, true, false, List, [], ◌∷◌, arith, contains,
  nat_eq, text_eq,
}
use postgreslet.Text.{Text}
use postgreslet.Cluster.{ok, Client}
use postgreslet.Postgres.Services.{Service, ServicePort, svc_load_balancer_label}
use postgreslet.Balancer.Socket.{
  Options, ports_in_use, last_lb_ip, Search, found, exhausted, out_of_fuel, of_search,
  next_free_socket, socket_among,
}
use postgreslet.Balancer.Search.{free_port-IsSmallestFree, IsSmallestFree}

-- A service that is listed has its first port among the ports in use.
pub mem-ports_in_use :
    (services : List Service) (svc : Service) (port : ServicePort) (rest : List ServicePort)
    → Memᴰ svc services
    → svc.spec.ports ≡ port ∷ rest
    → contains (ports_in_use services) port.port ≡ true
unfolding ports_in_use
mem-ports_in_use [] svc port rest m e = elim m [ ]
mem-ports_in_use (s ∷ services) svc port rest (Memᴰ.head eq) e =
    let ports : s.spec.ports ≡ port ∷ rest = ap (λ (t : Service). t.spec.ports) (sym eq) ∙ e in
    rw (ports, ports_in_use) (ground arith)
mem-ports_in_use (s ∷ services) svc port rest (Memᴰ.tail m) e =
    ground (arith, mem-ports_in_use services svc port rest m e)

module _ {W E : Type 0} (client : Client W E Service) (options : Options) where
  open options use {port_range_start, port_range_size}

  of_search-found :
      (ip : Text) (r : Search) (used : List ℕ) {ip' : Text} {port end start : ℕ}
      → IsSmallestFree start end used r
      → of_search {E = E} ip r ≡ ok (ip', port)
      → (start ≤ port) × (port < end) × (contains used port ≡ false)
  of_search-found ip (found q) used h e = ground arith
  of_search-found ip exhausted used h e = ground arith
  of_search-found ip out_of_fuel used h e = ground arith

  socket_among-free :
      (services : List Service) {ip : Text} {port : ℕ}
      → port_range_start + port_range_size < 2 ^ 31
      → 0 < port_range_size
      → socket_among client options services ≡ ok (ip, port)
      → (port_range_start ≤ port)
        × (port < port_range_start + port_range_size)
        × (contains (ports_in_use services) port ≡ false)
  unfolding ports_in_use
  socket_among-free [] fits some_port h = ground arith
  socket_among-free (s ∷ services) fits some_port h =
      of_search-found (last_lb_ip [] (s ∷ services)) _ (ports_in_use (s ∷ services))
        (free_port-IsSmallestFree port_range_start port_range_size (ports_in_use (s ∷ services))
          fits)
        h

  -- A socket that is handed out lies in the range, and its port is in no listed service.
  pub next_free_socket-free :
      (w : W) (services : List Service) {ip : Text} {port : ℕ}
      → port_range_start + port_range_size < 2 ^ 31
      → 0 < port_range_size
      → client.list_all svc_load_balancer_label w ≡ ok services
      → next_free_socket client options w ≡ ok (ip, port)
      → (port_range_start ≤ port)
        × (port < port_range_start + port_range_size)
        × (contains (ports_in_use services) port ≡ false)
  unfolding next_free_socket
  next_free_socket-free w services fits some_port listed h =
      socket_among-free services fits some_port (sym (rw (listed, next_free_socket) refl) ∙ h)
